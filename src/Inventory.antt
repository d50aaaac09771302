-- ===== src/Inventory.antt =====
-- InventoryPage.jsx of the insurer's app: its three requests, and its tabs.
pub mod Product
pub mod Offer
pub mod Linked
pub mod Groups
pub mod Loading
mod Tests
use ion_insurance_testapp.Prelude.{
  String, Bool, true, false, List, [], ◌∷◌, Option, none, some, if◌then◌else◌, ◌>>=◌,
}
use ion_insurance_testapp.Js.{Value, arr, nil, get, ◌or◌}

-- `Array.isArray(data) ? data : (data?.key || data?.items || [])`
abbrev pub list_in : String → Value → Value
list_in key (arr vs) = arr vs
list_in key v = get v key or get v "items" or arr nil

pub data Request : Type 0 where
  resources offers catalogs : Request

-- The answers that have come to `Promise.all`.
pub record Answers : Type 0 where
  pub resources : Option Value
  pub offers : Option Value
  pub catalogs : Option Value

pub record Page : Type 0 where
  pub tab : String
  pub products : Value
  pub offers : Value
  pub catalogs : Value
  pub loading : Bool
  pub error : Bool
  pub answers : Answers

unfoldable pub mount : Page
mount = record {
  tab = "products";
  products = arr nil;
  offers = arr nil;
  catalogs = arr nil;
  loading = true;
  error = false;
  answers = record { resources = none; offers = none; catalogs = none };
}

abbrev arrive : Request → Value → Answers → Answers
arrive resources v a = record a { resources = some v }
arrive offers v a = record a { offers = some v }
arrive catalogs v a = record a { catalogs = some v }

-- The three answers, once they are there.
abbrev pub all_of : Answers → Option (Value × Value × Value)
all_of a = do r ← a.resources; o ← a.offers; c ← a.catalogs; some (r, o, c)

-- `.then(...)` and `.finally(...)`
abbrev pub fulfilled : Option (Value × Value × Value) → Page → Page
fulfilled none p = p
fulfilled (some (r, o, c)) p = record p {
  products = list_in "resources" r;
  offers = list_in "offers" o;
  catalogs = list_in "catalogs" c;
  loading = false;
}

pub data Event : Type 0 where
  answered : Request → Value → Event
  failed : Request → Event
  choose_tab : String → Event

-- After it is settled the promise takes no further answer.
unfoldable pub handle : Event → Page → Page
handle (answered r v) p =
    let a = arrive r v p.answers in
    if p.loading then fulfilled (all_of a) (record p { answers = a }) else p
handle (failed r) p = if p.loading then record p { error = true; loading = false } else p
handle (choose_tab t) p = record p { tab = t }

abbrev pub handle_all : List Event → Page → Page
handle_all [] p = p
handle_all (e ∷ es) p = handle_all es (handle e p)
