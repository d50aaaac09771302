-- ===== src/Search.antt =====
-- HeroPage.jsx of the buyer's app: the search for products. An answer may arrive in any order; the
-- requests without an answer are part of the state.
pub mod Discover
pub mod Order
pub mod Filters
pub mod Late
pub mod Card
pub mod Quote
mod Tests
use ion_insurance_testapp.Prelude.{
  ℕ, zero, suc, String, Bool, true, false, not, ◌&&◌, ◌||◌, List, [], ◌∷◌, ◌++◌, Option, none, some,
  str_eq, if◌then◌else◌, get_elem?, erase_idx,
}
use ion_insurance_testapp.Js.{or_text, Value, num, ◌else_use◌, get}
use ion_insurance_testapp.Js.Sort.{sort_by, rising, falling}
use ion_insurance_testapp.Search.Discover.{parse_discover_response}

-- `a.premiumRateMin ?? a.premium_rate_min ?? 0`. Where there is such a rate, it is a JSON number that
-- is not negative; the numbers of an order are counted in their last decimal.
abbrev pub rate_min : Value → ℕ
rate_min p = number (get p "premiumRateMin" else_use get p "premium_rate_min" else_use num 0)
  where
    number : Value → ℕ
    number (num n) = n
    number _ = 0

-- The two conditional sorts of `handleSearch`.
unfoldable pub sorted_for : String → List Value → List Value
sorted_for sort ps =
    if str_eq sort "rate_asc"
    then sort_by (rising rate_min) ps
    else if str_eq sort "rate_desc"
    then sort_by (falling rate_min) ps
    else ps

-- A call of `discover`: the first one, from the effect, or one of `handleSearch`, with the order
-- that was chosen then.
pub data Ask : Type 0 where
  first : Ask
  search : (query sort : String) → Ask

pub record Hero : Type 0 where
  pub lang : String
  pub query : String
  pub products : List Value
  pub loading : Bool
  pub searched : Bool
  pub vehicle_filter : String
  pub coverage_filter : String
  pub sort : String
  pub pending : List Ask

-- The page after its effect has run.
unfoldable pub mount_hero : (stored_lang : String) → Hero
mount_hero stored_lang = record {
  lang = or_text stored_lang "id";
  query = "";
  products = [];
  loading = true;
  searched = false;
  vehicle_filter = "";
  coverage_filter = "";
  sort = "default";
  pending = first ∷ [];
}

-- The products that an answer leads to: none where parsing throws.
unfoldable pub found : Ask → Value → List Value
unfolding sorted_for
found first answer = given (parse_discover_response answer)
  where
    given : Option (List Value) → List Value
    given none = []
    given (some ps) = ps
found (search _ sort) answer = ordered (parse_discover_response answer)
  where
    ordered : Option (List Value) → List Value
    ordered none = []
    ordered (some ps) = sorted_for sort ps

pub data Event : Type 0 where
  choose_lang : String → Event
  type_query : String → Event
  submit : Event
  choose_vehicle : String → Event
  choose_coverage : String → Event
  choose_sort : String → Event
  clear : Event
  answered : ℕ → Value → Event
  failed : ℕ → Event

abbrev settle : Option Ask → (Ask → List Value) → ℕ → Hero → Hero
settle none ps i h = h
settle (some a) ps i h = record h {
  products = ps a;
  loading = false;
  pending = erase_idx h.pending i;
}

unfoldable pub handle : Event → Hero → Hero
handle (choose_lang l) h = record h { lang = l }
handle (type_query q) h = record h { query = q }
handle submit h = record h {
  loading = true;
  searched = true;
  pending = h.pending ++ search h.query h.sort ∷ [];
}
handle (choose_vehicle v) h = record h { vehicle_filter = v }
handle (choose_coverage v) h = record h { coverage_filter = v }
handle (choose_sort s) h = record h { sort = s }
handle clear h = record h { vehicle_filter = ""; coverage_filter = ""; sort = "default" }
handle (answered i answer) h = settle (get_elem? h.pending i) (λ a. found a answer) i h
handle (failed i) h = settle (get_elem? h.pending i) (λ a. []) i h

abbrev pub handle_all : List Event → Hero → Hero
handle_all [] h = h
handle_all (e ∷ es) h = handle_all es (handle e h)
