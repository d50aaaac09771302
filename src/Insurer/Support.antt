-- ===== src/Insurer/Support.antt =====
-- SupportPage.jsx.
use ion_insurance_testapp.Prelude.{
  ℕ, Bool, not, ◌||◌, String, List, [], ◌∷◌, Option, none, some, if◌then◌else◌, ◌>>=◌, length, keep,
  str_eq, ltb, ◌==◌,
}
use ion_insurance_testapp.Js.{Value, str, get, is_nullish, truthy, or_text}
use ion_insurance_testapp.Cards.{map_some}
use ion_insurance_testapp.Insurer.{items_of}

-- A ticket, with the text of its status, which is empty where it has none.
pub record Ticket : Type 0 where
  pub status : String
  pub fields : Value

-- A status that is no text has no `toUpperCase`.
abbrev status_text : Value → Option String
status_text (str s) = some s
status_text v = if truthy v then none else some ""

abbrev pub ticket : Value → Option Ticket
ticket v =
    if is_nullish v
    then none
    else status_text (get v "status") >>= λ s. some (record { status = s; fields = v })

abbrev pub statuses : List String
statuses = "OPEN" ∷ "IN_PROGRESS" ∷ "RESOLVED" ∷ "CLOSED" ∷ []

pub record Bar : Type 0 where
  pub status : String
  pub count : ℕ
  -- the width is the count in proportion to this
  pub max : ℕ

pub record Tab : Type 0 where
  pub filter : String
  pub count : ℕ

pub record Support : Type 0 where
  pub total : ℕ
  pub open_count : ℕ
  pub closed_count : ℕ
  pub without_policy : ℕ
  pub bars : List Bar
  pub tabs : List Tab
  pub displayed : List Ticket

-- `toUpperCase` of the language, whatever its Unicode tables are.
module _ (to_upper_case : String → String) where
  -- `(t.status || 'OPEN').toUpperCase() === s`
  abbrev pub has_status : String → Ticket → Bool
  has_status s t = str_eq (to_upper_case (or_text t.status "OPEN")) s

  abbrev pub is_closed : Ticket → Bool
  is_closed t = let s = to_upper_case t.status in str_eq s "CLOSED" || str_eq s "RESOLVED"

  abbrev pub count_status : String → List Ticket → ℕ
  count_status s ts = length (keep (has_status s) ts)

  abbrev pub max_count : List String → List Ticket → ℕ
  max_count [] ts = 1
  max_count (s ∷ ss) ts =
      let rest = max_count ss ts in if ltb rest (count_status s ts) then count_status s ts else rest

  abbrev pub bars_among : (max : ℕ) → List String → List Ticket → List Bar
  bars_among max [] ts = []
  bars_among max (s ∷ ss) ts =
      let rest = bars_among max ss ts in
      if ltb 0 (count_status s ts)
      then record { status = s; count = count_status s ts; max = max } ∷ rest
      else rest

  unfoldable pub status_breakdown : List Ticket → List Bar
  status_breakdown ts = bars_among (max_count statuses ts) statuses ts

  abbrev pub tabs_among : List String → List Ticket → List Tab
  tabs_among [] ts = []
  tabs_among (s ∷ ss) ts =
      let rest = tabs_among ss ts in
      let n = count_status s ts in if n == 0 then rest else record { filter = s; count = n } ∷ rest

  unfoldable pub filter_tabs : List Ticket → List Tab
  filter_tabs [] = []
  filter_tabs (t ∷ ts) =
      record { filter = "ALL"; count = length (t ∷ ts) } ∷ tabs_among statuses (t ∷ ts)

  unfoldable pub displayed_tickets : (filter : String) → List Ticket → List Ticket
  displayed_tickets filter ts = if str_eq filter "ALL" then ts else keep (has_status filter) ts

  unfoldable pub support : (filter : String) (content : Value) → Option Support
  unfolding status_breakdown filter_tabs displayed_tickets
  support filter content = do
    vs ← items_of content
    ts ← map_some ticket vs
    some (record {
      total = length ts;
      open_count = count_status "OPEN" ts;
      closed_count = length (keep is_closed ts);
      without_policy = length (keep (λ t. not (truthy (get t.fields "policy_number"))) ts);
      bars = status_breakdown ts;
      tabs = filter_tabs ts;
      displayed = displayed_tickets filter ts;
    })
