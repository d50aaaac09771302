-- ===== src/Publish/Errors.antt =====
-- The message under the wizard: parsePublishError and ErrorBox of PublishPage.jsx, and the indicator
-- of the step. `JSON.parse` is a parameter, `none` where it throws.
use Prim.Native.Char.{code}
use Prim.Native.String.{[], ◌∷◌}
use mathlib.Core.List.{List}
use ion_insurance_testapp.Prelude.{
  ℕ, suc, String, Bool, false, not, ◌&&◌, ◌==◌, leb, ltb, Option, none, some, if◌then◌else◌, ◌>>=◌,
  ◌≡◌, refl,
}
use ion_insurance_testapp.Js.{
  Value, obj, field, end, null, str, get, truthy, ◌or◌, is_empty, is_space, utf16_length,
}

-- What follows a beginning.
abbrev rest_after : String → String → Option String
rest_after [] s = some s
rest_after (p ∷ ps) [] = none
rest_after (p ∷ ps) (c ∷ s) = let rest = rest_after ps s in if code p == code c then rest else none

abbrev is_digit : ℕ → Bool
is_digit c = leb 48 c && leb c 57

abbrev skip_while : (ℕ → Bool) → String → String
skip_while p [] = []
skip_while p (c ∷ s) = let rest = skip_while p s in if p (code c) then rest else c ∷ s

-- `\d+`
abbrev skip_digits : String → Option String
skip_digits [] = none
skip_digits (c ∷ s) = if is_digit (code c) then some (skip_while is_digit s) else none

-- `\{[\s\S]+$`
abbrev braced : String → Option String
braced [] = none
braced (c ∷ s) = if code c == 123 && not (is_empty s) then some (c ∷ s) else none

-- `returned \d+:\s*(\{[\s\S]+)$` at the beginning: its group.
unfoldable pub json_here : String → Option String
unfolding is_space
json_here s = do
  number ← rest_after "returned " s
  colon ← skip_digits number
  spaces ← rest_after ":" colon
  braced (skip_while is_space spaces)

-- The group of the first match.
unfoldable pub json_match : String → Option String
unfolding json_here
json_match [] = none
json_match (c ∷ s) =
    let later = json_match s in elim (json_here (c ∷ s)) [ none ↦ later | some m ↦ some m ]

-- `s.split('\n')[0]`
abbrev first_line : String → String
first_line [] = []
first_line (c ∷ s) = let rest = first_line s in if code c == 10 then [] else c ∷ rest

pub record PublishError : Type 0 where
  pub path : Value
  pub message : Value
  pub full : Value

module _ (json_parse : String → Option Value) where
  -- A message that is no text has no `split`, which throws.
  abbrev line_of : Value → Option String
  line_of (str s) = some (first_line s)
  line_of v = if truthy v then none else some []

  abbrev found_in : (err : Value) → String → Option PublishError
  found_in err line =
      if truthy err
      then some
          (record { path = get err "paths" or null; message = str line; full = get err "message" })
      else none

  abbrev onix_error : String → Option PublishError
  onix_error raw = do
    group ← json_match raw
    body ← json_parse group
    let err = get (get body "message") "error"
    line ← line_of (get err "message")
    found_in err line

  -- `null` for the empty text.
  unfoldable pub parse_publish_error : String → Option PublishError
  unfolding json_match
  parse_publish_error raw = if is_empty raw then none else elim (onix_error raw) [
    | none ↦ some (record { path = null; message = str raw; full = str raw })
    | some e ↦ some e
  ]

  -- ErrorBox, hidden for the empty text.
  pub record ErrorBox : Type 0 where
    pub path : Option Value
    pub message : Value
    -- whether there is a button that shows it all
    pub is_long : Bool
    pub full : Option Value

  abbrev is_over_200 : Value → Bool
  is_over_200 (str s) = ltb 200 (utf16_length s)
  is_over_200 _ = false

  unfoldable pub error_box : (expanded : Bool) (detail : String) → Option ErrorBox
  unfolding parse_publish_error
  error_box expanded detail = parse_publish_error detail >>= λ e. some (record {
    path = if truthy e.path then some e.path else none;
    message = e.message or str detail;
    is_long = is_over_200 e.full;
    full = if expanded then some e.full else none;
  })

-- StepIndicator: what is shown of a step.
pub data StepMark : Type 0 where
  done active ahead : StepMark

abbrev step_mark : (current step : ℕ) → StepMark
step_mark current step =
    if ltb step current then done else if step == current then active else ahead

abbrev marks_from : (step current : ℕ) → List String → List StepMark
marks_from step current List.[] = List.[]
marks_from step current (List.◌∷◌ label labels) =
    List.◌∷◌ (step_mark current step) (marks_from (suc step) current labels)

unfoldable pub step_indicator : (current : ℕ) → List String → List StepMark
step_indicator current labels = marks_from 1 current labels

abbrev parsed : String → Option Value
parsed s = some (
    obj (
      field "message" (obj (field "error" (obj (field "message" (str "Bad.\nMore.") end)) end))
        end))

json_match_test : json_match "onix returned 400: {x" ≡ some "{x"
unfolding json_match
json_match_test = refl

parse_publish_error_tests :
    (parse_publish_error parsed "onix returned 400: {x"
      ≡ some (record { path = null; message = str "Bad."; full = str "Bad.\nMore." }))
    × (parse_publish_error parsed "down"
        ≡ some (record { path = null; message = str "down"; full = str "down" }))
unfolding parse_publish_error
parse_publish_error_tests = (refl, refl)
