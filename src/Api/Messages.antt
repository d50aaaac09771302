-- ===== src/Api/Messages.antt =====
-- The messages of failed requests.
use ion_insurance_testapp.Prelude.{String, Bool, true, false, not, Option, none, some, ◌≡◌, arith}
use ion_insurance_testapp.Js.{is_empty, Value, undefined, null, str, get}
use ion_insurance_testapp.Api.{Response, rejected, http_text, message, check_ok}

-- A text, or nothing.
abbrev pub is_plain : Value → Bool
is_plain undefined = true
is_plain null = true
is_plain (str _) = true
is_plain _ = false

abbrev is_shown : Value → Bool
is_shown (str s) = not (is_empty s)
is_shown _ = false

-- The fields of an error's body that a message is taken from.
abbrev pub IsPlainBody : Option Value → Type 0
IsPlainBody none = Unit
IsPlainBody (some j) =
    (is_plain (get j "detail") ≡ true)
    × (is_plain (get j "message") ≡ true)
    × (is_plain (get j "error") ≡ true)

module _ (stringify : Value → String) (no_json : String) (text : Response → Option String) where
  -- A body can be read once. So the text of an error that is no JSON is never shown: the message is
  -- the status alone.
  pub check_ok_no_json :
      (r : Response)
      → text r ≡ none
      → r.ok ≡ false
      → r.json ≡ none
      → check_ok stringify no_json text r ≡ rejected (http_text r.status)
  unfolding check_ok message
  check_ok_no_json r read failed bare = ground arith
