-- ===== src/Api.antt =====
-- bap-frontend/src/api.js: what becomes of the answer to a request.
mod Tests
pub mod Messages
use ion_insurance_testapp.Prelude.{
  ℕ, String, Bool, true, false, List, [], ◌∷◌, Option, none, some, if◌then◌else◌,
}
use ion_insurance_testapp.Js.{concat, show_ℕ, Value, str, ◌or◌, get, to_text}

-- `json` is what `r.json()` gives, none where the body is no JSON.
pub record Response : Type 0 where
  pub ok : Bool
  pub status : ℕ
  pub json : Option Value

pub data Settled : Type 0 where
  resolved : Value → Settled
  rejected : (message : String) → Settled

unfoldable pub http_text : ℕ → String
http_text status = concat ("HTTP " ∷ show_ℕ status ∷ [])

-- `JSON.stringify`, the message of the error of `r.json()`, and what `r.text()` gives after
-- `r.json()` has read the body: none where it fails.
module _ (stringify : Value → String) (no_json : String) (text : Response → Option String) where
  unfoldable pub message : Response → Value
  message r = elim r.json [
    | some j ↦ get j "detail" or get j "message" or get j "error" or str (stringify j)
    | none ↦ elim (text r) [ some t ↦ str t | none ↦ str (http_text r.status) ]
  ]

  unfoldable pub check_ok : Response → Settled
  unfolding message
  check_ok r =
      if r.ok
      then elim r.json [ some j ↦ resolved j | none ↦ rejected no_json ]
      else rejected (to_text (message r or str (http_text r.status)))
