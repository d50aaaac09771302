-- ===== src/Api/Tests.antt =====
-- The theorems about api.js at concrete answers.
use ion_insurance_testapp.Prelude.{false, none, some, ◌≡◌, refl}
use ion_insurance_testapp.Js.{str, obj, end, field, to_text}
use ion_insurance_testapp.Api.{Response, rejected, http_text, check_ok}
use ion_insurance_testapp.Api.Messages.{check_ok_no_json}

abbrev refused : Response
refused = record {
  ok = false;
  status = 400;
  json = some (obj (field "detail" (str "no product") end));
}

abbrev bad_gateway : Response
bad_gateway = record { ok = false; status = 502; json = none }

check_ok_no_json_test :
    check_ok to_text "Unexpected token" (λ _. none) bad_gateway ≡ rejected (http_text 502)
check_ok_no_json_test =
    check_ok_no_json to_text "Unexpected token" (λ _. none) bad_gateway refl refl refl
