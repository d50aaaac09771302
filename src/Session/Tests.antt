-- ===== src/Session/Tests.antt =====
-- The theorems about signing in at concrete answers and events.
use ion_insurance_testapp.Prelude.{All, String, true, [], ◌∷◌, none, some, ◌≡◌, refl}
use ion_insurance_testapp.Session.Menu.{nav_links, actives, nav_links-inside}
use ion_insurance_testapp.Js.{Value, null, str, obj, end, field}
use ion_insurance_testapp.Session.{visit, failure, go, ask, answered, handle, handle_all}
use ion_insurance_testapp.Session.Pages.{Route, publish, dashboard, inside, log_in, Sent, Browser}
use ion_insurance_testapp.Session.Guard.{IsGuarded, fresh, opened-IsGuarded, handle_unauthorized}

abbrev stored : Browser
stored = record (fresh "en") { bpp_token = "abc" }

abbrev sent_log_in : Sent
sent_log_in = record { body = log_in "a@b.id" "wrong"; authorization = none; attached = true }

opened-IsGuarded_example : IsGuarded (
    handle_all "Error"
      (ask ∷ answered (failure (some 401) null) ∷ go dashboard ∷ [])
      (visit publish stored))
opened-IsGuarded_example =
    opened-IsGuarded "Error" publish stored
      (ask ∷ answered (failure (some 401) null) ∷ go dashboard ∷ [])

handle_unauthorized_test :
    handle "Error"
      (answered (failure (some 401) null))
      (record (fresh "en") { pending = sent_log_in ∷ [] })
    ≡ fresh "en"
handle_unauthorized_test =
    handle_unauthorized "Error" (record (fresh "en") { pending = sent_log_in ∷ [] }) sent_log_in []
      null refl

abbrev token_of : String → Value
token_of t = obj (field "token" (str t) end)

nav_links_test :
    All
      (λ (link : Route).
        ((handle "Error" (go link) (record (fresh "en") { bpp_token = "T" })).place ≡ inside link)
        × (actives link ≡ link ∷ []))
      nav_links
nav_links_test = nav_links-inside "Error" (record (fresh "en") { bpp_token = "T" }) refl
