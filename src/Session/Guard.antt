-- ===== src/Session/Guard.antt =====
-- Who sees the pages behind the guard.
use ion_insurance_testapp.Prelude.{String, false, List, [], ◌∷◌, some, ◌≡◌, arith}
use ion_insurance_testapp.Js.{is_empty, Value}
use ion_insurance_testapp.Session.{
  visit, protected, failure, reload_login, logged_in, settle, Event, go, answered, handle,
  handle_all,
}
use ion_insurance_testapp.Session.Pages.{Route, Place, at_login, inside, mount_login, Sent, Browser}

-- A page behind the guard is shown only while a token is stored.
abbrev pub IsGuarded : Browser → Type 0
IsGuarded b = shown b.place
  where
    shown : Place → Type 0
    shown (inside _) = is_empty b.bpp_token ≡ false
    shown _ = Unit

handle-IsGuarded : (m : String) (e : Event) (b : Browser) → IsGuarded b → IsGuarded (handle m e b)
unfolding handle visit protected reload_login settle logged_in
handle-IsGuarded m (go r) b v = ground arith
handle-IsGuarded m (answered a) b v = ground arith
handle-IsGuarded m e b v = ground arith

handle_all-IsGuarded :
    (m : String) (es : List Event) (b : Browser) → IsGuarded b → IsGuarded (handle_all m es b)
handle_all-IsGuarded m [] b v = v
handle_all-IsGuarded m (e ∷ es) b v =
    handle_all-IsGuarded m es (handle m e b) (handle-IsGuarded m e b v)

visit-IsGuarded : (r : Route) (b : Browser) → IsGuarded (visit r b)
unfolding visit protected
visit-IsGuarded r b = ground arith

-- Whichever route is opened with whatever in the storage, and whatever then happens, a page behind
-- the guard is shown only while a token is stored.
pub opened-IsGuarded :
    (common_error : String) (r : Route) (stored : Browser) (es : List Event)
    → IsGuarded (handle_all common_error es (visit r stored))
opened-IsGuarded common_error r stored es =
    handle_all-IsGuarded common_error es (visit r stored) (visit-IsGuarded r stored)

-- The status 401, in answer to whichever request, leaves a fresh page for signing in, no token, and
-- no handler: also when the request was to sign in, so that the message of the answer is not shown.
pub handle_unauthorized :
    (common_error : String) (b : Browser) (s : Sent) (ss : List Sent) (body : Value)
    → b.pending ≡ s ∷ ss
    → handle common_error (answered (failure (some 401) body)) b
      ≡ record b { bpp_token = ""; place = at_login (mount_login b.bpp_lang); pending = [] }
unfolding handle reload_login
handle_unauthorized common_error b s ss body waiting = ground arith

-- A browser on the page for signing in, with nothing but a language stored.
abbrev pub fresh : String → Browser
fresh lang = record {
  bpp_token = "";
  bpp_email = "";
  bpp_lang = lang;
  place = at_login (mount_login lang);
  pending = [];
}
