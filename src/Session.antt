-- ===== src/Session.antt =====
-- bpp-frontend/src: signing in to the insurer's application. LoginPage.jsx, RegisterPage.jsx,
-- ProtectedRoute.jsx, the routes of App.jsx, the log-out of Layout.jsx and the interceptors of
-- api/client.js.
mod Tests
pub mod Pages
pub mod Guard
pub mod Menu
use ion_insurance_testapp.Prelude.{
  ℕ, String, Bool, true, false, not, ◌&&◌, ◌||◌, List, [], ◌∷◌, ◌++◌, Option, none, some, ◌==◌,
  if◌then◌else◌,
}
use ion_insurance_testapp.Js.{
  is_empty, or_text, concat, Value, null, str, ◌or◌, get, truthy, to_text,
}
use ion_insurance_testapp.Session.Pages.{
  Body, Browser, LoginPage, Place, RegisterForm, RegisterPage, Route, Sent, at_login, at_register,
  claims, dashboard, detach, inside, inventory, log_in, login, messages, mount_login,
  mount_register, other, policies, policy, publish, ratings, register, root, sign_up, support,
  unknown,
}

-- The interceptor of requests.
unfoldable pub request : Body → Browser → Sent
request body b = record {
  body = body;
  attached = true;
  authorization =
      if is_empty b.bpp_token then none else some (concat ("Bearer " ∷ b.bpp_token ∷ []));
}

abbrev send : Body → Browser → Browser
send body b = record b { pending = b.pending ++ request body b ∷ [] }

-- `ProtectedRoute`
unfoldable pub protected : Route → Browser → Browser
protected r b = record b {
  place = if is_empty b.bpp_token then at_login (mount_login b.bpp_lang) else inside r;
  pending = detach b.pending;
}

-- `Routes` of App, on a link or a call of `navigate`: `/` and every unknown path lead to the
-- dashboard.
unfoldable pub visit : Route → Browser → Browser
unfolding protected
visit login b = record b { place = at_login (mount_login b.bpp_lang); pending = detach b.pending }
visit register b = record b { place = at_register mount_register; pending = detach b.pending }
visit root b = protected dashboard b
visit (unknown _) b = protected dashboard b
visit r b = protected r b

-- `response.data`, or `error.response?.status` and `error.response?.data`.
pub data Answer : Type 0 where
  success : Value → Answer
  failure : Option ℕ → Value → Answer

-- The interceptor of responses: on the status 401 the token goes, and the browser loads the page
-- `/login` anew, so that no handler is left.
abbrev pub is_unauthorized : Answer → Bool
is_unauthorized (failure (some status) _) = status == 401
is_unauthorized _ = false

unfoldable pub reload_login : Browser → Browser
reload_login b = record b {
  bpp_token = "";
  place = at_login (mount_login b.bpp_lang);
  pending = [];
}

-- What the user does, and the answers that arrive. `go` presses a link.
pub data Event : Type 0 where
  go : Route → Event
  type_email : String → Event
  type_password : String → Event
  fill : Event
  choose_lang : String → Event
  change_form : (RegisterForm → RegisterForm) → Event
  toggle_password : Event
  submit : Event
  ask : Event
  answered : Answer → Event
  log_out : Event

module _ (common_error : String) where
  -- `data?.detail || data?.message || t('common.error')`
  abbrev pub message_of : Value → Value
  message_of answer = get answer "detail" or get answer "message" or str common_error

  -- An error on the page, if it is the one that sent the request.
  abbrev stop : Value → Place → Place
  stop e (at_login p) = at_login (record p { error = e; loading = false })
  stop e (at_register p) = at_register (record p { error = e; loading = false })
  stop e (inside r) = inside r

  abbrev stop_on : Bool → Value → Browser → Browser
  stop_on attached e b = if attached then record b { place = stop e b.place } else b

  -- `handleSubmit` of LoginPage, from the answer on.
  unfoldable pub logged_in : String → Bool → Value → Browser → Browser
  unfolding visit
  logged_in email attached answer b =
      let token = get answer "token" or get answer "access_token" in
      if truthy token
      then visit dashboard (record b { bpp_token = to_text token; bpp_email = email })
      else stop_on attached (message_of answer) b

  -- The handler of a request that the interceptor lets through.
  unfoldable pub settle : Body → Bool → Answer → Browser → Browser
  unfolding visit logged_in
  settle (log_in email _) attached (success answer) b = logged_in email attached answer b
  settle (sign_up _) attached (success _) b = visit login b
  settle other attached a b = b
  settle (log_in _ _) attached (failure _ body) b = stop_on attached (message_of body) b
  settle (sign_up _) attached (failure _ body) b = stop_on attached (message_of body) b

  abbrev answer_to : List Sent → Answer → Browser → Browser
  answer_to [] a b = b
  answer_to (s ∷ ss) a b =
      if is_unauthorized a
      then reload_login b
      else settle s.body s.attached a (record b { pending = ss })

  -- What the page shown does with an event.
  abbrev on_login : Event → LoginPage → Browser → Browser
  on_login (type_email v) p b = record b { place = at_login (record p { email = v }) }
  on_login (type_password v) p b = record b { place = at_login (record p { password = v }) }
  on_login fill p b = record b {
    place = at_login (record p { email = "admin@asuransimaju.id"; password = "password123" });
  }
  on_login (choose_lang l) p b = record b { place = at_login (record p { lang = l }); bpp_lang = l }
  on_login toggle_password p b = record b {
    place = at_login (record p { show_password = not p.show_password });
  }
  on_login submit p b =
      if p.loading
      then b
      else send (log_in p.email p.password)
          (record b { place = at_login (record p { error = str ""; loading = true }) })
  on_login e p b = b

  abbrev on_register : Event → RegisterPage → Browser → Browser
  on_register (change_form f) p b = record b { place = at_register (record p { form = f p.form }) }
  on_register fill p b = record b {
    place = at_register (record p {
      form = record {
        company_name = "PT Asuransi Maju";
        ojk_license = "OJK-2024-001";
        email = "admin@asuransimaju.id";
        password = "password123";
      };
    });
  }
  on_register toggle_password p b = record b {
    place = at_register (record p { show_password = not p.show_password });
  }
  on_register submit p b =
      if p.loading
      then b
      else send (sign_up p.form)
          (record b { place = at_register (record p { error = str ""; loading = true }) })
  on_register e p b = b

  -- A page behind the guard asks the server for something; `handleLogout` of Layout.
  abbrev on_inside : Event → Browser → Browser
  on_inside ask b = send other b
  on_inside log_out b = visit login (record b { bpp_token = "" })
  on_inside e b = b

  abbrev on_place : Place → Event → Browser → Browser
  on_place (at_login p) e b = on_login e p b
  on_place (at_register p) e b = on_register e p b
  on_place (inside _) e b = on_inside e b

  unfoldable pub handle : Event → Browser → Browser
  unfolding visit reload_login settle
  handle (go r) b = visit r b
  handle (answered a) b = answer_to b.pending a b
  handle e b = on_place b.place e b

  abbrev pub handle_all : List Event → Browser → Browser
  handle_all [] b = b
  handle_all (e ∷ es) b = handle_all es (handle e b)
