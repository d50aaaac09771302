-- ===== src/Session/Pages.antt =====
-- bpp-frontend/src: the state of LoginPage.jsx and RegisterPage.jsx as React mounts them, the routes
-- of App.jsx, and what the browser holds.
use ion_insurance_testapp.Prelude.{String, Bool, false, List, [], ◌∷◌, Option}
use ion_insurance_testapp.Js.{or_text, Value, str}

-- The routes of App, and every other path.
pub data Route : Type 0 where
  login : Route
  register : Route
  root : Route
  dashboard : Route
  policies : Route
  policy : String → Route
  inventory : Route
  publish : Route
  claims : Route
  messages : Route
  support : Route
  ratings : Route
  unknown : String → Route

pub record LoginPage : Type 0 where
  pub email : String
  pub password : String
  pub show_password : Bool
  pub error : Value
  pub loading : Bool
  pub lang : String

-- `localStorage.getItem('bpp_lang') || 'id'`
abbrev pub mount_login : String → LoginPage
mount_login stored_lang = record {
  email = "";
  password = "";
  show_password = false;
  error = str "";
  loading = false;
  lang = or_text stored_lang "id";
}

pub record RegisterForm : Type 0 where
  pub company_name : String
  pub ojk_license : String
  pub email : String
  pub password : String

pub record RegisterPage : Type 0 where
  pub form : RegisterForm
  pub show_password : Bool
  pub error : Value
  pub loading : Bool

abbrev pub mount_register : RegisterPage
mount_register = record {
  form = record { company_name = ""; ojk_license = ""; email = ""; password = "" };
  show_password = false;
  error = str "";
  loading = false;
}

pub data Place : Type 0 where
  at_login : LoginPage → Place
  at_register : RegisterPage → Place
  inside : Route → Place

-- A request through the client, with its `Authorization` header. `attached` says that the page
-- which sent it is still mounted.
pub data Body : Type 0 where
  log_in : (email password : String) → Body
  sign_up : RegisterForm → Body
  other : Body

pub record Sent : Type 0 where
  pub body : Body
  pub authorization : Option String
  pub attached : Bool

abbrev pub detach : List Sent → List Sent
detach [] = []
detach (s ∷ ss) = record s { attached = false } ∷ detach ss

-- The storage of the browser, with "" for an absent item, the page shown, and the requests
-- without an answer.
pub record Browser : Type 0 where
  pub bpp_token : String
  pub bpp_email : String
  pub bpp_lang : String
  pub place : Place
  pub pending : List Sent
