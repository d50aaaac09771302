-- ===== src/Shell/Routes.antt =====
-- App.jsx of the buyer's application: which page a path shows.
use ion_insurance_testapp.Prelude.{
  ℕ, zero, suc, String, Bool, true, false, List, [], ◌∷◌, Option, none, some, if◌then◌else◌,
}

-- The paths that App has a route for, and every other one.
pub data UrlPath : Type 0 where
  root : UrlPath
  policy : (txn_id : String) → UrlPath
  flow : UrlPath
  history : UrlPath
  policies : UrlPath
  unknown : String → UrlPath

pub data Page : Type 0 where
  hero_page : Page
  policy_flow_page : (txn_id : Option String) → Page
  policy_history_page : Page

-- The element of a route: a page, or `Navigate`.
pub data Element : Type 0 where
  shows : Page → Element
  navigate : UrlPath → Element

unfoldable pub route : UrlPath → Element
route root = shows hero_page
route (policy txn_id) = shows (policy_flow_page (some txn_id))
route flow = shows (policy_flow_page none)
route history = shows policy_history_page
route policies = navigate history
route (unknown _) = navigate root

-- The location of the browser, where a redirection replaces it, and the page that it shows, when
-- that takes fewer than the given number of redirections.
unfoldable pub settle : ℕ → UrlPath → Option (UrlPath × Page)
unfolding route
settle zero p = none
settle (suc n) p = elim (route p) [ shows page ↦ some (p, page) | navigate q ↦ settle n q ]

abbrev is_root : UrlPath → Bool
is_root root = true
is_root _ = false

abbrev is_history : UrlPath → Bool
is_history history = true
is_history _ = false

-- NavBar: its two links, each with whether it is marked at a location.
unfoldable pub nav_bar : UrlPath → List (UrlPath × Bool)
nav_bar location = (root, is_root location) ∷ (history, is_history location) ∷ []

-- The link that stands for a page, if any.
abbrev pub link_of : Page → Option UrlPath
link_of hero_page = some root
link_of (policy_flow_page _) = none
link_of policy_history_page = some history

-- The links that are marked.
abbrev pub marked : List (UrlPath × Bool) → List UrlPath
marked [] = []
marked ((p, b) ∷ ls) = let rest = marked ls in if b then p ∷ rest else rest
