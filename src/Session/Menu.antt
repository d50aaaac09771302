-- ===== src/Session/Menu.antt =====
-- bpp-frontend/src/components/Layout.jsx: the menu beside every page behind the guard.
use ion_insurance_testapp.Prelude.{
  String, Bool, true, false, ◌≡◌, refl, List, [], ◌∷◌, map, keep, All,
}
use ion_insurance_testapp.Js.{or_text, is_empty}
use ion_insurance_testapp.Session.Pages.{
  Browser, Route, inside, claims, dashboard, inventory, messages, policies, policy, publish,
  ratings, support,
}
use ion_insurance_testapp.Session.{visit, protected, handle, go}

-- `navLinks`
abbrev pub nav_links : List Route
nav_links = dashboard ∷ policies ∷ inventory ∷ publish ∷ claims ∷ messages ∷ support ∷ ratings ∷ []

-- `isActive` of a link on a page: its path is the page's, or the beginning of it.
abbrev pub is_active : (link page : Route) → Bool
is_active dashboard dashboard = true
is_active policies policies = true
is_active policies (policy _) = true
is_active inventory inventory = true
is_active publish publish = true
is_active claims claims = true
is_active messages messages = true
is_active support support = true
is_active ratings ratings = true
is_active _ _ = false

unfoldable pub nav_bar : Route → List (Route × Bool)
nav_bar page = map (λ (link : Route). (link, is_active link page)) nav_links

-- The address below the menu.
unfoldable pub shown_email : Browser → String
shown_email b = or_text b.bpp_email "admin@insurer.com"

abbrev pub actives : Route → List Route
actives page = keep (λ (link : Route). is_active link page) nav_links

-- A press on any link of the menu, while a token is stored, shows the page of that link, whose link is
-- then the only one marked.
pub nav_links-inside :
    (message : String) (b : Browser)
    → is_empty b.bpp_token ≡ false
    → All
        (λ (link : Route).
          ((handle message (go link) b).place ≡ inside link) × (actives link ≡ link ∷ []))
        nav_links
unfolding handle visit protected
nav_links-inside message b h = rw h (
  (refl, refl),
  (
    (refl, refl),
    (
      (refl, refl),
      ((refl, refl), ((refl, refl), ((refl, refl), ((refl, refl), ((refl, refl), tt))))),
    ),
  ),
)
