-- ===== src/Shell/Tests.antt =====
-- The paths of the buyer's application.
use ion_insurance_testapp.Prelude.{◌≡◌, refl}
use ion_insurance_testapp.Shell.Badges.{green, status_colour, status_style}
use ion_insurance_testapp.Js.{str}

colour_test : (status_colour (str "ACTIVE") ≡ green) × (status_style (str "PUBLISHED") ≡ green)
unfolding status_colour status_style
colour_test = (refl, refl)
