-- ===== src/Publish/Wizard/Reach.antt =====
-- What holds of the page whatever is pressed.
use ion_insurance_testapp.Prelude.{◌≤◌, ◌<◌, true, List, [], ◌∷◌, ◌≡◌, nonempty, arith}
use ion_insurance_testapp.Publish.Wizard.{Wizard, initial, Action, next, act, act_all}

-- The step is one of the five, and the lists of the steps before it are not empty.
pub record IsSound (w : Wizard) : Type 0 where
  pub at_least : 1 ≤ w.step
  pub at_most : w.step ≤ 5
  pub has_providers : 1 < w.step → nonempty w.providers.items ≡ true
  pub has_catalogs : 2 < w.step → nonempty w.catalogs.items ≡ true
  pub has_resources : 3 < w.step → nonempty w.resources.items ≡ true
  pub has_offers : 4 < w.step → nonempty w.offers.items ≡ true

initial-IsSound : IsSound initial
unfolding initial
initial-IsSound = ground arith

act-IsSound : (a : Action) (w : Wizard) → IsSound w → IsSound (act a w)
unfolding act
act-IsSound next w v = ground arith
act-IsSound a w v = ground arith

act_all-IsSound : (more : List Action) (w : Wizard) → IsSound w → IsSound (act_all more w)
act_all-IsSound [] w v = v
act_all-IsSound (a ∷ more) w v = act_all-IsSound more (act a w) (act-IsSound a w v)

pub reachable-IsSound : (more : List Action) → IsSound (act_all more initial)
reachable-IsSound more = act_all-IsSound more initial initial-IsSound
