-- ===== src/History/Bar.antt =====
-- Which segments of the stage bar are filled.
use ion_insurance_testapp.Prelude.{
  String, Bool, ◌≡◌, refl, List, [], ◌∷◌, map, arith, str_eq, eq_iff, ne_of, any,
}
use ion_insurance_testapp.History.{stages, Segment, seam_stage_bar}

-- Of each stage, whether the stage given is it or a later one.
abbrev pub reached : String → List String → List Bool
reached stage [] = []
reached stage (k ∷ ks) = any (λ x. str_eq x stage) (k ∷ ks) ∷ reached stage ks

-- The bar has the five stages in order, and fills exactly those that are the stage given or come
-- before it: none for an unknown stage.
pub seam_stage_bar_filled :
    (stage : String)
    → (map (λ (s : Segment). s.key) (seam_stage_bar stage) ≡ stages)
      × (map (λ (s : Segment). s.is_filled) (seam_stage_bar stage) ≡ reached stage stages)
unfolding seam_stage_bar
seam_stage_bar_filled stage = ground (
  arith,
  eq_iff "va_created" stage,
  eq_iff "payment_held" stage,
  eq_iff "policy_issued" stage,
  eq_iff "reconciling" stage,
  eq_iff "settled" stage,
  ne_of "va_created" "payment_held" refl,
  ne_of "va_created" "policy_issued" refl,
  ne_of "va_created" "reconciling" refl,
  ne_of "va_created" "settled" refl,
  ne_of "payment_held" "policy_issued" refl,
  ne_of "payment_held" "reconciling" refl,
  ne_of "payment_held" "settled" refl,
  ne_of "policy_issued" "reconciling" refl,
  ne_of "policy_issued" "settled" refl,
  ne_of "reconciling" "settled" refl,
)
