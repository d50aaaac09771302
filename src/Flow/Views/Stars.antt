-- ===== src/Flow/Views/Stars.antt =====
-- The stars of the rating and the label below them.
use ion_insurance_testapp.Prelude.{
  ℕ, zero, suc, ◌≤◌, ◌≡◌, ◌≢◌, Bool, true, false, List, [], ◌∷◌, none, some, length, keep, map, leb,
  get_elem?, arith, if◌then◌else◌, ltb, Bool-cases, inl, inr, sym,
}
use ion_insurance_testapp.Js.{Value}
use ion_insurance_testapp.Flow.Policy.{PolicyStep, PolicyEvent, mount_policy, on_policy_all}
use ion_insurance_testapp.Flow.Policy.Rating.{on_policy_all-IsFine, mount_policy-IsFine}
use ion_insurance_testapp.Flow.Views.{RatingForm, rating_section, rating_labels, shown_rating}

abbrev pub count_filled : List Bool → ℕ
count_filled bs = length (keep (λ b. b) bs)

five_stars : (n : ℕ) → n ≤ 5 → count_filled (map (λ star. leb star n) (1 ∷ 2 ∷ 3 ∷ 4 ∷ 5 ∷ [])) ≡ n
five_stars n h = ground arith

shown_rating_le : (s : PolicyStep) → s.rating ≤ 5 → s.hover_rating ≤ 5 → shown_rating s ≤ 5
shown_rating_le s h k = ground arith

some_injective : {A : Type 0} {x y : A} → some x ≡ some y → x ≡ y
some_injective e = cc

label_there : (n : ℕ) → n ≤ 5 → get_elem? rating_labels n ≢ none
label_there zero h = λ e. cc
label_there (suc zero) h = λ e. cc
label_there (suc (suc zero)) h = λ e. cc
label_there (suc (suc (suc zero))) h = λ e. cc
label_there (suc (suc (suc (suc zero)))) h = λ e. cc
label_there (suc (suc (suc (suc (suc zero))))) h = λ e. cc
label_there (suc (suc (suc (suc (suc (suc n)))))) h = absurd (omega arith)

label_lem :
    (n : ℕ) → n ≤ 5 → (if ltb 0 n then some (get_elem? rating_labels n) else none) ≢ some none
label_lem n h = elim (Bool-cases (ltb 0 n)) [
  | inl e ↦ rw e (λ p. label_there n h (some_injective p))
  | inr e ↦ rw e (λ p. cc)
]

some_section :
    (submitted : Bool) (v f : RatingForm) → (if submitted then none else some v) ≡ some f → v ≡ f
some_section true v f e = cc
some_section false v f e = cc

-- Whatever the customer does with the stars: while the form is shown, as many stars are filled as the
-- rating, or, over a star, as the number of that star, and the label of a rating is never missing
-- from the array of labels.
pub rating_section_lem :
    (txn : Value) (es : List PolicyEvent) (f : RatingForm)
    → rating_section (on_policy_all txn es mount_policy) ≡ some f
    → (count_filled f.stars ≡ shown_rating (on_policy_all txn es mount_policy))
      × (f.label ≢ some none)
unfolding rating_section
rating_section_lem txn es f e =
    let s = on_policy_all txn es mount_policy in
    let fine = on_policy_all-IsFine txn es mount_policy (mount_policy-IsFine txn) in
    let same = some_section s.rating_form.submitted _ f e in
    rw (sym same) (
      five_stars (shown_rating s) (shown_rating_le s fine.stars fine.hovered),
      label_lem s.rating fine.stars,
    )
