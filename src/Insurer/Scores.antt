-- ===== src/Insurer/Scores.antt =====
-- The average and the distribution of the ratings page.
use ion_insurance_testapp.Prelude.{
  ℕ, ◌+◌, ◌*◌, ◌≤◌, List, [], ◌∷◌, none, some, ◌≡◌, refl, All, arith, ltb, Bool-cases, inl, inr,
  ◌⊎◌,
}
use ion_insurance_testapp.Js.{Value}
use ion_insurance_testapp.Insurer.Ratings.{
  StarCount, score, star_counts, score_distribution, sum_scores, rated, avg_score, all_stars,
  max_star,
}

module _ (number : Value → ℕ) where
  abbrev pub sum_stars : List StarCount → ℕ
  sum_stars [] = 0
  sum_stars (c ∷ cs) = c.star * c.count + sum_stars cs

  abbrev pub sum_star_counts : List StarCount → ℕ
  sum_star_counts [] = 0
  sum_star_counts (c ∷ cs) = c.count + sum_star_counts cs

  -- At most five stars.
  abbrev pub IsScored : Value → Type 0
  IsScored r = score number r ≤ 5

  sum_star_counts-rated :
      (max : ℕ) (rs : List Value)
      → All IsScored rs
      → sum_star_counts (star_counts number max all_stars rs) ≡ rated number rs
  sum_star_counts-rated max [] h = refl
  sum_star_counts-rated max (r ∷ rs) h = ground (arith, h.0, sum_star_counts-rated max rs h.1)

  sum_stars-sum_scores :
      (max : ℕ) (rs : List Value)
      → All IsScored rs
      → sum_stars (star_counts number max all_stars rs) ≡ sum_scores number rs
  sum_stars-sum_scores max [] h = refl
  sum_stars-sum_scores max (r ∷ rs) h = ground (arith, h.0, sum_stars-sum_scores max rs h.1)

  rated-sum_scores :
      (rs : List Value)
      → All IsScored rs
      → (rated number rs ≤ sum_scores number rs) × (sum_scores number rs ≤ 5 * rated number rs)
  rated-sum_scores [] h = (omega arith, omega arith)
  rated-sum_scores (r ∷ rs) h =
      let rest = rated-sum_scores rs h.1 in
      (ground (arith, h.0, rest.0), ground (arith, h.0, rest.1))

  -- If no rating has more than five stars, the distribution counts each rating that has a score
  -- once; its stars are together the sum of the scores; and an average is shown exactly when there is
  -- such a rating, and then is from 1 to 5.
  pub score_distribution-avg_score :
      (rs : List Value)
      → All IsScored rs
      → (sum_star_counts (score_distribution number rs) ≡ rated number rs)
        × (sum_stars (score_distribution number rs) ≡ sum_scores number rs)
        × (((avg_score number rs ≡ none) × (rated number rs ≡ 0))
            ⊎ ((sum : ℕ) × (count : ℕ) × (avg_score number rs ≡ some (sum, count))
                × (1 ≤ count)
                × (count ≤ sum)
                × (sum ≤ 5 * count)))
  unfolding score_distribution avg_score
  score_distribution-avg_score rs h =
      let bounds = rated-sum_scores rs h in
      (
        sum_star_counts-rated (max_star number all_stars rs) rs h,
        sum_stars-sum_scores (max_star number all_stars rs) rs h,
        elim (Bool-cases (ltb 0 (rated number rs))) [
          | inl some_rated ↦
              rw some_rated (
                inr (sum_scores number rs, rated number rs, refl, ground arith, bounds.0, bounds.1))
          | inr none_rated ↦ rw none_rated (inl (refl, ground arith))
        ],
      )
