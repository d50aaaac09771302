-- ===== src/Insurer/Ratings.antt =====
-- RatingsPage.jsx.
use ion_insurance_testapp.Prelude.{
  ℕ, ◌+◌, Bool, List, [], ◌∷◌, Option, none, some, if◌then◌else◌, ◌>>=◌, length, keep, leb, ltb,
  ◌==◌, any,
}
use ion_insurance_testapp.Js.{Value, get, is_nullish, truthy}
use ion_insurance_testapp.Insurer.{items_of}

-- The number of ratings with a score of some stars; the bar's width is in proportion to `max`.
pub record StarCount : Type 0 where
  pub star : ℕ
  pub count : ℕ
  pub max : ℕ

pub record Ratings : Type 0 where
  pub total : ℕ
  pub rated_count : ℕ
  -- the sum and the count that the average is the quotient of
  pub avg_score : Option (ℕ × ℕ)
  pub with_comments : ℕ
  pub distribution : List StarCount

abbrev pub all_stars : List ℕ
all_stars = 5 ∷ 4 ∷ 3 ∷ 2 ∷ 1 ∷ []

-- `number v` is `Number(v)`, where that is a whole number, or else 0: scores are whole
-- and not negative.
module _ (number : Value → ℕ) where
  abbrev pub score : Value → ℕ
  score r = number (get r "score")

  abbrev pub count_star : ℕ → List Value → ℕ
  count_star star rs = length (keep (λ r. score r == star) rs)

  abbrev pub max_star : List ℕ → List Value → ℕ
  max_star [] rs = 1
  max_star (s ∷ ss) rs =
      let rest = max_star ss rs in if ltb rest (count_star s rs) then count_star s rs else rest

  abbrev pub star_counts : (max : ℕ) → List ℕ → List Value → List StarCount
  star_counts max [] rs = []
  star_counts max (s ∷ ss) rs =
      record { star = s; count = count_star s rs; max = max } ∷ star_counts max ss rs

  unfoldable pub score_distribution : List Value → List StarCount
  score_distribution rs = star_counts (max_star all_stars rs) all_stars rs

  -- `ratings.reduce((sum, r) => sum + (Number(r.score) || 0), 0)`
  abbrev pub sum_scores : List Value → ℕ
  sum_scores [] = 0
  sum_scores (r ∷ rs) = score r + sum_scores rs

  abbrev pub rated : List Value → ℕ
  rated rs = length (keep (λ r. ltb 0 (score r)) rs)

  unfoldable pub avg_score : List Value → Option (ℕ × ℕ)
  avg_score rs = if ltb 0 (rated rs) then some (sum_scores rs, rated rs) else none

  -- Reading a field of a nullish rating throws.
  unfoldable pub ratings : (content : Value) → Option Ratings
  unfolding avg_score score_distribution
  ratings content = items_of content >>= λ rs.
      if any is_nullish rs
      then none
      else some (record {
        total = length rs;
        rated_count = rated rs;
        avg_score = avg_score rs;
        with_comments = length (keep (λ r. truthy (get r "feedback")) rs);
        distribution = score_distribution rs;
      })

  -- The stars of a row, filled up to the score.
  abbrev filled : (score : ℕ) → List ℕ → List Bool
  filled n [] = []
  filled n (s ∷ ss) = leb s n ∷ filled n ss

  unfoldable pub star_display : Value → List Bool
  star_display r = filled (score r) (1 ∷ 2 ∷ 3 ∷ 4 ∷ 5 ∷ [])
