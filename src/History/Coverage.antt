-- ===== src/History/Coverage.antt =====
-- How the pill of a policy moves with the time, and what the summary of the orders counts.
use native.Mathlib.Nat.{div-lt_iff_lt-mul, le-div_iff_mul-le, div-mul-le_self}
use ion_insurance_testapp.Prelude.{
  ℕ, ◌+◌, ◌*◌, ◌-◌, ◌/◌, ◌≤◌, ◌<◌, Bool, not, ◌≡◌, refl, List, [], ◌∷◌, arith, keep, length, str_eq,
}
use ion_insurance_testapp.History.{elapsed, percent, coverage_pill, Order, order_summary}

percent_bound : (part total : ℕ) → 0 < total → part ≤ total → percent part total ≤ 100
unfolding percent
percent_bound part total h p = omega (
  arith,
  (div-lt_iff_lt-mul {k = total * 2} {x = part * 200 + total} {y = 101} (omega arith)).1
      (omega arith),
)

percent_mono : (a b total : ℕ) → 0 < total → a ≤ b → percent a total ≤ percent b total
unfolding percent
percent_mono a b total h p =
    (le-div_iff_mul-le {k = total * 2} {x = (a * 200 + total) / (total * 2)} {y = b * 200 + total}
        (omega arith)).1
      (omega (arith, div-mul-le_self (a * 200 + total) (total * 2)))

percent_zero : (total : ℕ) → 0 < total → percent 0 total ≡ 0
unfolding percent
percent_zero total h = omega (
  arith,
  (div-lt_iff_lt-mul {k = total * 2} {x = 0 * 200 + total} {y = 1} (omega arith)).1 (omega arith),
)

percent_full : (total : ℕ) → 0 < total → percent total total ≡ 100
unfolding percent
percent_full total h = omega (
  arith,
  percent_bound total total h (omega arith),
  (le-div_iff_mul-le {k = total * 2} {x = 100} {y = total * 200 + total} (omega arith)).1
      (omega arith),
)

elapsed_le : (s e now : ℕ) → elapsed now s e ≤ e - s
elapsed_le s e now = ground arith

elapsed_mono : (s e now later : ℕ) → now ≤ later → elapsed now s e ≤ elapsed later s e
elapsed_mono s e now later t = ground arith

-- For a policy that ends after it starts, the bar is empty until the start, full from the end on,
-- never over 100 percent, and never goes back as the time passes.
pub coverage_pill_bar :
    (s e now later : ℕ)
    → s < e
    → now ≤ later
    → ((now ≤ s → (coverage_pill now s e).pct ≡ 0) × (e ≤ now → (coverage_pill now s e).pct ≡ 100))
      × ((coverage_pill now s e).pct ≤ (coverage_pill later s e).pct)
      × ((coverage_pill now s e).pct ≤ 100)
unfolding coverage_pill
coverage_pill_bar s e now later h t =
    let room : 0 < e - s = omega arith in
    ground (
      arith,
      percent_zero (e - s) room,
      percent_full (e - s) room,
      percent_mono (elapsed now s e) (elapsed later s e) (e - s) room
          (elapsed_mono s e now later t),
      percent_bound (elapsed now s e) (e - s) room (elapsed_le s e now),
    )

count_split :
    {A : Type 0}
    → (p : A → Bool) (xs : List A)
    → length (keep p xs) + length (keep (λ x. not (p x)) xs) ≡ length xs
count_split p [] = refl
count_split p (x ∷ xs) = ground (arith, count_split p xs)

-- The orders settled and those in progress are together all orders.
pub order_summary_total :
    (orders : List Order)
    → (order_summary orders).settled + (order_summary orders).in_progress
      ≡ (order_summary orders).total
unfolding order_summary
order_summary_total orders = count_split (λ (o : Order). str_eq o.seam_stage "settled") orders
