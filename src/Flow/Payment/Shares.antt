-- ===== src/Flow/Payment/Shares.antt =====
-- How far the shares of a settlement are from the premium.
use ion_insurance_testapp.Prelude.{ℕ, suc, ◌+◌, ◌*◌, ◌/◌, ◌≤◌, ◌≡◌, ap, arith}
use ion_insurance_testapp.Flow.Payment.{SettlementTerms, given_or, splits, share, sum_shares}

abbrev pct_total : SettlementTerms → ℕ
pct_total t = given_or t.seller_pct 97 + (given_or t.buyer_app_pct 2 + given_or t.ion_fee_pct 1)

rounded :
    (x y z t : ℕ)
    → x + (y + z) ≡ t * 100
    → t ≤ suc ((x + 50) / 100 + ((y + 50) / 100 + ((z + 50) / 100 + 0)))
rounded x y z t h = omega arith

rounded_below :
    (x y z t : ℕ)
    → x + (y + z) ≡ t * 100
    → (x + 50) / 100 + ((y + 50) / 100 + ((z + 50) / 100 + 0)) ≤ suc t
rounded_below x y z t h = omega arith

products : (t p q r : ℕ) → p + (q + r) ≡ 100 → t * p + (t * q + t * r) ≡ t * 100
products t p q r h = by_factor (ap (λ n. t * n) h)
  where
    by_factor : t * (p + (q + r)) ≡ t * 100 → t * p + (t * q + t * r) ≡ t * 100
    by_factor e = grind arith

-- When the percentages add up to 100, the total shown below the shares is at most one rupiah away
-- from the premium.
pub sum_shares_near :
    (total : ℕ) (t : SettlementTerms)
    → pct_total t ≡ 100
    → (total ≤ suc (sum_shares total (splits t))) × (sum_shares total (splits t) ≤ suc total)
unfolding sum_shares share
sum_shares_near total t h =
    let p = given_or t.seller_pct 97 in
    let q = given_or t.buyer_app_pct 2 in
    let r = given_or t.ion_fee_pct 1 in
    let all = products total p q r h in
    (
      rounded (total * p) (total * q) (total * r) total all,
      rounded_below (total * p) (total * q) (total * r) total all,
    )
