-- ===== src/History.antt =====
-- PolicyHistoryPage.jsx and SeamStageBar.jsx of the buyer's app. Here are the bars and sums that are
-- computed from orders and policies. Times are milliseconds since 1970, and amounts whole rupiah.
pub mod Page
pub mod Drawer
pub mod Tabs
mod Tests
pub mod Coverage
pub mod Bar
use ion_insurance_testapp.Prelude.{
  ℕ, zero, suc, ◌+◌, ◌*◌, ◌-◌, ◌/◌, String, Bool, true, false, not, ◌&&◌, List, [], ◌∷◌, Option,
  none, some, ltb, leb, ◌==◌, str_eq, if◌then◌else◌, keep, length,
}

-- What the pill says of a policy.
pub data Period : Type 0 where
  days_left : ℕ → Period
  expired : Period
  not_started : Period

pub record Pill : Type 0 where
  pub pct : ℕ
  pub period : Period
  pub is_active : Bool

-- `Math.max(0, Math.min(now - s, total))`, for `s` before `e`
abbrev pub elapsed : (now s e : ℕ) → ℕ
elapsed now s e = if leb (now - s) (e - s) then now - s else e - s

-- `Math.round((part / total) * 100)`: halves are rounded up.
unfoldable pub percent : (part total : ℕ) → ℕ
percent part total = (part * 200 + total) / (total * 2)

-- `CoveragePill` for two dates that are given and valid.
unfoldable pub coverage_pill : (now s e : ℕ) → Pill
coverage_pill now s e =
    let active = leb s now && leb now e in
    record {
      pct = if ltb s e then percent (elapsed now s e) (e - s) else 0;
      period =
          if active
          then days_left ((e - now + 43200000) / 86400000)
          else if ltb e now
          then expired
          else not_started;
      is_active = active;
    }

-- What the two summaries read of an order and of a policy.
pub record Order : Type 0 where
  pub seam_stage : String
  pub payment_amount : ℕ

pub record Policy : Type 0 where
  pub status : String
  pub annual_premium : ℕ
  pub idv : ℕ

pub record OrderSummary : Type 0 where
  pub total : ℕ
  pub settled : ℕ
  pub in_progress : ℕ
  pub total_paid : ℕ

abbrev pub sum_of {ℓ} : {A : Type ℓ} → (A → ℕ) → List A → ℕ
sum_of f [] = 0
sum_of f (x ∷ xs) = f x + sum_of f xs

unfoldable pub order_summary : List Order → OrderSummary
order_summary orders = record {
  total = length orders;
  settled = length (keep (λ (o : Order). str_eq o.seam_stage "settled") orders);
  in_progress = length (keep (λ (o : Order). not (str_eq o.seam_stage "settled")) orders);
  total_paid = sum_of (λ (o : Order). o.payment_amount) orders;
}

pub record PolicySummary : Type 0 where
  pub total : ℕ
  pub active : ℕ
  pub total_premium : ℕ
  pub total_idv : ℕ

unfoldable pub policy_summary : List Policy → PolicySummary
policy_summary policies = record {
  total = length policies;
  active = length (keep (λ (p : Policy). str_eq p.status "ACTIVE") policies);
  total_premium = sum_of (λ (p : Policy). p.annual_premium) policies;
  total_idv = sum_of (λ (p : Policy). p.idv) policies;
}

-- The keys of `STAGES`.
abbrev pub stages : List String
stages = "va_created" ∷ "payment_held" ∷ "policy_issued" ∷ "reconciling" ∷ "settled" ∷ []

-- `findIndex`, from the index `i` on.
abbrev pub find_index : String → ℕ → List String → Option ℕ
find_index key i [] = none
find_index key i (k ∷ ks) = if str_eq k key then some i else find_index key (suc i) ks

pub data Tone : Type 0 where
  current : Tone
  passed : Tone
  ahead : Tone

pub record Segment : Type 0 where
  pub key : String
  pub is_filled : Bool
  pub tone : Tone

-- `i <= activeIdx` and the colour of the label; without a known stage `activeIdx` is -1.
abbrev segment : Option ℕ → ℕ → String → Segment
segment none i key = record { key = key; is_filled = false; tone = ahead }
segment (some a) i key = record {
  key = key;
  is_filled = leb i a;
  tone = if i == a then current else if ltb i a then passed else ahead;
}

abbrev segments : Option ℕ → ℕ → List String → List Segment
segments a i [] = []
segments a i (k ∷ ks) = segment a i k ∷ segments a (suc i) ks

unfoldable pub seam_stage_bar : String → List Segment
seam_stage_bar stage = segments (find_index stage 0 stages) 0 stages
