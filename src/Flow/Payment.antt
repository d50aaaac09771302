-- ===== src/Flow/Payment.antt =====
-- PolicyFlowPage.jsx, PaymentStep: the amounts to pay, and the polling for the payment.
pub mod Shares
pub mod Polling
use ion_insurance_testapp.Prelude.{
  ℕ, zero, suc, ◌+◌, ◌*◌, ◌-◌, ◌/◌, String, Bool, true, false, not, ◌&&◌, List, [], ◌∷◌, Option,
  none, some, ◌==◌, if◌then◌else◌,
}
use ion_insurance_testapp.Js.{
  concat, Value, undefined, null, num, str, ◌or◌, get, is_text, empty_object, truthy, to_text,
}
use ion_insurance_testapp.Flow.Forms.{Submission, no_submission}
use ion_insurance_testapp.Flow.Quote.{commitment}

abbrev pub consideration_attrs : Value → Value
consideration_attrs init_data = get (commitment init_data) "considerationAttributes" or empty_object

unfoldable pub total_premium : (init_data annual_premium : Value) → Value
total_premium init_data annual_premium =
    get (consideration_attrs init_data) "totalAmountIDR" or annual_premium or num 0

unfoldable pub checkout_url : Value → Value
checkout_url init_data = get (consideration_attrs init_data) "checkoutUrl" or str ""

-- The page's own `annualPremium`, from the quote.
unfoldable pub quoted_premium : Value → Value
quoted_premium quote_data =
    get (get (get (commitment quote_data) "offer") "offerAttributes") "annualPremiumIDR" or num 0

-- Percentages of the parties, whole, each absent or given; absent terms are the defaults.
pub record SettlementTerms : Type 0 where
  pub seller_pct : Option ℕ
  pub buyer_app_pct : Option ℕ
  pub ion_fee_pct : Option ℕ

abbrev pub given_or : Option ℕ → ℕ → ℕ
given_or none d = d
given_or (some n) d = n

pub record Split : Type 0 where
  pub label : String
  pub pct : ℕ

abbrev pub splits : SettlementTerms → List Split
splits t =
    record { label = "BPP (Insurer)"; pct = given_or t.seller_pct 97 }
    ∷ record { label = "BAP (Buyer App)"; pct = given_or t.buyer_app_pct 2 }
    ∷ record { label = "ION (Network Fee)"; pct = given_or t.ion_fee_pct 1 }
    ∷ []

-- `Math.round(totalPremium * pct / 100)` for a premium of whole rupiah: halves are rounded up.
unfoldable pub share : (total pct : ℕ) → ℕ
share total pct = (total * pct + 50) / 100

-- The total below the shares: `splits.reduce(...)`.
unfoldable pub sum_shares : ℕ → List Split → ℕ
sum_shares total [] = 0
sum_shares total (s ∷ ss) = share total s.pct + sum_shares total ss

-- `polls` counts the requests for the status that have no answer yet: an answer is used even when
-- the timer that asked for it has been cleared.
pub record PaymentStep : Type 0 where
  pub seam_status : Value
  pub polls : ℕ
  pub submission : Submission

-- The step as React mounts it; coming back from the checkout it asks for the status at once.
abbrev pub mount_payment : (txn : Value) (payment_done : Bool) → PaymentStep
mount_payment txn payment_done = record {
  seam_status = null;
  polls = if truthy txn && payment_done then 1 else 0;
  submission = no_submission;
}

abbrev pub received : PaymentStep → Bool
received s = truthy (get s.seam_status "payment_received")

-- The timer runs until the payment has been received.
unfoldable pub payment_tick : Value → PaymentStep → PaymentStep
payment_tick txn s = if truthy txn && not (received s) then record s { polls = suc s.polls } else s

unfoldable pub payment_answer : Value → PaymentStep → PaymentStep
payment_answer status s =
    if s.polls == 0 then s else record s { seam_status = status; polls = s.polls - 1 }

-- A request for the status that fails is ignored.
unfoldable pub payment_lost : PaymentStep → PaymentStep
payment_lost s = record s { polls = s.polls - 1 }

unfoldable pub funds_held : PaymentStep → Bool
funds_held s = received s && not (is_text (get s.seam_status "policy_status") "ACTIVE")

pub record ConfirmBody : Type 0 where
  pub transaction_id : Value
  pub payment_method : String
  pub payment_ref : String
  pub amount : Value

unfoldable pub confirm_body : (txn init_data annual_premium : Value) → ConfirmBody
unfolding total_premium
confirm_body txn init_data annual_premium = record {
  transaction_id = txn;
  payment_method = "DOKU_CHECKOUT";
  payment_ref = concat ("CHECKOUT-" ∷ to_text txn ∷ []);
  amount = total_premium init_data annual_premium;
}
