-- ===== src/Insurer/Detail.antt =====
-- PolicyDetailPage.jsx.
use ion_insurance_testapp.Prelude.{
  ℕ, Bool, not, ◌&&◌, ◌||◌, String, List, [], ◌∷◌, Option, none, some, if◌then◌else◌,
}
use ion_insurance_testapp.Js.{Value, str, get, truthy, is_text, ◌or◌}
use ion_insurance_testapp.Insurer.{Loaded}

-- A stage of the timeline, done or not.
pub record Stage : Type 0 where
  pub key : String
  pub label : String
  pub is_done : Bool

unfoldable pub seam_timeline : (policy : Value) → List Stage
seam_timeline p =
    record {
      key = "va_created";
      label = "VA Created";
      is_done = truthy (get p "doku_va_number") || truthy (get p "doku_invoice_number");
    }
    ∷ record {
      key = "payment_held";
      label = "Payment Held";
      is_done = truthy (get p "payment_received");
    }
    ∷ record {
      key = "policy_issued";
      label = "Policy Issued";
      is_done = is_text (get p "status") "ACTIVE";
    }
    ∷ record {
      key = "reconciling";
      label = "Reconciling";
      is_done = is_text (get p "reconcile_status") "SETTLED";
    }
    ∷ record {
      key = "settled";
      label = "Settled";
      is_done = is_text (get p "reconcile_status") "SETTLED";
    }
    ∷ []

-- The parts of the settlement, in percent.
abbrev pub settlement_split : List (String × ℕ)
settlement_split = ("BPP (Insurer)", 97) ∷ ("BAP (Buyer App)", 2) ∷ ("ION (Network Fee)", 1) ∷ []

pub record Detail : Type 0 where
  pub heading : Value
  pub policy_number : Value
  pub status : Value
  pub policyholder_nik : Value
  pub vehicle_vin : Value
  pub idv : Value
  -- the two ends, where both are known
  pub coverage_period : Option (Value × Value)
  pub transaction_id : Value
  pub created_at : Option Value
  pub timeline : List Stage
  pub is_paid : Bool
  pub invoice_number : Value
  pub virtual_account : Value
  pub settlement_status : Value

unfoldable pub detail : (id : String) (policy : Value) → Detail
unfolding seam_timeline
detail id p = record {
  heading = get p "policy_number" or str id;
  policy_number = get p "policy_number";
  status = get p "status";
  policyholder_nik = get p "policyholder_nik" or get p "nik";
  vehicle_vin = get p "vehicle_vin" or get p "vin";
  idv = get p "idv";
  coverage_period =
      if truthy (get p "coverage_start") && truthy (get p "coverage_end")
      then some (get p "coverage_start", get p "coverage_end")
      else none;
  transaction_id = get p "transaction_id" or get p "txn_id";
  created_at = if truthy (get p "created_at") then some (get p "created_at") else none;
  timeline = seam_timeline p;
  is_paid = truthy (get p "payment_received");
  invoice_number = get p "doku_invoice_number" or str "—";
  virtual_account = get p "doku_va_number" or str "—";
  settlement_status = get p "reconcile_status" or str "PENDING";
}

pub data DetailPage : Type 0 where
  waiting : DetailPage
  -- `t('common.error')`, or that the policy was not found
  not_shown : (error : Bool) → DetailPage
  shown : Detail → DetailPage

unfoldable pub detail_page : (id : String) → Loaded → DetailPage
unfolding detail
detail_page id p =
    if p.loading
    then waiting
    else if p.error || not (truthy p.content)
    then not_shown p.error
    else shown (detail id p.content)
