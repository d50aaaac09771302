-- ===== src/Insurer/Rows.antt =====
-- The rows of ClaimsPage.jsx and MessagesPage.jsx.
use ion_insurance_testapp.Prelude.{Bool, Option, none, some, if◌then◌else◌}
use ion_insurance_testapp.Js.{Value, str, get, truthy, ◌or◌}

pub record ClaimRow : Type 0 where
  pub id : Value
  pub policy_id : Value
  pub claim_type : Value
  pub status : Value
  pub amount : Value
  pub submitted_at : Option Value

unfoldable pub claim_row : Value → ClaimRow
claim_row c =
    let submitted = get c "submitted_at" or get c "created_at" in
    record {
      id = get c "id" or get c "claim_id" or str "—";
      policy_id = get c "policy_id" or get c "policyId" or str "—";
      claim_type = get c "claim_type" or get c "type" or str "—";
      status = get c "status";
      amount = get c "amount" or get c "claim_amount";
      submitted_at = if truthy submitted then some submitted else none;
    }

pub record MessageRow : Type 0 where
  pub sender : Value
  pub subject : Value
  pub message_type : Value
  pub received_at : Value
  -- where it is open
  pub body : Option Value

unfoldable pub message_row : (expanded : Bool) → Value → MessageRow
message_row expanded m = record {
  sender = get m "from" or get m "sender" or str "—";
  subject = get m "subject" or str "—";
  message_type = get m "type" or get m "message_type" or str "—";
  received_at = get m "received_at" or get m "created_at";
  body =
      if expanded
      then some (get m "body" or get m "content" or get m "message" or str "(no content)")
      else none;
}
