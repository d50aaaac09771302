-- ===== src/History/Tabs.antt =====
-- The two tabs of PolicyHistoryPage.jsx and the panels that slide in.
use ion_insurance_testapp.Prelude.{
  ℕ, suc, Bool, true, false, String, List, [], ◌∷◌, Option, none, some, map, any, if◌then◌else◌,
}
use ion_insurance_testapp.Js.{Value, num, str, arr, nil, get, is_nullish, is_text, truthy, ◌or◌}
use ion_insurance_testapp.Cards.{to_list}
use ion_insurance_testapp.Insurer.{Outcome, answered, failed, list_among}
use ion_insurance_testapp.Flow.Payment.{share}

-- OrdersTab or PoliciesTab, with the key of its list in an answer that is an object.
pub record HistoryTab : Type 0 where
  pub items : Value
  pub loading : Bool
  pub selected : Option Value

unfoldable pub mount_tab : HistoryTab
mount_tab = record { items = arr nil; loading = true; selected = none }

-- A failure, and an answer whose fields cannot be read, only end the loading.
unfoldable pub load_tab : (key : String) → Outcome → HistoryTab → HistoryTab
load_tab key failed t = record t { loading = false }
load_tab key (answered v) t =
    if is_nullish v
    then record t { loading = false }
    else record t { items = list_among (key ∷ []) v; loading = false }

unfoldable pub select_item : Value → HistoryTab → HistoryTab
select_item v t = record t { selected = some v }

unfoldable pub close_panel : HistoryTab → HistoryTab
close_panel t = record t { selected = none }

-- `SEAM_META[stage] || SEAM_META.va_created`, its label.
unfoldable pub seam_label : Value → String
seam_label v =
    if is_text v "payment_held"
    then "Payment Held"
    else if is_text v "policy_issued"
    then "Policy Issued"
    else if is_text v "reconciling"
    then "Reconciling"
    else if is_text v "settled"
    then "Settled"
    else "VA Created"

-- `v > 0 && v` of an amount, which is a number.
abbrev pub positive : Value → Option ℕ
positive (num (ℕ.suc n)) = some (suc n)
positive _ = none

abbrev shown : Value → Option Value
shown v = if truthy v then some v else none

pub record OrderRow : Type 0 where
  pub transaction_id : Value
  pub label : String
  pub amount : Option ℕ
  pub created_at : Value
  pub va_number : Option Value

unfoldable pub order_row : Value → OrderRow
unfolding seam_label
order_row o = record {
  transaction_id = get o "transaction_id";
  label = seam_label (get o "seam_stage");
  amount = positive (get o "payment_amount");
  created_at = get o "created_at";
  va_number = shown (get o "doku_va_number");
}

-- A part of the settlement, in percent, with its amount.
pub record Part : Type 0 where
  pub label : String
  pub pct : ℕ
  pub amount : Option ℕ

abbrev part : Option ℕ → String → ℕ → Part
part none label pct = record { label = label; pct = pct; amount = none }
part (some n) label pct = record { label = label; pct = pct; amount = some (share n pct) }

pub record OrderPanel : Type 0 where
  pub transaction_id : Value
  pub label : String
  -- a dash where it is missing or 0
  pub amount : Option Value
  pub va_number : Value
  pub invoice_number : Value
  pub distribution : List Part
  pub created_at : Value
  pub last_updated : Value
  pub latest_action : Value

unfoldable pub order_panel : Value → OrderPanel
unfolding seam_label
order_panel o =
    let amount = positive (get o "payment_amount") in
    record {
      transaction_id = get o "transaction_id";
      label = seam_label (get o "seam_stage");
      amount = shown (get o "payment_amount");
      va_number = get o "doku_va_number" or str "—";
      invoice_number = get o "doku_invoice_number" or str "—";
      distribution =
          part amount "BPP (Insurer)" 97
          ∷ part amount "BAP (Buyer App)" 2
          ∷ part amount "ION (Network Fee)" 1
          ∷ [];
      created_at = get o "created_at";
      last_updated = get o "last_updated";
      latest_action = get o "latest_on_action" or get o "action" or str "—";
    }

pub record PolicyEntry : Type 0 where
  pub policy_number : Value
  pub status : Value
  pub transaction_id : Value
  pub annual_premium : Option ℕ
  pub idv : Option ℕ
  pub certificate_url : Option Value

unfoldable pub policy_entry : Value → PolicyEntry
policy_entry p = record {
  policy_number = get p "policy_number" or str "Policy";
  status = get p "status" or str "ACTIVE";
  transaction_id = get p "transaction_id";
  annual_premium = positive (get p "annual_premium");
  idv = positive (get p "idv");
  certificate_url = shown (get p "certificate_url");
}

pub record PolicyPanel : Type 0 where
  pub policy_number : Value
  pub status : Value
  pub annual_premium : Option Value
  pub idv : Option Value
  pub coverage_start : Value
  pub coverage_end : Value
  pub transaction_id : Value
  pub certificate_url : Option Value
  pub received_at : Value

unfoldable pub policy_panel : Value → PolicyPanel
policy_panel p = record {
  policy_number = get p "policy_number" or str "—";
  status = get p "status" or str "ACTIVE";
  annual_premium = shown (get p "annual_premium");
  idv = shown (get p "idv");
  coverage_start = get p "coverage_start";
  coverage_end = get p "coverage_end";
  transaction_id = get p "transaction_id";
  certificate_url = shown (get p "certificate_url");
  received_at = get p "received_at";
}

-- What a tab shows: that it loads, that there is nothing, or its rows and its panel; `none` where
-- rendering throws.
pub data TabView {ℓ κ} (R : Type ℓ) (P : Type κ) : Type (ℓ ⊔ κ) where
  waiting : TabView R P
  nothing : TabView R P
  rows : List R → Option P → TabView R P

abbrev panel {ℓ} : {P : Type ℓ} → (Value → P) → Option Value → Option P
panel f none = none
panel f (some v) = if truthy v then some (f v) else none

unfoldable pub tab_view {ℓ κ} :
    {R : Type ℓ} {P : Type κ} → (Value → R) → (Value → P) → HistoryTab → Option (TabView R P)
tab_view {R = R} {P = P} row f t = if t.loading then some waiting else listed t.items
  where
    listed : Value → Option (TabView R P)
    listed (arr nil) = some nothing
    listed (arr vs) =
        if any is_nullish (to_list vs)
        then none
        else some (rows (map row (to_list vs)) (panel f t.selected))
    listed _ = none
