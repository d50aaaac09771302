-- ===== src/History/Drawer.antt =====
-- bap-frontend/src/components/PolicyHistoryDrawer.jsx: the panel with the details of one policy. No
-- page opens it so far.
use ion_insurance_testapp.Prelude.{String, List, [], ◌∷◌, ◌++◌, Option, none, some, if◌then◌else◌}
use ion_insurance_testapp.Js.{Value, num, str, get, truthy, ◌or◌, empty_object}

-- A row with its label, or the key of its translation.
pub record Row : Type 0 where
  pub label : String
  pub value : Value

pub record Section : Type 0 where
  pub title : String
  pub rows : List Row

pub record Drawer : Type 0 where
  pub sections : List Section
  pub certificate : Option Value

-- `DetailRow`: `value || '—'`
abbrev row : String → Value → Row
row label v = record { label = label; value = v or str "—" }

-- `parse v` is the number read from a text or a number and written as an amount, where there is one;
-- `day v` is the text of a date.
module _ (parse : Value → Option String) (day : Value → Value) where
  -- `formatIDR`: an amount of 0 is shown, others that are absent are not.
  unfoldable pub format_idr : Value → Value
  format_idr (num n) = amount (parse (num n))
    where
      amount : Option String → Value
      amount none = str "—"
      amount (some s) = str s
  format_idr v = if truthy v then elim (parse v) [ none ↦ str "—" | some s ↦ str s ] else str "—"

  abbrev date_or_dash : Value → Value
  date_or_dash v = if truthy v then day v else str "—"

  abbrev vehicle_section : Value → List Section
  vehicle_section v =
      if truthy (get v "make" or get v "model" or get v "year" or get v "license_plate")
      then record {
        title = "drawer.vehicle_info";
        rows =
            row "vehicle.make" (get v "make")
            ∷ row "vehicle.model" (get v "model")
            ∷ row "vehicle.year" (get v "year")
            ∷ row "vehicle.plate" (get v "license_plate" or get v "licensePlate")
            ∷ row "vehicle.stnk" (get v "stnk_number" or get v "stnkNumber")
            ∷ [];
      }
        ∷ []
      else []

  abbrev coverage_section : (policy coverage : Value) → Section
  coverage_section p c =
      let start = get c "start" or get c "coverage_start" or get p "coverage_start" in
      let finish = get c "end" or get c "coverage_end" or get p "coverage_end" in
      let kind = get c "type" or get p "coverage_type" or get p "product_type" in
      record {
        title = "drawer.coverage";
        rows =
            row "policy.coverage_start" (date_or_dash start)
            ∷ row "policy.coverage_end" (date_or_dash finish)
            ∷ (if truthy kind then row "Coverage Type" kind ∷ [] else []);
      }

  abbrev insurer_section : (policy insurer : Value) → List Section
  insurer_section p i =
      if truthy (get i "name" or get i "contact" or get p "insurer_name")
      then record {
        title = "drawer.insurer";
        rows =
            row "Insurer" (get i "name" or get p "insurer_name")
            ∷ row "Contact" (get i "contact" or get p "insurer_contact")
            ∷ row "Email" (get i "email" or get p "insurer_email")
            ∷ [];
      }
        ∷ []
      else []

  abbrev policy_section : Value → Section
  policy_section p = record {
    title = "drawer.policy_info";
    rows =
        row "policies.number" (get p "policy_number" or get p "policyNumber" or get p "id")
        ∷ record { label = "policies.status"; value = get p "status" }
        ∷ row "policies.created" (date_or_dash (get p "created_at" or get p "createdAt"))
        ∷ row "policies.idv" (format_idr (get p "idv" or get p "sum_insured"))
        ∷ row "drawer.premium" (format_idr (get p "annual_premium" or get p "premium"))
        ∷ [];
  }

  -- No drawer without a policy.
  unfoldable pub drawer : Value → Option Drawer
  unfolding format_idr
  drawer p =
      if truthy p
      then some (record {
        sections =
            policy_section p ∷ []
            ++ vehicle_section (get p "vehicle" or get p "vehicle_details" or empty_object)
            ++ coverage_section p (get p "coverage" or get p "coverage_details" or empty_object)
              ∷ []
            ++ insurer_section p (get p "insurer" or get p "insurer_details" or empty_object);
        certificate =
            let url = get p "certificate_url" or get p "certificateUrl" in
            if truthy url then some url else none;
      })
      else none
