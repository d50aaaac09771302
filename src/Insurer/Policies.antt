-- ===== src/Insurer/Policies.antt =====
-- PoliciesPage.jsx.
use ion_insurance_testapp.Prelude.{
  ℕ, Bool, true, false, ◌||◌, String, List, [], ◌∷◌, Option, none, some, if◌then◌else◌, ◌>>=◌, map,
}
use ion_insurance_testapp.Js.{Value, str, get, is_nullish, truthy, is_text, codes, ◌or◌}
use ion_insurance_testapp.Prelude.{◌==◌, ◌&&◌}
use ion_insurance_testapp.Insurer.{items_of}

abbrev pub starts_with : List ℕ → List ℕ → Bool
starts_with [] cs = true
starts_with (p ∷ ps) [] = false
starts_with (p ∷ ps) (c ∷ cs) = p == c && starts_with ps cs

-- `s.includes(q)`
abbrev pub includes : (q s : List ℕ) → Bool
includes q [] = starts_with q []
includes q (c ∷ cs) = starts_with q (c ∷ cs) || includes q cs

pub record PolicyRow : Type 0 where
  pub policy_number : Value
  pub status : Value
  pub nik : Value
  pub vin : Value
  pub idv : Value
  pub is_paid : Bool
  pub settlement : Value
  pub is_settled : Bool
  pub created_at : Value
  -- where a click leads to
  pub link : Value

unfoldable pub policy_row : Value → PolicyRow
policy_row p = record {
  policy_number = get p "policy_number" or str "—";
  status = get p "status";
  nik = get p "policyholder_nik" or get p "nik" or str "—";
  vin = get p "vehicle_vin" or get p "vin" or str "—";
  idv = get p "idv";
  is_paid = truthy (get p "payment_received");
  settlement = get p "reconcile_status" or str "PENDING";
  is_settled = is_text (get p "reconcile_status" or str "PENDING") "SETTLED";
  created_at = get p "created_at";
  link = get p "id" or get p "policy_id" or get p "policy_number";
}

-- `toLowerCase` of the language, whatever its Unicode tables are.
module _ (to_lower_case : String → String) where
  -- `(v || '').toLowerCase().includes(q)`, which throws on what is no text.
  abbrev matches : (q : List ℕ) → Value → Option Bool
  matches q (str s) = some (includes q (codes (to_lower_case s)))
  matches q v = none

  -- `||` does not come to what follows a match.
  abbrev or_else : Option Bool → Option Bool → Option Bool
  or_else none b = none
  or_else (some true) b = some true
  or_else (some false) b = b

  unfoldable pub is_found : (search : String) → Value → Option Bool
  is_found search p =
      if is_nullish p
      then none
      else or_else (matches (codes (to_lower_case search)) (get p "policy_number" or str "")) (
          or_else
            (matches (codes (to_lower_case search))
              (get p "policyholder_nik" or get p "nik" or str ""))
            (matches (codes (to_lower_case search)) (get p "vehicle_vin" or get p "vin" or str "")))

  abbrev pub filtered : (search : String) → List Value → Option (List Value)
  filtered search [] = some []
  filtered search (p ∷ ps) =
      let rest = filtered search ps in
      is_found search p >>= λ b. rest >>= λ qs. some (if b then p ∷ qs else qs)

  unfoldable pub policy_rows : (search : String) (content : Value) → Option (List PolicyRow)
  unfolding policy_row
  policy_rows search content =
      items_of content >>= λ ps. filtered search ps >>= λ qs. some (map policy_row qs)
