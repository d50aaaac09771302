-- ===== src/Flow/Views.antt =====
-- PolicyFlowPage.jsx: what its steps show of their state. Styles are left out, and of a conditional
-- style the condition is kept where it tells something.
pub mod Stars
use ion_insurance_testapp.Prelude.{
  ℕ, zero, suc, ◌+◌, String, Bool, true, false, not, ◌||◌, List, [], ◌∷◌, map, Option, none, some,
  if◌then◌else◌, ltb, leb, ◌==◌, get_elem?,
}
use ion_insurance_testapp.Js.{
  Value, str, get, ◌or◌, truthy, is_text, is_empty, trim, concat, to_text,
}
use ion_insurance_testapp.Flow.Payment.{PaymentStep, received, funds_held, checkout_url}
use ion_insurance_testapp.Flow.Policy.{PolicyStep, SeamStage, settled, policy_view}

-- A step of StepIndicator: its number, or a tick where it is done, and whether the bar to the next
-- one is coloured, if there is one.
pub record StepMark : Type 0 where
  pub label : String
  pub reached : Bool
  pub current : Bool
  pub number : Option ℕ
  pub bar : Option Bool

abbrev marks : ℕ → ℕ → List String → List StepMark
marks current i [] = []
marks current i (l ∷ ls) =
    record {
      label = l;
      reached = leb (i + 1) current;
      current = i + 1 == current;
      number = if ltb (i + 1) current then none else some (i + 1);
      bar = elim ls [ [] ↦ none | _ ∷ _ ↦ some (ltb (i + 1) current) ];
    }
    ∷ marks current (i + 1) ls

unfoldable pub step_indicator : (current : ℕ) → List StepMark
step_indicator current = marks current 0 ("Vehicle" ∷ "Quote" ∷ "KYC" ∷ "Payment" ∷ "Policy" ∷ [])

-- The box above the form for the vehicle.
pub record ProductBox : Type 0 where
  pub insurer : Value
  pub product_type : Value
  pub vehicle_type : Value

unfoldable pub product_box : Value → Option ProductBox
product_box product =
    if truthy product
    then some (record {
      insurer = get product "insurer_name" or get product "insurerName" or str "Selected Insurer";
      product_type = get product "product_type" or get product "productType";
      vehicle_type = get product "vehicle_type" or get product "vehicleType";
    })
    else none

-- The panel of the SEAM stage.
pub record SeamPanel : Type 0 where
  pub stage : Value
  pub policy_status : Value
  pub held : Bool
  pub invoice : Value

unfoldable pub seam_panel : PaymentStep → Option SeamPanel
unfolding funds_held
seam_panel s =
    if truthy s.seam_status
    then some (record {
      stage = get s.seam_status "seam_stage";
      policy_status = get s.seam_status "policy_status";
      held = funds_held s;
      invoice = get s.seam_status "doku_invoice_number" or str "—";
    })
    else none

-- The button that confirms the payment, and whether it is disabled; `paid` is its usual label.
unfoldable pub paid_button : (paid : String) → PaymentStep → String × Bool
unfolding funds_held
paid_button paid s = (
  if funds_held s then "Confirm Payment (SEAM Stage 3)" else paid,
  s.submission.loading || not (received s),
)

abbrev shown_if : Value → Option Value
shown_if v = if truthy v then some v else none

-- The rows of the policy and the link to its certificate.
pub record PolicyCard : Type 0 where
  pub number : Value
  pub coverage_start : Option Value
  pub coverage_end : Option Value
  pub certificate : Option Value
  pub is_settled : Bool

unfoldable pub policy_card : Value → PolicyStep → PolicyCard
unfolding policy_view
policy_card confirm_data s =
    let v = policy_view confirm_data in
    record {
      number = v.policy_number;
      coverage_start = shown_if v.coverage_start;
      coverage_end = shown_if v.coverage_end;
      certificate = shown_if v.certificate_url;
      is_settled = elim s.seam_stage [ settled ↦ true | _ ↦ false ];
    }

abbrev pub rating_labels : List String
rating_labels = "" ∷ "Poor" ∷ "Fair" ∷ "Good" ∷ "Very Good" ∷ "Excellent" ∷ []

-- `hoverRating || rating`
abbrev pub shown_rating : PolicyStep → ℕ
shown_rating s = if s.hover_rating == 0 then s.rating else s.hover_rating

-- The five stars, filled or not, the label below them where there is one, the text of the feedback
-- and the button with its label and whether it is disabled. The label is none where the array has
-- none.
pub record RatingForm : Type 0 where
  pub stars : List Bool
  pub label : Option (Option String)
  pub feedback : String
  pub error : Option String
  pub button : String × Bool

abbrev error_shown : String → Option String
error_shown e = if is_empty e then none else some e

unfoldable pub rating_section : PolicyStep → Option RatingForm
rating_section s =
    if s.rating_form.submitted
    then none
    else some (record {
      stars = map (λ star. leb star (shown_rating s)) (1 ∷ 2 ∷ 3 ∷ 4 ∷ 5 ∷ []);
      label = if ltb 0 s.rating then some (get_elem? rating_labels s.rating) else none;
      feedback = s.feedback;
      error = error_shown s.rating_form.error;
      button = (
        if s.rating_form.loading then "Submitting..." else "Submit Rating",
        s.rating == 0 || s.rating_form.loading,
      );
    })

-- The section for support: closed, thanking, or the form.
pub data SupportSection : Type 0 where
  closed : SupportSection
  created : SupportSection
  form :
      (description : String) → (error : Option String) → (button : String × Bool) → SupportSection

unfoldable pub support_section : PolicyStep → SupportSection
support_section s =
    if not s.show_support
    then closed
    else if s.support_form.submitted
    then created
    else form s.support_desc (error_shown s.support_form.error) (
      if s.support_form.loading then "Submitting..." else "Submit Support Request",
      is_empty (trim s.support_desc) || s.support_form.loading,
    )
