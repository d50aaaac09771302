-- ===== src/Flow/Policy.antt =====
-- PolicyFlowPage.jsx, PolicyIssuedStep: the policy, the settlement that follows, and the rating and
-- the request for support that the customer may send.
pub mod Settled
pub mod Rating
use ion_insurance_testapp.Prelude.{
  ℕ, zero, suc, ◌-◌, String, Bool, true, false, not, ◌&&◌, ◌||◌, List, [], ◌∷◌, ◌++◌, Option, none,
  some, ◌==◌, leb, ltb, str_eq, if◌then◌else◌,
}
use ion_insurance_testapp.Js.{trim, is_empty, Value, str, ◌or◌, get, is_text, empty_object, truthy}
use ion_insurance_testapp.Flow.Quote.{commitment}

pub record PolicyView : Type 0 where
  pub policy_number : Value
  pub certificate_url : Value
  pub coverage_start : Value
  pub coverage_end : Value

unfoldable pub policy_view : Value → PolicyView
policy_view confirm_data =
    let attrs = get (commitment confirm_data) "commitmentAttributes" or empty_object in
    record {
      policy_number = get attrs "policyNumber" or str "—";
      certificate_url = get attrs "certificateUrl";
      coverage_start = get attrs "coverageStart" or get attrs "coverageStartDate";
      coverage_end = get attrs "coverageEnd" or get attrs "coverageEndDate";
    }

pub data SeamStage : Type 0 where
  policy_issued : SeamStage
  reconciling : SeamStage
  settled : SeamStage

-- The stage after an answer of `/api/v1/status`.
unfoldable pub next_stage : Value → SeamStage → SeamStage
next_stage status stage =
    if is_text (get status "status") "SETTLED"
    then settled
    else if is_text (get status "status") "RECONCILING"
    then reconciling
    else if is_text (get status "action") "confirm"
        || is_text (get status "latest_on_action") "on_confirm"
    then policy_issued
    else stage

-- A form that is sent once: `…Submitted`, `…Loading` and `…Error`.
pub record Sending : Type 0 where
  pub submitted : Bool
  pub loading : Bool
  pub error : String

abbrev pub unsent : Sending
unsent = record { submitted = false; loading = false; error = "" }

pub data Sent : Type 0 where
  rate : (txn : Value) (score : ℕ) (feedback : Option String) → Sent
  support : (txn : Value) (description : String) → Sent

-- `polls` counts the requests for the status without an answer yet, `sent` the requests sent.
pub record PolicyStep : Type 0 where
  pub seam_stage : SeamStage
  pub polls : ℕ
  pub rating : ℕ
  pub hover_rating : ℕ
  pub feedback : String
  pub rating_form : Sending
  pub show_support : Bool
  pub support_desc : String
  pub support_form : Sending
  pub sent : List Sent

abbrev pub mount_policy : PolicyStep
mount_policy = record {
  seam_stage = policy_issued;
  polls = 0;
  rating = 0;
  hover_rating = 0;
  feedback = "";
  rating_form = unsent;
  show_support = false;
  support_desc = "";
  support_form = unsent;
  sent = [];
}

abbrev is_settled : SeamStage → Bool
is_settled settled = true
is_settled _ = false

-- `feedback.trim() || undefined`
abbrev pub optional_text : String → Option String
optional_text s = if is_empty s then none else some s

unfoldable pub handle_submit_rating : Value → PolicyStep → PolicyStep
handle_submit_rating txn s = if s.rating == 0 then s else record s {
  rating_form = record s.rating_form { loading = true; error = "" };
  sent = s.sent ++ rate txn s.rating (optional_text (trim s.feedback)) ∷ [];
}

unfoldable pub handle_submit_support : Value → PolicyStep → PolicyStep
handle_submit_support txn s = if is_empty (trim s.support_desc) then s else record s {
  support_form = record s.support_form { loading = true; error = "" };
  sent = s.sent ++ support txn (trim s.support_desc) ∷ [];
}

-- The end of a handler, after its request went well or not.
abbrev pub sending_ended : Bool → String → Sending → Sending
sending_ended true message f = record f { submitted = true; loading = false }
sending_ended false message f = record f { error = message; loading = false }

pub data PolicyEvent : Type 0 where
  tick : PolicyEvent
  status_answered : Value → PolicyEvent
  status_failed : PolicyEvent
  press_star : ℕ → PolicyEvent
  enter_star : ℕ → PolicyEvent
  leave_star : PolicyEvent
  change_feedback : String → PolicyEvent
  submit_rating : PolicyEvent
  rating_ended : Bool → PolicyEvent
  toggle_support : PolicyEvent
  change_support : String → PolicyEvent
  submit_support : PolicyEvent
  support_ended : Bool → PolicyEvent

-- The stars are [1, 2, 3, 4, 5].
abbrev is_star : ℕ → Bool
is_star n = leb 1 n && leb n 5

unfoldable pub on_policy : Value → PolicyEvent → PolicyStep → PolicyStep
unfolding handle_submit_rating handle_submit_support
on_policy txn tick s =
    if truthy txn && not (is_settled s.seam_stage) then record s { polls = suc s.polls } else s
on_policy txn (status_answered v) s =
    if s.polls == 0
    then s
    else record s { seam_stage = next_stage v s.seam_stage; polls = s.polls - 1 }
on_policy txn status_failed s = record s { polls = s.polls - 1 }
on_policy txn (press_star n) s =
    if not s.rating_form.submitted && is_star n then record s { rating = n } else s
on_policy txn (enter_star n) s =
    if not s.rating_form.submitted && is_star n then record s { hover_rating = n } else s
on_policy txn leave_star s = if s.rating_form.submitted then s else record s { hover_rating = 0 }
on_policy txn (change_feedback v) s =
    if s.rating_form.submitted then s else record s { feedback = v }
on_policy txn submit_rating s =
    if s.rating_form.submitted || s.rating_form.loading then s else handle_submit_rating txn s
on_policy txn (rating_ended went_well) s =
    if s.rating_form.loading
    then record s {
      rating_form =
          sending_ended went_well "Failed to submit rating. Please try again." s.rating_form;
    }
    else s
on_policy txn toggle_support s = record s { show_support = not s.show_support }
on_policy txn (change_support v) s =
    if s.show_support && not s.support_form.submitted then record s { support_desc = v } else s
on_policy txn submit_support s =
    if not s.show_support || (s.support_form.submitted || s.support_form.loading)
    then s
    else handle_submit_support txn s
on_policy txn (support_ended went_well) s =
    if s.support_form.loading
    then record s {
      support_form =
          sending_ended went_well "Failed to submit support request. Please try again."
            s.support_form;
    }
    else s

abbrev pub on_policy_all : Value → List PolicyEvent → PolicyStep → PolicyStep
on_policy_all txn [] s = s
on_policy_all txn (e ∷ es) s = on_policy_all txn es (on_policy txn e s)
