-- ===== src/Flow/Page.antt =====
-- PolicyFlowPage.jsx, the page: which step is on it, and what each event does to it. The fade of a
-- step that leaves, and the browser's own checks of a form, are left out.
pub mod Once
pub mod Whole
use ion_insurance_testapp.Prelude.{
  ℕ, suc, ◌+◌, ◌-◌, String, Bool, true, false, not, ◌&&◌, ◌||◌, List, [], ◌∷◌, ◌++◌, Option, none,
  some, if◌then◌else◌, is_some,
}
use ion_insurance_testapp.Js.{Value, null, str, ◌or◌, get, truthy, or_text}
use ion_insurance_testapp.Flow.Forms.{
  Submission, begun, caught, VehicleForm, VehicleField, VehicleStep, mount_vehicle, change_vehicle,
  demo_vehicle, SelectBody, select_body, KycForm, KycField, KycStep, mount_kyc, change_kyc,
  demo_kyc, has_nik_length, nik_message, InitBody, init_body,
}
use ion_insurance_testapp.Flow.Payment.{
  PaymentStep, mount_payment, received, payment_tick, payment_answer, payment_lost, ConfirmBody,
  confirm_body, quoted_premium,
}
use ion_insurance_testapp.Flow.Policy.{PolicyStep, mount_policy, PolicyEvent, on_policy}

-- The step on the page, with its state. The page's `step` is the number of the constructor.
pub data Screen : Type 0 where
  vehicle_details : VehicleStep → Screen
  quote : Screen
  kyc : KycStep → Screen
  payment : PaymentStep → Screen
  policy_issued : PolicyStep → Screen

unfoldable pub step : Screen → ℕ
step (vehicle_details _) = 1
step quote = 2
step (kyc _) = 3
step (payment _) = 4
step (policy_issued _) = 5

-- A request with what its handler needs when the answer comes.
pub data Call : Type 0 where
  select : VehicleForm → SelectBody → Call
  init : InitBody → Call
  confirm : ConfirmBody → Call

-- `url_txn`, `payment_done` and `product` come with the address of the page. `in_flight` lists the
-- requests without an answer, and `accepted` those that went well, the last in front.
pub record Page : Type 0 where
  pub url_txn : Value
  pub payment_done : Bool
  pub product : Value
  pub this_year : String
  pub quote_data : Value
  pub init_data : Value
  pub confirm_data : Value
  pub actual_txn_id : Value
  pub vehicle_form : Option VehicleForm
  pub screen : Screen
  pub in_flight : List Call
  pub accepted : List Call

-- Back from the checkout: the transaction in the address, and `?payment=done`.
abbrev pub resumes : (url_txn : Value) (payment_done : Bool) → Bool
resumes url_txn payment_done = truthy url_txn && payment_done

-- The page as React mounts it, its effect included. `state` is that of the location.
unfoldable pub mount_page :
    (url_txn : Value) (payment_done : Bool) (state : Value) (this_year : String) → Page
mount_page url_txn payment_done state this_year =
    let back = resumes url_txn payment_done in
    record {
      url_txn = url_txn;
      payment_done = payment_done;
      product = get state "selectedItem" or get state "product" or null;
      this_year = this_year;
      quote_data = null;
      init_data = null;
      confirm_data = null;
      actual_txn_id = if back then url_txn else null;
      vehicle_form = none;
      screen =
          if back
          then payment (mount_payment url_txn true)
          else vehicle_details (mount_vehicle this_year);
      in_flight = [];
      accepted = [];
    }

pub data Event : Type 0 where
  vehicle_input : VehicleField → String → Event
  fill_vehicle : Event
  kyc_input : KycField → String → Event
  fill_kyc : Event
  submit : Event
  next : Event
  back : Event
  answered : Value → Event
  refused : String → Event
  tick : Event
  status_answered : Value → Event
  status_failed : Event
  on_policy_step : PolicyEvent → Event

-- `handleSubmit` of the two forms and `handlePaid`. The spinner hides the button only once React
-- has drawn it, so a second event can arrive while the first request is in flight. The button that
-- pays is disabled until the payment has been received.
unfoldable pub handle_submit_vehicle : VehicleStep → Page → Page
handle_submit_vehicle s p = if s.submission.submitting then p else record p {
  screen = vehicle_details (record s { submission = begun });
  in_flight = p.in_flight ++ select s.form (select_body p.product s.form) ∷ [];
}

unfoldable pub handle_submit_kyc : KycStep → Page → Page
handle_submit_kyc s p =
    if not (has_nik_length s.form.nik)
    then record p { screen = kyc (record s { nik_error = nik_message }) }
    else if s.submission.submitting
    then p
    else record p {
      screen = kyc (record s { submission = begun });
      in_flight = p.in_flight ++ init (init_body s.form p.actual_txn_id p.vehicle_form) ∷ [];
    }

unfoldable pub handle_paid : PaymentStep → Page → Page
handle_paid s p = if not (received s) || s.submission.submitting then p else record p {
  screen = payment (record s { submission = begun });
  in_flight =
      p.in_flight
      ++ confirm (confirm_body p.actual_txn_id p.init_data (quoted_premium p.quote_data)) ∷ [];
}

abbrev submit_on : Screen → Page → Page
submit_on (vehicle_details s) p = handle_submit_vehicle s p
submit_on (kyc s) p = handle_submit_kyc s p
submit_on (payment s) p = handle_paid s p
submit_on _ p = p

-- The Back buttons, which the spinner hides.
abbrev back_on : Screen → Page → Page
back_on quote p = record p { screen = vehicle_details (mount_vehicle p.this_year) }
back_on (kyc s) p = if s.submission.loading then p else record p { screen = quote }
back_on (payment s) p = if s.submission.loading then p else record p { screen = kyc mount_kyc }
back_on _ p = p

abbrev next_on : Screen → Page → Page
next_on quote p = record p { screen = kyc mount_kyc }
next_on _ p = p

-- The `onNext` that the page gives to each step.
unfoldable pub on_next : Call → Value → Page → Page
on_next (select form _) res p = record p {
  quote_data = res;
  vehicle_form = some form;
  actual_txn_id = get (get res "context") "transaction_id" or null;
  screen = quote;
}
on_next (init _) res p = record p {
  init_data = res;
  screen = payment (mount_payment p.actual_txn_id (resumes p.url_txn p.payment_done));
}
on_next (confirm _) res p = record p { confirm_data = res; screen = policy_issued mount_policy }

-- The `catch` of each handler.
abbrev catch_on : Screen → String → Screen
catch_on (vehicle_details s) message =
    vehicle_details (record s { submission = caught "Select failed. Please try again." message })
catch_on (kyc s) message =
    kyc (record s { submission = caught "Failed to submit KYC. Please try again." message })
catch_on (payment s) message =
    payment
      (record s { submission = caught "Failed to confirm payment. Please try again." message })
catch_on other message = other

abbrev succeed : List Call → Value → Page → Page
succeed [] res p = p
succeed (c ∷ cs) res p = on_next c res (record p { in_flight = cs; accepted = c ∷ p.accepted })

abbrev fail : List Call → String → Page → Page
fail [] message p = p
fail (c ∷ cs) message p = record p { in_flight = cs; screen = catch_on p.screen message }

abbrev on_screen : Event → Value → Screen → Screen
on_screen (vehicle_input field v) txn (vehicle_details s) =
    vehicle_details
      (if s.submission.loading then s else record s { form = change_vehicle field v s.form })
on_screen fill_vehicle txn (vehicle_details s) =
    vehicle_details (if s.submission.loading then s else record s { form = demo_vehicle })
on_screen (kyc_input field v) txn (kyc s) =
    kyc (if s.submission.loading then s else change_kyc field v s)
on_screen fill_kyc txn (kyc s) =
    kyc (if s.submission.loading then s else record s { form = demo_kyc; nik_error = "" })
on_screen tick txn (payment s) = payment (payment_tick txn s)
on_screen (status_answered v) txn (payment s) = payment (payment_answer v s)
on_screen status_failed txn (payment s) = payment (payment_lost s)
on_screen (on_policy_step e) txn (policy_issued s) = policy_issued (on_policy txn e s)
on_screen e txn s = s

unfoldable pub handle : Event → Page → Page
unfolding on_next
handle submit p = submit_on p.screen p
handle next p = next_on p.screen p
handle back p = back_on p.screen p
handle (answered res) p = succeed p.in_flight res p
handle (refused message) p = fail p.in_flight message p
handle e p = record p { screen = on_screen e p.actual_txn_id p.screen }

abbrev pub handle_all : List Event → Page → Page
handle_all [] p = p
handle_all (e ∷ es) p = handle_all es (handle e p)
