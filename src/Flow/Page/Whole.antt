-- ===== src/Flow/Page/Whole.antt =====
-- The page from its first step to the policy, and from the checkout to the policy.
use ion_insurance_testapp.Prelude.{
  if◌then◌else◌, String, true, false, List, [], ◌∷◌, ◌++◌, some, ◌≡◌, refl, ap, ◌∙◌, arith,
}
use ion_insurance_testapp.Js.{Value, null, num, truthy, get}
use ion_insurance_testapp.Flow.Forms.{
  no_submission, VehicleField, KycField, change_kyc, set_kyc, change_vehicle, has_nik_length,
  VehicleForm, mount_kyc, nik_message, KycForm, select_body, init_body,
}
use ion_insurance_testapp.Flow.Payment.{
  PaymentStep, payment_tick, payment_answer, confirm_body, quoted_premium, total_premium,
}
use ion_insurance_testapp.Flow.Policy.{mount_policy}
use ion_insurance_testapp.Flow.Page.{
  kyc, payment, policy_issued, select, init, confirm, Page, mount_page, Event, vehicle_input,
  kyc_input, submit, next, answered, tick, status_answered, handle, handle_all, on_next,
  handle_submit_vehicle, handle_submit_kyc, handle_paid,
}

-- Every field of a form typed in, and the form submitted.
abbrev pub enter_vehicle : VehicleForm → List Event
enter_vehicle f =
    vehicle_input VehicleField.make f.make
    ∷ vehicle_input VehicleField.model f.model
    ∷ vehicle_input VehicleField.year f.year
    ∷ vehicle_input VehicleField.idv f.idv
    ∷ vehicle_input VehicleField.plate f.plate
    ∷ vehicle_input VehicleField.stnk f.stnk
    ∷ submit
    ∷ []

abbrev pub enter_kyc : KycForm → List Event
enter_kyc f =
    kyc_input KycField.name f.name
    ∷ kyc_input KycField.nik f.nik
    ∷ kyc_input KycField.dob f.dob
    ∷ kyc_input KycField.phone f.phone
    ∷ kyc_input KycField.email f.email
    ∷ kyc_input KycField.license_type f.license_type
    ∷ kyc_input KycField.address f.address
    ∷ kyc_input KycField.inspection_method f.inspection_method
    ∷ submit
    ∷ []

handle_all-append :
    (es more : List Event) (p : Page)
    → handle_all (es ++ more) p ≡ handle_all more (handle_all es p)
handle_all-append [] more p = refl
handle_all-append (e ∷ es) more p = handle_all-append es more (handle e p)

-- The payment step with a status and no poll open.
abbrev paying : Value → PaymentStep
paying status = record { seam_status = status; polls = 0; submission = no_submission }

abbrev at_payment : Page → Value → Page
at_payment p status = record p { screen = payment (paying status) }

-- The page after the first two steps, and after the third.
abbrev with_quote : Page → VehicleForm → Value → Value → Page
with_quote start vehicle quoted txn = record start {
  quote_data = quoted;
  vehicle_form = some vehicle;
  actual_txn_id = txn;
  screen = kyc mount_kyc;
  accepted = select vehicle (select_body start.product vehicle) ∷ [];
}

abbrev with_init : Page → VehicleForm → KycForm → Value → Value → Page
with_init p vehicle person inited txn = record p {
  init_data = inited;
  screen = payment (paying null);
  accepted = init (init_body person txn (some vehicle)) ∷ p.accepted;
}

enter_vehicle-lem :
    (state quoted : Value) (this_year : String) (vehicle : VehicleForm)
    → truthy (get (get quoted "context") "transaction_id") ≡ true
    → let start = mount_page null false state this_year in
      handle_all (enter_vehicle vehicle ++ answered quoted ∷ next ∷ []) start
      ≡ with_quote start vehicle quoted (get (get quoted "context") "transaction_id")
unfolding mount_page handle handle_submit_vehicle on_next change_vehicle
enter_vehicle-lem state quoted this_year vehicle named = ground arith

-- The page with the second form typed in.
abbrev with_person : Page → KycForm → Page
with_person p person = record p {
  screen = kyc (record mount_kyc {
    form = person;
    nik_error = if has_nik_length person.nik then "" else nik_message;
  });
}

module _ (p : Page) (vehicle : VehicleForm) (person : KycForm) (inited : Value) where
  type_kyc-lem :
      handle_all (enter_kyc person ++ answered inited ∷ []) (record p { screen = kyc mount_kyc })
      ≡ handle_all (submit ∷ answered inited ∷ []) (with_person p person)
  unfolding handle change_kyc set_kyc
  type_kyc-lem = refl

  submit_kyc-lem :
      p.url_txn ≡ null
      → p.in_flight ≡ []
      → p.vehicle_form ≡ some vehicle
      → has_nik_length person.nik ≡ true
      → handle_all (submit ∷ answered inited ∷ []) (with_person p person)
        ≡ with_init p vehicle person inited p.actual_txn_id
  unfolding handle handle_submit_kyc on_next
  submit_kyc-lem fresh calm kept long = ground arith

abbrev pub pay : Value → Value → Value → List Event
pay early status confirmed =
    tick
    ∷ status_answered early
    ∷ submit
    ∷ tick
    ∷ status_answered status
    ∷ submit
    ∷ answered confirmed
    ∷ []

module _ (p : Page) (before status : Value) where
  poll-lem :
      truthy p.actual_txn_id ≡ true
      → truthy (get before "payment_received") ≡ false
      → handle_all (tick ∷ status_answered status ∷ []) (at_payment p before) ≡ at_payment p status
  unfolding handle payment_tick payment_answer
  poll-lem named first = ground arith

  submit_early :
      truthy (get status "payment_received") ≡ false
      → handle submit (at_payment p status) ≡ at_payment p status
  unfolding handle handle_paid
  submit_early first = ground arith

abbrev with_policy : Page → Value → Page
with_policy p confirmed = record p {
  confirm_data = confirmed;
  screen = policy_issued mount_policy;
  accepted =
      confirm (confirm_body p.actual_txn_id p.init_data (quoted_premium p.quote_data)) ∷ p.accepted;
}

module _ (p : Page) (early status confirmed : Value) where
  submit-lem :
      p.in_flight ≡ []
      → truthy (get status "payment_received") ≡ true
      → handle_all (submit ∷ answered confirmed ∷ []) (at_payment p status)
        ≡ with_policy p confirmed
  unfolding handle handle_paid on_next
  submit-lem calm second = ground arith

  pay-lem :
      p.in_flight ≡ []
      → truthy p.actual_txn_id ≡ true
      → truthy (get early "payment_received") ≡ false
      → truthy (get status "payment_received") ≡ true
      → handle_all (pay early status confirmed) (at_payment p null) ≡ with_policy p confirmed
  pay-lem calm named first second =
      let last = submit ∷ answered confirmed ∷ [] in
      let again = tick ∷ status_answered status ∷ last in
      ap (λ q. handle_all (submit ∷ again) q) (poll-lem p null early named refl)
      ∙ (ap (λ q. handle_all again q) (submit_early p null early first)
          ∙ (ap (λ q. handle_all last q) (poll-lem p early status named first)
              ∙ submit-lem calm second))

-- From the first step, when each request goes well and the second poll says that the payment has
-- been received, the page comes to the policy: for any two forms, the second with an identity
-- number of 16 units. The three requests carry the vehicle's form, the identity with the
-- transaction that the first answer names, and the amount of the second answer or else of the
-- quote. A press of the payment's button before the payment has been received sends nothing.
pub handle_all_policy :
    (state quoted inited confirmed early status : Value) (this_year : String)
    (vehicle : VehicleForm) (person : KycForm)
    → has_nik_length person.nik ≡ true
    → truthy (get (get quoted "context") "transaction_id") ≡ true
    → truthy (get early "payment_received") ≡ false
    → truthy (get status "payment_received") ≡ true
    → let txn = get (get quoted "context") "transaction_id" in
      let start = mount_page null false state this_year in
      let p =
        handle_all
          (enter_vehicle vehicle
            ++ answered quoted ∷ next ∷ enter_kyc person
            ++ answered inited ∷ pay early status confirmed)
          start in
      (p.screen ≡ policy_issued mount_policy)
      × (p.confirm_data ≡ confirmed)
      × (p.accepted
          ≡ confirm (confirm_body txn inited (quoted_premium quoted))
            ∷ init (init_body person txn (some vehicle))
            ∷ select vehicle (select_body start.product vehicle)
            ∷ [])
unfolding mount_page
handle_all_policy state quoted inited confirmed early status this_year vehicle person long named
      first second =
    let txn = get (get quoted "context") "transaction_id" in
    let start = mount_page null false state this_year in
    let p1 = with_quote start vehicle quoted txn in
    let p2 = with_init p1 vehicle person inited txn in
    let last = pay early status confirmed in
    let one =
      ap (λ p. handle_all last (handle_all (enter_kyc person ++ answered inited ∷ []) p))
        (enter_vehicle-lem state quoted this_year vehicle named) in
    let two =
      ap (λ p. handle_all last p)
        (type_kyc-lem p1 vehicle person inited
          ∙ submit_kyc-lem p1 vehicle person inited refl refl refl long) in
    let all = one ∙ (two ∙ pay-lem p2 early status confirmed refl named first second) in
    (ap (λ p. p.screen) all, ap (λ p. p.confirm_data) all, ap (λ p. p.accepted) all)

-- Back from the checkout with a transaction in the address, the page has neither the quote nor the
-- answer with the amount: once the payment has been received it confirms it with an amount of zero.
pub confirm_zero :
    (url_txn state status : Value) (this_year : String)
    → truthy url_txn ≡ true
    → truthy (get status "payment_received") ≡ true
    → (handle_all
        (status_answered status ∷ submit ∷ [])
        (mount_page url_txn true state this_year)).in_flight
      ≡ confirm record {
        transaction_id = url_txn;
        payment_method = "DOKU_CHECKOUT";
        payment_ref = (confirm_body url_txn null null).payment_ref;
        amount = num 0;
      }
        ∷ []
unfolding mount_page handle handle_paid payment_answer confirm_body quoted_premium total_premium
confirm_zero url_txn state status this_year here paid = ground arith
