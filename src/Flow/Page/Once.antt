-- ===== src/Flow/Page/Once.antt =====
-- What holds of the page whatever happens on it.
use ion_insurance_testapp.Prelude.{
  ℕ, ◌+◌, ◌≤◌, String, Bool, true, false, List, [], ◌∷◌, if◌then◌else◌, ◌==◌, ◌≡◌, ◌∙◌, arith, All,
  length,
}
use ion_insurance_testapp.Js.{Value, truthy}
use ion_insurance_testapp.Flow.Forms.{Submission, init_body, caught, change_kyc, has_nik_length}
use ion_insurance_testapp.Flow.Payment.{
  received, payment_tick, payment_answer, payment_lost, confirm_body,
}
use ion_insurance_testapp.Flow.Page.{
  Screen, vehicle_details, quote, kyc, payment, policy_issued, step, Call, select, init, confirm,
  Page, mount_page, Event, submit, next, back, answered, refused, handle, handle_all, on_next,
  handle_submit_vehicle, handle_submit_kyc, handle_paid,
}

-- The ref and the spinner of a step say whether its request, of the kind given, is in flight.
abbrev IsWaitingFor : (Call → Bool) → Submission → List Call → Type 0
IsWaitingFor q s [] = (s.submitting ≡ false) × (s.loading ≡ false)
IsWaitingFor q s (c ∷ []) = (s.submitting ≡ true) × (s.loading ≡ true) × (q c ≡ true)
IsWaitingFor q s (_ ∷ _ ∷ _) = ⊥

abbrev is_select : Call → Bool
is_select (select _ _) = true
is_select _ = false

abbrev is_init : Call → Bool
is_init (init _) = true
is_init _ = false

abbrev pub is_confirm : Call → Bool
is_confirm (confirm _) = true
is_confirm _ = false

abbrev IsWaiting : Screen → List Call → Type 0
IsWaiting (vehicle_details s) cs = IsWaitingFor is_select s.submission cs
IsWaiting (kyc s) cs = IsWaitingFor is_init s.submission cs
IsWaiting (payment s) cs = IsWaitingFor is_confirm s.submission cs
IsWaiting quote cs = cs ≡ []
IsWaiting (policy_issued _) cs = cs ≡ []

-- A request of the second form has an identity number of the right length, and one that confirms a
-- payment has a transaction.
abbrev pub IsGoodCall : Call → Type 0
IsGoodCall (select _ _) = Unit
IsGoodCall (init b) = has_nik_length b.form.nik ≡ true
IsGoodCall (confirm b) = truthy b.transaction_id ≡ true

abbrev pub confirms : List Call → ℕ
confirms [] = 0
confirms (c ∷ cs) = (if is_confirm c then 1 else 0) + confirms cs

abbrev paid : Screen → ℕ
paid (policy_issued _) = 1
paid _ = 0

-- Without a transaction nothing is known of its payment.
abbrev IsPolling : Value → Screen → Type 0
IsPolling txn (payment s) = truthy txn ≡ false → (s.polls ≡ 0) × (received s ≡ false)
IsPolling txn _ = Unit

record IsSound (p : Page) : Type 0 where
  waiting : IsWaiting p.screen p.in_flight
  flying : All IsGoodCall p.in_flight
  done : All IsGoodCall p.accepted
  confirmed : confirms p.accepted ≡ paid p.screen
  polling : IsPolling p.actual_txn_id p.screen

mount_page-IsSound :
    (u : Value) (d : Bool) (state : Value) (y : String) → IsSound (mount_page u d state y)
unfolding mount_page
mount_page-IsSound u d state y = ground arith

submit-IsSound : (p : Page) → IsSound p → IsSound (handle submit p)
unfolding handle handle_submit_vehicle handle_submit_kyc handle_paid confirm_body init_body
submit-IsSound p v = ground arith

next-IsSound : (p : Page) → IsSound p → IsSound (handle next p)
unfolding handle
next-IsSound p v = ground arith

back-IsSound : (p : Page) → IsSound p → IsSound (handle back p)
unfolding handle
back-IsSound p v = ground arith

answered-IsSound : (res : Value) (p : Page) → IsSound p → IsSound (handle (answered res) p)
unfolding handle on_next
answered-IsSound res p v = ground arith

refused-IsSound : (m : String) (p : Page) → IsSound p → IsSound (handle (refused m) p)
unfolding handle caught
refused-IsSound m p v = ground arith

handle-IsSound : (e : Event) (p : Page) → IsSound p → IsSound (handle e p)
unfolding handle payment_tick payment_answer payment_lost change_kyc
handle-IsSound submit p v = submit-IsSound p v
handle-IsSound next p v = next-IsSound p v
handle-IsSound back p v = back-IsSound p v
handle-IsSound (answered res) p v = answered-IsSound res p v
handle-IsSound (refused m) p v = refused-IsSound m p v
handle-IsSound e p v = ground arith

handle_all-IsSound : (es : List Event) (p : Page) → IsSound p → IsSound (handle_all es p)
handle_all-IsSound [] p v = v
handle_all-IsSound (e ∷ es) p v = handle_all-IsSound es (handle e p) (handle-IsSound e p v)

reachable-IsSound :
    (u : Value) (d : Bool) (state : Value) (y : String) (es : List Event)
    → IsSound (handle_all es (mount_page u d state y))
reachable-IsSound u d state y es =
    handle_all-IsSound es (mount_page u d state y) (mount_page-IsSound u d state y)

at_most_one :
    (q : Call → Bool) (s : Submission) (cs : List Call) → IsWaitingFor q s cs → length cs ≤ 1
at_most_one q s [] v = omega arith
at_most_one q s (c ∷ []) v = omega arith
at_most_one q s (c ∷ (_ ∷ _)) v = elim v [ ]

length-in_flight : (s : Screen) (cs : List Call) → IsWaiting s cs → length cs ≤ 1
length-in_flight (vehicle_details s) cs v = at_most_one is_select s.submission cs v
length-in_flight (kyc s) cs v = at_most_one is_init s.submission cs v
length-in_flight (payment s) cs v = at_most_one is_confirm s.submission cs v
length-in_flight quote cs v = ground arith
length-in_flight (policy_issued _) cs v = ground arith

paid-step : (s : Screen) → paid s ≡ (if step s == 5 then 1 else 0)
unfolding step
paid-step s = ground arith

-- Whatever happens on the page, and however often its buttons are pressed before the spinner is
-- drawn, at most one request is in flight, and one confirmation of a payment has been accepted if
-- the policy is on the page, and none otherwise.
pub handle_all_once :
    (url_txn : Value) (payment_done : Bool) (state : Value) (this_year : String) (es : List Event)
    → let p = handle_all es (mount_page url_txn payment_done state this_year) in
      (length p.in_flight ≤ 1) × (confirms p.accepted ≡ (if step p.screen == 5 then 1 else 0))
handle_all_once url_txn payment_done state this_year es =
    let p = handle_all es (mount_page url_txn payment_done state this_year) in
    let v = reachable-IsSound url_txn payment_done state this_year es in
    (length-in_flight p.screen p.in_flight v.waiting, v.confirmed ∙ paid-step p.screen)

-- Whatever happens on the page, each request of the second form, sent or accepted, has an identity
-- number of 16 units of UTF-16, and each confirmation of a payment has a transaction.
pub handle_all-IsGoodCall :
    (url_txn : Value) (payment_done : Bool) (state : Value) (this_year : String) (es : List Event)
    → let p = handle_all es (mount_page url_txn payment_done state this_year) in
      All IsGoodCall p.in_flight × All IsGoodCall p.accepted
handle_all-IsGoodCall url_txn payment_done state this_year es =
    let v = reachable-IsSound url_txn payment_done state this_year es in (v.flying, v.done)
