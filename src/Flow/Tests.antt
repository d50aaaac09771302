-- ===== src/Flow/Tests.antt =====
-- The theorems about PolicyFlowPage.jsx at concrete answers and events.
use ion_insurance_testapp.Prelude.{
  suc, ◌≤◌, String, Bool, true, false, ◌≡◌, refl, [], ◌∷◌, ◌++◌, Option, none, some, length, All,
  ◌-◌, ◌≢◌, if◌then◌else◌, ◌==◌,
}
use ion_insurance_testapp.Js.{utf16_length, Value, undefined, null, bool, num, str, obj, field, end}
use ion_insurance_testapp.Flow.Forms.{demo_vehicle, demo_kyc, select_body, init_body}
use ion_insurance_testapp.Flow.Quote.{object, on_select, quote_view, quote_view-on_select}
use ion_insurance_testapp.Flow.Payment.{
  SettlementTerms, splits, share, sum_shares, PaymentStep, mount_payment, received, confirm_body,
  quoted_premium,
}
use ion_insurance_testapp.Flow.Payment.Shares.{sum_shares_near}
use ion_insurance_testapp.Flow.Policy.{
  reconciling, settled, mount_policy, tick, status_answered, press_star, submit_rating, on_policy,
  on_policy_all,
}
use ion_insurance_testapp.Flow.Payment.Polling.{PollEvent, on_polls, answer, lost, on_polls_paid}
use ion_insurance_testapp.Flow.Views.{rating_section, shown_rating}
use ion_insurance_testapp.Flow.Views.Stars.{count_filled, rating_section_lem}
use ion_insurance_testapp.Flow.Policy.Settled.{settled_stays, settled-overtaken}
use ion_insurance_testapp.Flow.Policy.Rating.{IsGood, on_policy_all-IsGood}
use ion_insurance_testapp.Flow.Page.{
  select, init, confirm, mount_page, step, Event, fill_vehicle, submit, next, back, answered,
  handle_all, policy_issued,
}
use ion_insurance_testapp.Flow.Page.Once.{
  confirms, IsGoodCall, handle_all_once, handle_all-IsGoodCall,
}
use ion_insurance_testapp.Flow.Page.Whole.{
  enter_vehicle, enter_kyc, pay, handle_all_policy, confirm_zero,
}

quote_view-on_select_test :
    quote_view (on_select 210000000 2100000 2050000 40000 0)
    ≡ some record {
      approved_idv = num 210000000;
      annual_premium = num 2100000;
      base_premium = num 2050000;
      admin_fee = num 40000;
      stamp_duty = num 10000;
      valid_until = undefined;
    }
quote_view-on_select_test = quote_view-on_select 210000000 2100000 2050000 40000 0

abbrev no_terms : SettlementTerms
no_terms = record { seller_pct = none; buyer_app_pct = none; ion_fee_pct = none }

-- The total that the page shows at a premium of 50.
sum_shares_at_50 : sum_shares 50 (splits no_terms) ≡ 51
unfolding sum_shares share
sum_shares_at_50 = refl

sum_shares_near_example :
    (50 ≤ suc (sum_shares 50 (splits no_terms))) × (sum_shares 50 (splits no_terms) ≤ 51)
sum_shares_near_example = sum_shares_near 50 no_terms refl

abbrev status_of : String → Value
status_of s = object (("status", str s) ∷ [])

settled_stays_example :
    (on_policy_all
      (str "T1")
      (status_answered (status_of "SETTLED")
        ∷ tick
        ∷ status_answered (status_of "RECONCILING")
        ∷ [])
      (record mount_policy { polls = 1 })).seam_stage
    ≡ settled
settled_stays_example =
    settled_stays (str "T1") (status_of "SETTLED")
      (tick ∷ status_answered (status_of "RECONCILING") ∷ []) (record mount_policy { polls = 1 })
      refl refl

settled-overtaken_example :
    (on_policy_all
      (str "T1")
      (tick
        ∷ tick
        ∷ status_answered (status_of "SETTLED")
        ∷ status_answered (status_of "RECONCILING")
        ∷ [])
      mount_policy).seam_stage
    ≡ reconciling
settled-overtaken_example =
    settled-overtaken (str "T1") (status_of "SETTLED") (status_of "RECONCILING") mount_policy refl
      (λ e. cc) refl refl refl

on_policy_all-IsGood_example :
    All
      (IsGood (str "T1"))
      (on_policy_all (str "T1") (press_star 4 ∷ submit_rating ∷ []) mount_policy).sent
on_policy_all-IsGood_example = on_policy_all-IsGood (str "T1") (press_star 4 ∷ submit_rating ∷ [])

handle_all_once_example :
    let p =
      handle_all
        (fill_vehicle ∷ submit ∷ submit ∷ answered null ∷ back ∷ [])
        (mount_page null false null "2025") in
    (length p.in_flight ≤ 1) × (confirms p.accepted ≡ (if step p.screen == 5 then 1 else 0))
handle_all_once_example =
    handle_all_once null false null "2025"
      (fill_vehicle ∷ submit ∷ submit ∷ answered null ∷ back ∷ [])

handle_all-IsGoodCall_example :
    let p =
      handle_all
        (submit ∷ answered null ∷ next ∷ submit ∷ [])
        (mount_page null false null "2025") in
    All IsGoodCall p.in_flight × All IsGoodCall p.accepted
handle_all-IsGoodCall_example =
    handle_all-IsGoodCall null false null "2025" (submit ∷ answered null ∷ next ∷ submit ∷ [])

abbrev selected : Value
selected = object (("context", object (("transaction_id", str "T1") ∷ [])) ∷ [])

abbrev received_status : Bool → Value
received_status b = object (("payment_received", bool b) ∷ [])

handle_all_policy_example :
    let start = mount_page null false null "2025" in
    let p =
      handle_all
        (enter_vehicle demo_vehicle
          ++ answered selected ∷ next ∷ enter_kyc demo_kyc
          ++ answered null ∷ pay (received_status false) (received_status true) null)
        start in
    (p.screen ≡ policy_issued mount_policy)
    × (p.confirm_data ≡ null)
    × (p.accepted
        ≡ confirm (confirm_body (str "T1") null (quoted_premium selected))
          ∷ init (init_body demo_kyc (str "T1") (some demo_vehicle))
          ∷ select demo_vehicle (select_body start.product demo_vehicle)
          ∷ [])
unfolding utf16_length
handle_all_policy_example =
    handle_all_policy null selected null null (received_status false) (received_status true) "2025"
      demo_vehicle demo_kyc refl refl refl refl

confirm_zero_example :
    (handle_all
      (Event.status_answered (received_status true) ∷ submit ∷ [])
      (mount_page (str "T1") true null "2025")).in_flight
    ≡ confirm record {
      transaction_id = str "T1";
      payment_method = "DOKU_CHECKOUT";
      payment_ref = (confirm_body (str "T1") null null).payment_ref;
      amount = num 0;
    }
      ∷ []
confirm_zero_example = confirm_zero (str "T1") null (received_status true) "2025" refl refl

rating_section_lem_example :
    (count_filled (true ∷ true ∷ true ∷ true ∷ false ∷ [])
      ≡ shown_rating (on_policy_all (str "T1") (press_star 4 ∷ []) mount_policy))
    × (◌≢◌ {A = Option (Option String)} (some (some "Very Good")) (some none))
unfolding rating_section on_policy
rating_section_lem_example =
    rating_section_lem (str "T1") (press_star 4 ∷ [])
      record {
        stars = true ∷ true ∷ true ∷ true ∷ false ∷ [];
        label = some (some "Very Good");
        feedback = "";
        error = none;
        button = ("Submit Rating", false);
      }
      refl

abbrev paid_status : Value
paid_status = obj (field "payment_received" (bool true) end)

abbrev paid_step : PaymentStep
paid_step = record (mount_payment (str "T1") true) { seam_status = paid_status; polls = 2 }

on_polls_paid_example :
    let s =
      on_polls
        (str "T1")
        (PollEvent.tick ∷ answer paid_status ∷ PollEvent.tick ∷ lost ∷ [])
        paid_step in
    (s.polls ≡ 2 - 2) × (received s ≡ true)
on_polls_paid_example =
    on_polls_paid (str "T1") (PollEvent.tick ∷ answer paid_status ∷ PollEvent.tick ∷ lost ∷ [])
      paid_step refl (tt, (refl, (tt, (tt, tt))))
