-- ===== src/Flow/Payment/Polling.antt =====
-- The timer of the PaymentStep stops asking once the payment has been received.
use ion_insurance_testapp.Prelude.{
  ℕ, suc, ◌-◌, ◌≡◌, refl, ap, ◌∙◌, ◌==◌, Bool-cases, inl, inr, true, List, [], ◌∷◌, All, arith,
}
use ion_insurance_testapp.Js.{Value, truthy, get}
use ion_insurance_testapp.Flow.Payment.{
  PaymentStep, received, payment_tick, payment_answer, payment_lost,
}

-- What reaches the step: its timer, the answer to a request for the status, and its failure.
pub data PollEvent : Type 0 where
  tick : PollEvent
  answer : Value → PollEvent
  lost : PollEvent

unfoldable pub on_poll : Value → PollEvent → PaymentStep → PaymentStep
unfolding payment_tick payment_answer payment_lost
on_poll txn tick s = payment_tick txn s
on_poll txn (answer v) s = payment_answer v s
on_poll txn lost s = payment_lost s

abbrev pub on_polls : Value → List PollEvent → PaymentStep → PaymentStep
on_polls txn [] s = s
on_polls txn (e ∷ es) s = on_polls txn es (on_poll txn e s)

-- The requests that get an answer or fail.
abbrev pub ended : List PollEvent → ℕ
ended [] = 0
ended (tick ∷ es) = ended es
ended (answer v ∷ es) = suc (ended es)
ended (lost ∷ es) = suc (ended es)

-- A status that still says that the payment has been received.
abbrev pub StaysPaid : PollEvent → Type 0
StaysPaid tick = Unit
StaysPaid (answer v) = truthy (get v "payment_received") ≡ true
StaysPaid lost = Unit

on_poll_paid :
    (txn : Value) (e : PollEvent) (s : PaymentStep)
    → received s ≡ true
    → StaysPaid e
    → ((on_poll txn e s).polls ≡ s.polls - ended (e ∷ [])) × (received (on_poll txn e s) ≡ true)
unfolding on_poll
on_poll_paid txn tick s r h = (ground (arith, r), ground (arith, r))
on_poll_paid txn (answer v) s r h = elim (Bool-cases (s.polls == 0)) [
  | inl none_open ↦ rw none_open (ground (arith, none_open), r)
  | inr some_open ↦ rw some_open (refl, h)
]
on_poll_paid txn lost s r h = (refl, r)

ended_after :
    (e : PollEvent) (es : List PollEvent) (n : ℕ)
    → n - ended (e ∷ []) - ended es ≡ n - ended (e ∷ es)
ended_after tick es n = omega arith
ended_after (answer v) es n = omega arith
ended_after lost es n = omega arith

-- Once the payment has been received, and while no later status takes that back, the timer sends no
-- request: of those that are open, one is left for each that has neither been answered nor failed,
-- and the payment stays received.
pub on_polls_paid :
    (txn : Value) (es : List PollEvent) (s : PaymentStep)
    → received s ≡ true
    → All StaysPaid es
    → ((on_polls txn es s).polls ≡ s.polls - ended es) × (received (on_polls txn es s) ≡ true)
on_polls_paid txn [] s r h = (omega arith, r)
on_polls_paid txn (e ∷ es) s r h =
    let (polls, still) = on_poll_paid txn e s r h.0 in
    let rest = on_polls_paid txn es (on_poll txn e s) still h.1 in
    (rest.0 ∙ ap (λ n. n - ended es) polls ∙ ended_after e es s.polls, rest.1)
