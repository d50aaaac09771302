-- ===== src/Flow/Policy/Settled.antt =====
-- The stage of the settlement under its polling.
use ion_insurance_testapp.Prelude.{true, false, List, [], ◌∷◌, ◌≡◌, ◌≢◌, arith}
use ion_insurance_testapp.Js.{Value, get, is_text, truthy}
use ion_insurance_testapp.Flow.Policy.{
  PolicyStep, reconciling, settled, next_stage, PolicyEvent, tick, status_answered, on_policy,
  on_policy_all,
}

-- Settled, with no answer to come.
record IsDone (s : PolicyStep) : Type 0 where
  stage : s.seam_stage ≡ settled
  polls : s.polls ≡ 0

on_policy-IsDone :
    (txn : Value) (e : PolicyEvent) (s : PolicyStep) → IsDone s → IsDone (on_policy txn e s)
unfolding on_policy
on_policy-IsDone txn tick s v = ground arith
on_policy-IsDone txn e s v = ground arith

on_policy_all-IsDone :
    (txn : Value) (es : List PolicyEvent) (s : PolicyStep)
    → IsDone s
    → IsDone (on_policy_all txn es s)
on_policy_all-IsDone txn [] s v = v
on_policy_all-IsDone txn (e ∷ es) s v =
    on_policy_all-IsDone txn es (on_policy txn e s) (on_policy-IsDone txn e s v)

-- Once the answer SETTLED has come and no request for the status is open, the stage is settled
-- whatever happens on the page.
pub settled_stays :
    (txn status : Value) (es : List PolicyEvent) (s : PolicyStep)
    → s.polls ≡ 1
    → is_text (get status "status") "SETTLED" ≡ true
    → (on_policy_all txn (status_answered status ∷ es) s).seam_stage ≡ settled
unfolding on_policy next_stage
settled_stays txn status es s one done =
    IsDone.stage
      (on_policy_all-IsDone txn es (on_policy txn (status_answered status) s) (ground arith))

-- With two requests open, an answer RECONCILING that arrives after the answer SETTLED takes the
-- stage back to reconciling.
pub settled-overtaken :
    (txn first second : Value) (s : PolicyStep)
    → truthy txn ≡ true
    → s.seam_stage ≢ settled
    → is_text (get first "status") "SETTLED" ≡ true
    → is_text (get second "status") "SETTLED" ≡ false
    → is_text (get second "status") "RECONCILING" ≡ true
    → (on_policy_all txn
        (tick ∷ tick ∷ status_answered first ∷ status_answered second ∷ [])
        s).seam_stage
      ≡ reconciling
unfolding on_policy next_stage
settled-overtaken txn first second s ready unsettled a b c = ground arith
