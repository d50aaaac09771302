-- ===== src/Flow/Policy/Rating.antt =====
-- What the customer's rating and request for support can hold.
use ion_insurance_testapp.Prelude.{◌≤◌, false, List, [], ◌∷◌, ◌≡◌, refl, arith, All, All-append}
use ion_insurance_testapp.Js.{Value, is_empty, trim, trim_idem}
use ion_insurance_testapp.Flow.Policy.{
  PolicyStep, PolicyEvent, submit_rating, submit_support, mount_policy, optional_text, Sent, rate,
  support, on_policy, on_policy_all, handle_submit_rating, handle_submit_support,
}

-- A score of one to five stars, or a description that is trimmed and not empty; for the transaction
-- given.
pub IsGood : Value → Sent → Type 0
IsGood txn (rate t score feedback) = (t ≡ txn) × (1 ≤ score) × (score ≤ 5)
IsGood txn (support t description) =
    (t ≡ txn) × (is_empty description ≡ false) × (trim description ≡ description)

pub record IsFine (txn : Value) (s : PolicyStep) : Type 0 where
  pub stars : s.rating ≤ 5
  pub hovered : s.hover_rating ≤ 5
  pub sent : All (IsGood txn) s.sent

submit_rating-IsFine :
    (txn : Value) (s : PolicyStep) → IsFine txn s → IsFine txn (handle_submit_rating txn s)
unfolding handle_submit_rating IsGood
submit_rating-IsFine txn s v = ground (
  arith,
  λ (h : 1 ≤ s.rating).
      All-append (IsGood txn) s.sent (rate txn s.rating (optional_text (trim s.feedback)) ∷ [])
        v.sent ((refl, h, v.stars), tt),
)

submit_support-IsFine :
    (txn : Value) (s : PolicyStep) → IsFine txn s → IsFine txn (handle_submit_support txn s)
unfolding handle_submit_support IsGood
submit_support-IsFine txn s v = ground (
  arith,
  λ (h : is_empty (trim s.support_desc) ≡ false).
      All-append (IsGood txn) s.sent (support txn (trim s.support_desc) ∷ []) v.sent
        ((refl, h, trim_idem s.support_desc), tt),
)

on_policy-IsFine :
    (txn : Value) (e : PolicyEvent) (s : PolicyStep) → IsFine txn s → IsFine txn (on_policy txn e s)
unfolding on_policy
on_policy-IsFine txn submit_rating s v = ground (arith, submit_rating-IsFine txn s)
on_policy-IsFine txn submit_support s v = ground (arith, submit_support-IsFine txn s)
on_policy-IsFine txn e s v = ground arith

pub on_policy_all-IsFine :
    (txn : Value) (es : List PolicyEvent) (s : PolicyStep)
    → IsFine txn s
    → IsFine txn (on_policy_all txn es s)
on_policy_all-IsFine txn [] s v = v
on_policy_all-IsFine txn (e ∷ es) s v =
    on_policy_all-IsFine txn es (on_policy txn e s) (on_policy-IsFine txn e s v)

pub mount_policy-IsFine : (txn : Value) → IsFine txn mount_policy
mount_policy-IsFine txn = ground arith

-- Whatever happens on the page, each request it has sent is for its transaction, and is a score of
-- one to five stars, or a description that is trimmed and not empty.
pub on_policy_all-IsGood :
    (txn : Value) (es : List PolicyEvent)
    → All (IsGood txn) (on_policy_all txn es mount_policy).sent
on_policy_all-IsGood txn es =
    IsFine.sent (on_policy_all-IsFine txn es mount_policy (mount_policy-IsFine txn))
