-- ===== src/Flow/Quote.antt =====
-- PolicyFlowPage.jsx, QuoteStep: what it reads from the answer to `/api/v1/select`.
use ion_insurance_testapp.Prelude.{
  ℕ, zero, suc, String, List, [], ◌∷◌, Option, none, some, ◌==◌, if◌then◌else◌, ◌≡◌, refl, arith,
}
use ion_insurance_testapp.Js.{
  Value, undefined, num, str, arr, obj, Items, nil, item, Fields, end, field, ◌or◌, get, first,
  is_nullish, is_text, empty_object,
}

-- `answer?.message?.contract?.commitments?.[0]`
abbrev pub commitment : Value → Value
commitment answer = first (get (get (get answer "message") "contract") "commitments")

-- `breakup.find(b => b.title === title)`, where a missing entry is `undefined`. Reading the title
-- of null or undefined throws, and so does `find` on what is no array.
abbrev find_title : String → Items → Option Value
find_title title nil = some undefined
find_title title (item v vs) =
    let rest = find_title title vs in
    if is_nullish v then none else if is_text (get v "title") title then some v else rest

abbrev find_entry : String → Value → Option Value
find_entry title (arr vs) = find_title title vs
find_entry title v = none

infixl 5 ◌>>=◌
abbrev ◌>>=◌ : {A B : Type 0} → Option A → (A → Option B) → Option B
none >>= f = none
some a >>= f = f a

pub record QuoteView : Type 0 where
  pub approved_idv : Value
  pub annual_premium : Value
  pub base_premium : Value
  pub admin_fee : Value
  pub stamp_duty : Value
  pub valid_until : Value

-- The amounts on the page, or none where rendering throws.
unfoldable pub quote_view : Value → Option QuoteView
quote_view quote_data =
    let attrs = get (get (commitment quote_data) "offer") "offerAttributes" or empty_object in
    let breakup = get attrs "breakup" or arr nil in
    do
      base ← find_entry "Base Premium" breakup
      admin ← find_entry "Admin Fee" breakup
      stamp ← find_entry "Stamp Duty" breakup
      some record {
        approved_idv = get attrs "approvedIDV" or get attrs "approvedIdv" or num 0;
        annual_premium = get attrs "annualPremiumIDR" or get attrs "totalPremium" or num 0;
        base_premium = get base "amountIDR" or num 0;
        admin_fee = get admin "amountIDR" or num 0;
        stamp_duty = get stamp "amountIDR" or num 10000;
        valid_until = get attrs "quoteValidUntil";
      }

abbrev pub object : List (String × Value) → Value
object kvs = obj (fields kvs)
  where
    fields : List (String × Value) → Fields
    fields [] = end
    fields ((k, v) ∷ more) = field k v (fields more)

abbrev entry : String → ℕ → Value
entry title n = object (("title", str title) ∷ ("amountIDR", num n) ∷ [])

abbrev pub contract : Value → Value
contract c =
    object (
      ("message", object (("contract", object (("commitments", arr (item c nil)) ∷ [])) ∷ [])) ∷ [])

-- An answer to a selection as the insurer's side builds it.
abbrev pub on_select : (idv premium base admin stamp : ℕ) → Value
on_select idv premium base admin stamp = contract (
    object (
      (
        "offer",
        object (
            (
              "offerAttributes",
              object (
                  ("approvedIDV", num idv)
                  ∷ ("annualPremiumIDR", num premium)
                  ∷ (
                    "breakup",
                    arr (
                        item (entry "Base Premium" base)
                          (item (entry "Admin Fee" admin) (item (entry "Stamp Duty" stamp) nil))),
                  )
                  ∷ []),
            )
            ∷ []),
      )
      ∷ []))

num-or_zero : (n : ℕ) → num n or num 0 ≡ num n
num-or_zero zero = refl
num-or_zero (suc n) = refl

num-or : (n d : ℕ) → num n or num d ≡ (if n == 0 then num d else num n)
num-or zero d = refl
num-or (suc n) d = ground arith

-- Of an answer with the approved value, the premium and the three entries of its breakup, the page
-- shows each amount that is not zero as it is. It shows a stamp duty of zero as 10000.
pub quote_view-on_select :
    (idv premium base admin stamp : ℕ)
    → quote_view (on_select idv premium base admin stamp)
      ≡ some record {
        approved_idv = num idv;
        annual_premium = num premium;
        base_premium = num base;
        admin_fee = num admin;
        stamp_duty = if stamp == 0 then num 10000 else num stamp;
        valid_until = undefined;
      }
unfolding quote_view
quote_view-on_select idv premium base admin stamp =
    rw (
      num-or_zero idv,
      num-or_zero premium,
      num-or_zero base,
      num-or_zero admin,
      num-or stamp 10000,
    )
