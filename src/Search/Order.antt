-- ===== src/Search/Order.antt =====
-- The order of the products found.
use mathlib.Core.List.{Perm}
use mathlib.Core.List.Perm
use ion_insurance_testapp.Prelude.{
  ℕ, String, Bool, true, false, ◌≡◌, refl, List, [], ◌∷◌, some, str_eq, ◌==◌, if◌then◌else◌, keep,
  All, arith, ==_iff,
}
use ion_insurance_testapp.Js.{Value, get, is_nullish}
use ion_insurance_testapp.Js.Sort.{
  sort_by, rising, falling, IsOrdered, sort_by-perm, sort_by-keep, sort_by-IsOrdered,
  sort_by_ordered, rising_total, rising_through, falling_total, falling_through,
}
use ion_insurance_testapp.Search.Discover.{parse_discover_response}
use ion_insurance_testapp.Search.{rate_min, sorted_for, first, search, found}

same_rate :
    (r : ℕ) (x y : Value)
    → (rate_min x == r) ≡ true
    → (rate_min y == r) ≡ true
    → rising rate_min x y ≡ true
same_rate r x y h k = ground (arith, ==_iff (rate_min x) r, ==_iff (rate_min y) r)

abbrev order : (asc desc : Bool) → Value → Value → Bool
order asc desc x y =
    if asc then rising rate_min x y else if desc then falling rate_min x y else true

-- The order that a choice asks for: by rising rate, by falling rate, or any.
abbrev pub order_for : String → Value → Value → Bool
order_for sort = order (str_eq sort "rate_asc") (str_eq sort "rate_desc")

-- The products found are rearranged into the order chosen, and products with the same rate keep
-- the order in which they came: whatever the choice.
pub sorted_for_stable :
    (sort : String) (ps : List Value) (r : ℕ)
    → IsOrdered (order_for sort) (sorted_for sort ps)
      × Perm (sorted_for sort ps) ps
      × (keep (λ p. rate_min p == r) (sorted_for sort ps) ≡ keep (λ p. rate_min p == r) ps)
unfolding sorted_for
sorted_for_stable sort ps r = either_order (str_eq sort "rate_asc") (str_eq sort "rate_desc")
  where
    any_all : (ps : List Value) → All (λ y. true ≡ true) ps
    any_all [] = tt
    any_all (p ∷ ps) = (refl, any_all ps)

    any_ordered : (ps : List Value) → IsOrdered (λ x y. true) ps
    any_ordered [] = tt
    any_ordered (p ∷ ps) = (any_all ps, any_ordered ps)

    either_order :
        (asc desc : Bool)
        → let found =
            if asc
            then sort_by (rising rate_min) ps
            else if desc
            then sort_by (falling rate_min) ps
            else ps in
          IsOrdered (order asc desc) found
          × Perm found ps
          × (keep (λ p. rate_min p == r) found ≡ keep (λ p. rate_min p == r) ps)
    either_order true desc = (
      sort_by-IsOrdered (rising rate_min) (rising_total rate_min) (rising_through rate_min) ps,
      sort_by-perm (rising rate_min) ps,
      sort_by-keep (rising rate_min) (λ p. rate_min p == r) ps (same_rate r),
    )
    either_order false true = (
      sort_by-IsOrdered (falling rate_min) (falling_total rate_min) (falling_through rate_min) ps,
      sort_by-perm (falling rate_min) ps,
      sort_by-keep (falling rate_min) (λ p. rate_min p == r) ps (λ x y h k. same_rate r y x k h),
    )
    either_order false false = (any_ordered ps, Perm.rfl, refl)

-- Neither of the two rates that the order reads: a resource of the insurer's wizard has its rates in
-- `premiumRateRange`, and gets them from its offer only.
abbrev pub IsUnrated : Value → Type 0
IsUnrated p =
    (is_nullish (get p "premiumRateMin") ≡ true) × (is_nullish (get p "premium_rate_min") ≡ true)

rate_min_unrated : (p : Value) → IsUnrated p → rate_min p ≡ 0
rate_min_unrated p h = rw (h.0, h.1) refl

unrated-All :
    (p : Value) (ps : List Value)
    → rate_min p ≡ 0
    → All IsUnrated ps
    → All (λ q. rising rate_min p q ≡ true) ps × All (λ q. falling rate_min p q ≡ true) ps
unrated-All p [] z h = (tt, tt)
unrated-All p (q ∷ qs) z h =
    let rest = unrated-All p qs z h.1 in
    let zq = rate_min_unrated q h.0 in ((rw (z, zq) refl, rest.0), (rw (z, zq) refl, rest.1))

unrated-IsOrdered :
    (ps : List Value)
    → All IsUnrated ps
    → IsOrdered (rising rate_min) ps × IsOrdered (falling rate_min) ps
unrated-IsOrdered [] h = (tt, tt)
unrated-IsOrdered (p ∷ ps) h =
    let here = unrated-All p ps (rate_min_unrated p h.0) h.1 in
    let rest = unrated-IsOrdered ps h.1 in ((here.0, rest.0), (here.1, rest.1))

-- When no product of an answer has one of the two rates, the choice of an order changes nothing: a
-- search shows what the answer to the page's first request would show.
pub found_unrated :
    (query sort : String) (answer : Value) (ps : List Value)
    → parse_discover_response answer ≡ some ps
    → All IsUnrated ps
    → found (search query sort) answer ≡ found first answer
unfolding found sorted_for
found_unrated query sort answer ps parsed h =
    let ordered = unrated-IsOrdered ps h in
    ground (
      arith,
      parsed,
      sort_by_ordered (rising rate_min) ps ordered.0,
      sort_by_ordered (falling rate_min) ps ordered.1,
    )
