-- ===== src/Js/Sort.antt =====
-- `Array.prototype.sort` with a comparator `(a, b) => key(a) - key(b)` or the other way round. The
-- standard fixes the result: ordered, and equal items keep their order.
use mathlib.Core.List.{Perm}
use mathlib.Core.List.Perm
use ion_insurance_testapp.Prelude.{
  ℕ, ◌≡◌, refl, Bool, true, false, List, [], ◌∷◌, leb, if◌then◌else◌, keep, All, arith, inl, inr,
  Bool-cases,
}

module _ {ℓ} {A : Type ℓ} (le : A → A → Bool) where
  unfoldable pub place : A → List A → List A
  place x [] = x ∷ []
  place x (y ∷ ys) = let rest = place x ys in if le x y then x ∷ y ∷ ys else y ∷ rest

  unfoldable pub sort_by : List A → List A
  sort_by [] = []
  sort_by (x ∷ xs) = place x (sort_by xs)

  place-perm : (x : A) (xs : List A) → Perm (place x xs) (x ∷ xs)
  unfolding place
  place-perm x [] = Perm.rfl
  place-perm x (y ∷ ys) = elim (Bool-cases (le x y)) [
    | inl before ↦ rw before Perm.rfl
    | inr after ↦ rw after (Perm.trans (Perm.cons y (place-perm x ys)) (Perm.swap x y ys))
  ]

  pub sort_by-perm : (xs : List A) → Perm (sort_by xs) xs
  unfolding sort_by
  sort_by-perm [] = Perm.rfl
  sort_by-perm (x ∷ xs) = Perm.trans (place-perm x (sort_by xs)) (Perm.cons x (sort_by-perm xs))

  -- No item comes after one that must not precede it.
  abbrev pub IsOrdered : List A → Type 0
  IsOrdered [] = Unit
  IsOrdered (x ∷ xs) = All (λ y. le x y ≡ true) xs × IsOrdered xs

  -- Where nothing has to move, nothing does.
  pub sort_by_ordered : (xs : List A) → IsOrdered xs → sort_by xs ≡ xs
  unfolding sort_by place
  sort_by_ordered [] h = refl
  sort_by_ordered (x ∷ []) h = refl
  sort_by_ordered (x ∷ y ∷ ys) h = rw (sort_by_ordered (y ∷ ys) h.1, h.0.0) refl

  All-place : (P : A → Type 0) (x : A) (xs : List A) → P x → All P xs → All P (place x xs)
  unfolding place
  All-place P x [] p h = (p, tt)
  All-place P x (y ∷ ys) p h = elim (Bool-cases (le x y)) [
    | inl before ↦ rw before (p, h)
    | inr after ↦ rw after (h.0, All-place P x ys p h.1)
  ]

  -- Items that may stand in either order keep the order that they have.
  place-keep :
      (p : A → Bool) (x : A) (xs : List A)
      → ((y : A) → p x ≡ true → p y ≡ true → le x y ≡ true)
      → keep p (place x xs) ≡ keep p (x ∷ xs)
  unfolding place
  place-keep p x [] h = refl
  place-keep p x (y ∷ ys) h = ground (arith, place-keep p x ys h, h y)

  pub sort_by-keep :
      (p : A → Bool) (xs : List A)
      → ((x y : A) → p x ≡ true → p y ≡ true → le x y ≡ true)
      → keep p (sort_by xs) ≡ keep p xs
  unfolding sort_by
  sort_by-keep p [] h = refl
  sort_by-keep p (x ∷ xs) h = ground (arith, place-keep p x (sort_by xs) (h x), sort_by-keep p xs h)

  module _ (total : (x y : A) → le x y ≡ false → le y x ≡ true)
      (through : (x y z : A) → le x y ≡ true → le y z ≡ true → le x z ≡ true) where
    All-through :
        (x y : A) (ys : List A)
        → le x y ≡ true
        → All (λ z. le y z ≡ true) ys
        → All (λ z. le x z ≡ true) ys
    All-through x y [] h t = tt
    All-through x y (z ∷ zs) h t = (through x y z h t.0, All-through x y zs h t.1)

    place-IsOrdered : (x : A) (xs : List A) → IsOrdered xs → IsOrdered (place x xs)
    unfolding place
    place-IsOrdered x [] h = (tt, tt)
    place-IsOrdered x (y ∷ ys) h = elim (Bool-cases (le x y)) [
      | inl before ↦ rw before ((before, All-through x y ys before h.0), h)
      | inr after ↦
          rw after
            (All-place (λ z. le y z ≡ true) x ys (total x y after) h.0, place-IsOrdered x ys h.1)
    ]

    pub sort_by-IsOrdered : (xs : List A) → IsOrdered (sort_by xs)
    unfolding sort_by
    sort_by-IsOrdered [] = tt
    sort_by-IsOrdered (x ∷ xs) = place-IsOrdered x (sort_by xs) (sort_by-IsOrdered xs)

-- `key(a) - key(b)` and `key(b) - key(a)`
abbrev pub rising {ℓ} : {A : Type ℓ} → (A → ℕ) → A → A → Bool
rising key x y = leb (key x) (key y)

abbrev pub falling {ℓ} : {A : Type ℓ} → (A → ℕ) → A → A → Bool
falling key x y = leb (key y) (key x)

module _ {ℓ} {A : Type ℓ} (key : A → ℕ) where
  pub rising_total : (x y : A) → rising key x y ≡ false → rising key y x ≡ true
  rising_total x y h = ground arith

  pub rising_through :
      (x y z : A) → rising key x y ≡ true → rising key y z ≡ true → rising key x z ≡ true
  rising_through x y z h k = ground arith

  pub falling_total : (x y : A) → falling key x y ≡ false → falling key y x ≡ true
  falling_total x y h = ground arith

  pub falling_through :
      (x y z : A) → falling key x y ≡ true → falling key y z ≡ true → falling key x z ≡ true
  falling_through x y z h k = ground arith
