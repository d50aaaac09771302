-- ===== src/Publish/Editor/ById.antt =====
-- The list of a step as a map from ids to items.
use mathlib.Core.Option.{some-ne-none, some-injective}
use ion_insurance_testapp.Prelude.{
  ℕ, zero, suc, ◌+◌, ◌<◌, String, Bool, true, false, not, ◌&&◌, ◌≡◌, ◌≢◌, refl, sym, ap, ◌∙◌, List,
  [], ◌∷◌, ◌++◌, Option, none, some, inl, inr, Bool-cases, set, get_elem?, find, is_some, All,
  subst, arith, eq_iff, str_eq, if◌then◌else◌,
}
use ion_insurance_testapp.Publish.Editor.{Kind, taken}
use ion_insurance_testapp.Publish.Editor.Ids.{Distinct}

module _ {ℓ} {A : Type ℓ} (k : Kind A) where
  -- The map that a list stands for.
  abbrev pub by_id : List A → String → Option A
  by_id xs q = find (λ x. str_eq (k.item_id x) q) xs

  -- Whether the item that is being edited, if any, has this id.
  abbrev pub is_old : Option A → String → Bool
  is_old none q = false
  is_old (some x) q = str_eq (k.item_id x) q

  -- Saving a draft in such a map: refused if another item has its id, else under its id, and no
  -- longer under that of the item that it replaces.
  abbrev pub save_in : Option A → A → (String → Option A) → String → Option A
  save_in old d m q =
      if is_some (m (k.item_id d)) && not (is_old old (k.item_id d))
      then m q
      else if str_eq (k.item_id d) q
      then some d
      else if is_old old q
      then none
      else m q

  pub by_id-none : (q : String) (xs : List A) → All (λ y. k.item_id y ≢ q) xs → by_id xs q ≡ none
  by_id-none q [] h = refl
  by_id-none q (x ∷ xs) h = ground (arith, h.0, eq_iff (k.item_id x) q, by_id-none q xs h.1)

  pub taken-none :
      (id : String) (n : ℕ) (xs : List A) → taken k id none n xs ≡ is_some (by_id xs id)
  unfolding taken
  taken-none id n [] = refl
  taken-none id n (x ∷ xs) = ground (arith, taken-none id (suc n) xs)

  taken_past :
      (id : String) (i n : ℕ) (xs : List A)
      → i < n
      → taken k id (some i) n xs ≡ is_some (by_id xs id)
  unfolding taken
  taken_past id i n [] lt = refl
  taken_past id i n (x ∷ xs) lt = ground (arith, taken_past id i (suc n) xs)

  pub is_old-get_elem? :
      (q : String) (i : ℕ) (xs : List A)
      → All (λ y. k.item_id y ≢ q) xs
      → is_old (get_elem? xs i) q ≡ false
  is_old-get_elem? q i [] h = refl
  is_old-get_elem? q zero (x ∷ xs) h = ground (arith, h.0, eq_iff (k.item_id x) q)
  is_old-get_elem? q (suc i) (x ∷ xs) h = is_old-get_elem? q i xs h.1

  -- What is said of the first item is said of a text that is its id.
  pub All-id :
      (id : String) (y : A) (ys : List A)
      → str_eq (k.item_id y) id ≡ true
      → All (λ x. k.item_id x ≢ k.item_id y) ys
      → All (λ x. k.item_id x ≢ id) ys
  All-id id y ys e h = subst (λ q. All (λ x. k.item_id x ≢ q) ys) ((eq_iff (k.item_id y) id).0 e) h

  -- The test of `handleAdd` asks whether another item has the id.
  pub taken-by_id :
      (id : String) (i n j : ℕ) (xs : List A)
      → j ≡ n + i
      → Distinct k xs
      → taken k id (some j) n xs ≡ (is_some (by_id xs id) && not (is_old (get_elem? xs i) id))
  unfolding taken
  taken-by_id id i n j [] e h = refl
  taken-by_id id zero n j (y ∷ ys) e h = elim (Bool-cases (str_eq (k.item_id y) id)) [
    | inl own ↦
        ground (
          arith,
          taken_past id j (suc n) ys (omega arith),
          by_id-none id ys (All-id id y ys own h.0),
        )
    | inr other ↦ ground (arith, taken_past id j (suc n) ys (omega arith))
  ]
  taken-by_id id (suc i) n j (y ∷ ys) e h = elim (Bool-cases (str_eq (k.item_id y) id)) [
    | inl own ↦ ground (arith, is_old-get_elem? id i ys (All-id id y ys own h.0))
    | inr other ↦ ground (arith, taken-by_id id i (suc n) j ys (omega arith) h.1)
  ]

  pub by_id-append :
      (xs : List A) (d : A) (q : String)
      → by_id xs (k.item_id d) ≡ none
      → by_id (xs ++ d ∷ []) q ≡ (if str_eq (k.item_id d) q then some d else by_id xs q)
  by_id-append [] d q h = refl
  by_id-append (x ∷ xs) d q h = ground (
    arith,
    by_id-append xs d q,
    eq_iff (k.item_id d) q,
    eq_iff (k.item_id x) q,
    eq_iff (k.item_id x) (k.item_id d),
  )

  -- An item after the first has another id than the first.
  later_id :
      (y : A) (ys : List A) (i : ℕ) (x : A) (q : String)
      → Distinct k (y ∷ ys)
      → get_elem? ys i ≡ some x
      → str_eq (k.item_id y) q ≡ true
      → str_eq (k.item_id x) q ≡ false
  later_id y ys i x q h e own =
      ap (λ o. is_old o q) (sym e) ∙ is_old-get_elem? q i ys (All-id q y ys own h.0)

  -- After the item at an index is replaced by one whose id no other item has.
  pub by_id-set :
      (xs : List A) (i : ℕ) (x d : A) (q : String)
      → Distinct k xs
      → get_elem? xs i ≡ some x
      → (is_some (by_id xs (k.item_id d)) && not (is_old (some x) (k.item_id d))) ≡ false
      → by_id (set xs i d) q ≡ (
          if str_eq (k.item_id d) q then some d else if is_old (some x) q then none else by_id xs q)
  by_id-set [] i x d q h e free = absurd (some-ne-none x (sym e))
  by_id-set (y ∷ ys) zero x d q h e free =
      let same : str_eq (k.item_id x) q ≡ str_eq (k.item_id y) q =
        ap (λ z. str_eq (k.item_id z) q) (sym (some-injective y x e)) in
      elim (Bool-cases (str_eq (k.item_id y) q)) [
        | inl own ↦ ground (arith, same, by_id-none q ys (All-id q y ys own h.0))
        | inr other ↦ ground (arith, same)
      ]
  by_id-set (y ∷ ys) (suc i) x d q h e free =
      elim (Bool-cases (str_eq (k.item_id y) (k.item_id d))) [
        | inl clash ↦ absurd (clashes (later_id y ys i x (k.item_id d) h e clash) clash free)
        | inr apart ↦
            let rest = by_id-set ys i x d q h.1 e (ground arith) in
            elim (Bool-cases (str_eq (k.item_id y) q)) [
              | inl own ↦ ground (
                arith,
                later_id y ys i x q h e own,
                eq_iff (k.item_id y) q,
                eq_iff (k.item_id d) q,
                eq_iff (k.item_id y) (k.item_id d),
              )
              | inr other ↦ ground (arith, rest)
            ]
      ]
    where
      clashes :
          str_eq (k.item_id x) (k.item_id d) ≡ false
          → str_eq (k.item_id y) (k.item_id d) ≡ true
          → (is_some (by_id (y ∷ ys) (k.item_id d)) && not (is_old (some x) (k.item_id d))) ≡ false
          → ⊥
      clashes a b c = ground arith
