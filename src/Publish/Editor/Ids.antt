-- ===== src/Publish/Editor/Ids.antt =====
-- The ids in the lists of the wizard.
use ion_insurance_testapp.Prelude.{
  ℕ, zero, suc, ◌+◌, ◌<◌, String, false, ◌≡◌, ◌≢◌, refl, sym, List, [], ◌∷◌, ◌++◌, Option, none,
  some, inl, inr, Bool-cases, set, erase_idx, All, All-append, All-set, All-erase_idx, subst, arith,
  eq_iff,
}
use ion_insurance_testapp.Js.{trim}
use ion_insurance_testapp.Publish.Editor.{Kind, Editor, is_at, taken, store, handle_add, remove}

module _ {ℓ} {A : Type ℓ} (k : Kind A) where
  -- No later item has the id of an earlier one.
  abbrev pub Distinct : List A → Type 0
  Distinct [] = Unit
  Distinct (x ∷ xs) = All (λ y. k.item_id y ≢ k.item_id x) xs × Distinct xs

  -- No item but the one at the index in question has this id.
  abbrev Free : String → Option ℕ → ℕ → List A → Type 0
  Free id skip n [] = Unit
  Free id skip n (x ∷ xs) = (is_at skip n ≡ false → k.item_id x ≢ id) × Free id skip (suc n) xs

  taken-Free :
      (id : String) (skip : Option ℕ) (n : ℕ) (xs : List A)
      → taken k id skip n xs ≡ false
      → Free id skip n xs
  unfolding taken
  taken-Free id skip n [] h = tt
  taken-Free id skip n (x ∷ xs) h =
      (ground (arith, eq_iff (k.item_id x) id), taken-Free id skip (suc n) xs (ground arith))

  Free-All :
      (id : String) (n : ℕ) (xs : List A) → Free id none n xs → All (λ x. k.item_id x ≢ id) xs
  Free-All id n [] h = tt
  Free-All id n (x ∷ xs) h = (h.0 refl, Free-All id (suc n) xs h.1)

  -- Past the skipped index nothing is skipped.
  Free-past :
      (id : String) (i n : ℕ) (xs : List A)
      → i < n
      → Free id (some i) n xs
      → All (λ x. k.item_id x ≢ id) xs
  Free-past id i n [] lt h = tt
  Free-past id i n (x ∷ xs) lt h = (h.0 (ground arith), Free-past id i (suc n) xs (omega arith) h.1)

  Distinct-append :
      (xs : List A) (d : A)
      → Distinct xs
      → All (λ x. k.item_id x ≢ k.item_id d) xs
      → Distinct (xs ++ d ∷ [])
  Distinct-append [] d h a = (tt, tt)
  Distinct-append (x ∷ xs) d h a = (
    All-append (λ y. k.item_id y ≢ k.item_id x) xs (d ∷ []) h.0 ((λ e. a.0 (sym e)), tt),
    Distinct-append xs d h.1 a.1,
  )

  Distinct-set :
      (xs : List A) (n i : ℕ) (d : A)
      → Distinct xs
      → Free (k.item_id d) (some (n + i)) n xs
      → Distinct (set xs i d)
  Distinct-set [] n i d h f = tt
  Distinct-set (x ∷ xs) n zero d h f =
      (Free-past (k.item_id d) (n + 0) (suc n) xs (omega arith) f.1, h.1)
  Distinct-set (x ∷ xs) n (suc i) d h f =
      let e : n + suc i ≡ suc n + i = omega arith in
      (
        All-set (λ y. k.item_id y ≢ k.item_id x) xs i d h.0 (λ e. f.0 (ground arith) (sym e)),
        Distinct-set xs (suc n) i d h.1
            (subst (λ (j : ℕ). Free (k.item_id d) (some j) (suc n) xs) e f.1),
      )

  Distinct-erase_idx : (xs : List A) (i : ℕ) → Distinct xs → Distinct (erase_idx xs i)
  Distinct-erase_idx [] i h = tt
  Distinct-erase_idx (x ∷ xs) zero h = h.1
  Distinct-erase_idx (x ∷ xs) (suc i) h =
      (All-erase_idx (λ y. k.item_id y ≢ k.item_id x) xs i h.0, Distinct-erase_idx xs i h.1)

  Distinct-store :
      (xs : List A) (skip : Option ℕ) (d : A)
      → Distinct xs
      → Free (k.item_id d) skip 0 xs
      → Distinct (store skip d xs)
  Distinct-store xs none d h f = Distinct-append xs d h (Free-All (k.item_id d) 0 xs f)
  Distinct-store xs (some i) d h f =
      let e : i ≡ 0 + i = omega arith in
      Distinct-set xs 0 i d h (subst (λ (j : ℕ). Free (k.item_id d) (some j) 0 xs) e f)

  -- Saving a draft whose id has no space around it keeps the ids of the list distinct, whether
  -- the draft is new or replaces the item being edited, and whether it is accepted or refused.
  pub handle_add-Distinct :
      (e : Editor A)
      → Distinct e.items
      → trim (k.item_id e.draft) ≡ k.item_id e.draft
      → Distinct (handle_add k e).items
  unfolding handle_add
  handle_add-Distinct e h t = elim (Bool-cases (k.is_complete e.draft)) [
    | inr missing ↦ rw missing h
    | inl full ↦
        rw full (elim (Bool-cases (taken k (trim (k.item_id e.draft)) e.edit_idx 0 e.items)) [
          | inl used ↦ rw used h
          | inr free ↦ rw free (
              Distinct-store e.items e.edit_idx e.draft h
                (taken-Free (k.item_id e.draft) e.edit_idx 0 e.items (rw t at free)))
        ])
  ]

  pub remove-Distinct : (e : Editor A) (i : ℕ) → Distinct e.items → Distinct (remove i e).items
  unfolding remove
  remove-Distinct e i h = Distinct-erase_idx e.items i h
