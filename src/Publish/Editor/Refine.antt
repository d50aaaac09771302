-- ===== src/Publish/Editor/Refine.antt =====
-- The list of a step implements a map from ids to items.
use ion_insurance_testapp.Prelude.{
  ℕ, zero, suc, String, Bool, true, false, not, ◌&&◌, ◌≡◌, refl, sym, ap, ◌∙◌, List, [], ◌∷◌,
  Option, none, some, inl, inr, Bool-cases, Option-cases, erase_idx, get_elem?, is_some, arith,
  str_eq, if◌then◌else◌,
}
use ion_insurance_testapp.Js.{trim}
use ion_insurance_testapp.Publish.Editor.{Kind, Editor, taken, store, handle_add, remove}
use ion_insurance_testapp.Publish.Editor.Ids.{Distinct}
use ion_insurance_testapp.Publish.Editor.ById.{
  by_id, is_old, save_in, by_id-none, All-id, is_old-get_elem?, taken-none, taken-by_id,
  by_id-append, by_id-set,
}

-- The index being edited, if any, is that of an item.
abbrev pub IsInRange {ℓ} : {A : Type ℓ} → Option ℕ → List A → Type 0
IsInRange none xs = Unit
IsInRange (some i) xs = is_some (get_elem? xs i) ≡ true

-- The item that is being edited.
abbrev pub edited {ℓ} : {A : Type ℓ} → Option ℕ → List A → Option A
edited none xs = none
edited (some i) xs = get_elem? xs i

module _ {ℓ} {A : Type ℓ} (k : Kind A) where
  -- Whether another item than the one being edited has the id.
  abbrev clash : Option ℕ → String → List A → Bool
  clash skip id xs = is_some (by_id k xs id) && not (is_old k (edited skip xs) id)

  taken-clash :
      (skip : Option ℕ) (id : String) (xs : List A)
      → Distinct k xs
      → taken k id skip 0 xs ≡ clash skip id xs
  taken-clash none id xs h = ground (arith, taken-none k id 0 xs)
  taken-clash (some i) id xs h = taken-by_id k id i 0 i xs (omega arith) h

  by_id-store :
      (skip : Option ℕ) (d : A) (xs : List A) (q : String)
      → Distinct k xs
      → IsInRange skip xs
      → clash skip (k.item_id d) xs ≡ false
      → by_id k (store skip d xs) q ≡ (
          if str_eq (k.item_id d) q
          then some d
          else if is_old k (edited skip xs) q
          then none
          else by_id k xs q)
  by_id-store none d xs q h r free = elim (Option-cases (by_id k xs (k.item_id d))) [
    | inl absent ↦ by_id-append k xs d q absent
    | inr there ↦ absurd (ground (arith, there.1))
  ]
  by_id-store (some i) d xs q h r free = elim (Option-cases (get_elem? xs i)) [
    | inl absent ↦ absurd (ground (arith, absent))
    | inr there ↦
        by_id-set k xs i there.0 d q h there.1 (
          ap (λ o. is_some (by_id k xs (k.item_id d)) && not (is_old k o (k.item_id d)))
            (sym there.1)
          ∙ free)
        ∙ ap
            (λ o.
              if str_eq (k.item_id d) q
              then some d
              else if is_old k o q
              then none
              else by_id k xs q)
            (sym there.1)
  ]

  by_id-erase_idx :
      (xs : List A) (i : ℕ) (q : String)
      → Distinct k xs
      → by_id k (erase_idx xs i) q ≡ (if is_old k (get_elem? xs i) q then none else by_id k xs q)
  by_id-erase_idx [] i q h = refl
  by_id-erase_idx (y ∷ ys) zero q h = elim (Bool-cases (str_eq (k.item_id y) q)) [
    | inl own ↦ ground (arith, by_id-none k q ys (All-id k q y ys own h.0))
    | inr other ↦ ground arith
  ]
  by_id-erase_idx (y ∷ ys) (suc i) q h = elim (Bool-cases (str_eq (k.item_id y) q)) [
    | inl own ↦ ground (arith, is_old-get_elem? k q i ys (All-id k q y ys own h.0))
    | inr other ↦ ground (arith, by_id-erase_idx ys i q h.1)
  ]

  -- For a list with distinct ids and a complete draft whose id has no space around it, where the
  -- index being edited is that of an item: seen as a map from ids to items, saving the draft does what
  -- `save_in` does to the map, whether the draft is accepted or refused; and the bin of a card takes
  -- the id of its item out of the map and nothing else.
  pub handle_add-save_in :
      (e : Editor A) (i : ℕ) (q : String)
      → Distinct k e.items
      → IsInRange e.edit_idx e.items
      → k.is_complete e.draft ≡ true
      → trim (k.item_id e.draft) ≡ k.item_id e.draft
      → (by_id k (handle_add k e).items q
          ≡ save_in k (edited e.edit_idx e.items) e.draft (by_id k e.items) q)
        × (by_id k (remove i e).items q
            ≡ (if is_old k (get_elem? e.items i) q then none else by_id k e.items q))
  unfolding handle_add remove
  handle_add-save_in e i q h r full t = (
    elim (Bool-cases (clash e.edit_idx (k.item_id e.draft) e.items)) [
      | inl used ↦ rw (full, t, taken-clash e.edit_idx (k.item_id e.draft) e.items h, used) refl
      | inr free ↦
          rw (full, t, taken-clash e.edit_idx (k.item_id e.draft) e.items h, free)
            (by_id-store e.edit_idx e.draft e.items q h r free)
    ],
    by_id-erase_idx e.items i q h,
  )
