-- ===== src/Publish/Editor/Stale.antt =====
-- Ids with space around them, and a card removed while another one is being edited.
use ion_insurance_testapp.Prelude.{
  ℕ, suc, ◌<◌, String, true, false, ◌≡◌, ◌≢◌, refl, List, [], ◌∷◌, ◌++◌, none, some, length,
  get_elem?, erase_idx, arith, eq_iff,
}
use ion_insurance_testapp.Js.{trim}
use ion_insurance_testapp.Publish.Editor.{
  Kind, Editor, taken, mount, handle_add, edit, bin, open_panel, save, input, press,
}
use ion_insurance_testapp.Publish.Editor.Save.{get_elem?-set_self, get_elem?-set_ne}

module _ {ℓ} {A : Type ℓ} (k : Kind A) where
  taken-append :
      (id : String) (n : ℕ) (xs : List A) (d : A)
      → taken k id none n xs ≡ false
      → k.item_id d ≢ id
      → taken k id none n (xs ++ d ∷ []) ≡ false
  unfolding taken
  taken-append id n [] d h p = ground (arith, eq_iff (k.item_id d) id)
  taken-append id n (x ∷ xs) d h p = ground (arith, taken-append id (suc n) xs d)

  -- An id with space around it is compared trimmed but stored as typed, so the same draft can be
  -- added twice, and the list holds its id twice.
  pub add-add_untrimmed :
      (xs : List A) (d : A)
      → k.is_complete d ≡ true
      → trim (k.item_id d) ≢ k.item_id d
      → taken k (trim (k.item_id d)) none 0 xs ≡ false
      → let add = λ (e : Editor A). press k save (press k (open_panel d) e) in
        add (add (mount k xs)) ≡ mount k ((xs ++ d ∷ []) ++ d ∷ [])
  unfolding press handle_add
  add-add_untrimmed xs d full untrimmed free =
      ground (arith, taken-append (trim (k.item_id d)) 0 xs d)

  get_elem?-erase_idx_zero :
      (xs : List A) (i : ℕ) → get_elem? (erase_idx xs 0) i ≡ get_elem? xs (suc i)
  get_elem?-erase_idx_zero [] i = refl
  get_elem?-erase_idx_zero (x ∷ xs) i = refl

  -- While item `i + 1` is being edited the first card can still be removed. The index being edited
  -- is not moved, so saving leaves the edited item, now at `i`, as it was, and overwrites the item
  -- after it.
  pub save-bin-edit :
      (e : Editor A) (i : ℕ) (x : A) (f : A → A)
      → get_elem? e.items (suc i) ≡ some x
      → suc i < length (erase_idx e.items 0)
      → k.is_complete (f x) ≡ true
      → taken k (trim (k.item_id (f x))) (some (suc i)) 0 (erase_idx e.items 0) ≡ false
      → let saved = press k save (press k (input f) (press k (bin 0) (press k (edit (suc i)) e))) in
        (get_elem? saved.items i ≡ some x) × (get_elem? saved.items (suc i) ≡ some (f x))
  unfolding press handle_add
  save-bin-edit e i x f found room full free = ground (
    arith,
    get_elem?-set_self (erase_idx e.items 0) (suc i) (f x),
    get_elem?-set_ne (erase_idx e.items 0) (suc i) i (f x),
    get_elem?-erase_idx_zero e.items i,
  )
