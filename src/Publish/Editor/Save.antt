-- ===== src/Publish/Editor/Save.antt =====
-- What pressing the buttons of a step does to its state.
use ion_insurance_testapp.Prelude.{
  ℕ, zero, suc, ◌<◌, true, false, ◌≡◌, ◌≢◌, refl, ap, ◌∙◌, List, [], ◌∷◌, ◌++◌, Option, none, some,
  length, get_elem?, set, arith, nonempty, nonempty-append, nonempty-set,
}
use ion_insurance_testapp.Js.{trim}
use ion_insurance_testapp.Publish.Editor.{
  Kind, Editor, taken, store, mount, clash_message, handle_add, Press, edit, open_panel, save,
  input, press,
}

module _ {ℓ} {A : Type ℓ} where
  -- A closed panel has no index being edited and no message.
  pub record IsIdle (e : Editor A) : Type 0 where
    pub no_index : e.drafting ≡ false → e.edit_idx ≡ none
    pub no_error : e.drafting ≡ false → e.field_error ≡ ""

  handle_add-IsIdle : (k : Kind A) (e : Editor A) → e.drafting ≡ true → IsIdle (handle_add k e)
  unfolding handle_add
  handle_add-IsIdle k e v = ground arith

  -- Whatever is pressed, a closed panel has no index being edited and no message: the Add button
  -- always starts a new item.
  pub press-IsIdle : (k : Kind A) (p : Press A) (e : Editor A) → IsIdle e → IsIdle (press k p e)
  unfolding press
  press-IsIdle k save e v = ground (arith, handle_add-IsIdle k e)
  press-IsIdle k p e v = ground arith

  pub nonempty-store :
      (i : Option ℕ) (d : A) (xs : List A) → nonempty xs ≡ true → nonempty (store i d xs) ≡ true
  nonempty-store none d xs h = nonempty-append xs d
  nonempty-store (some i) d xs h = nonempty-set xs i d ∙ h

  pub get_elem?-set_self :
      (xs : List A) (i : ℕ) (v : A) → i < length xs → get_elem? (set xs i v) i ≡ some v
  get_elem?-set_self [] i v h = absurd (omega arith)
  get_elem?-set_self (x ∷ xs) zero v h = refl
  get_elem?-set_self (x ∷ xs) (suc i) v h = get_elem?-set_self xs i v (omega arith)

  pub get_elem?-set_ne :
      (xs : List A) (i j : ℕ) (v : A) → i ≢ j → get_elem? (set xs i v) j ≡ get_elem? xs j
  get_elem?-set_ne [] i j v h = refl
  get_elem?-set_ne (x ∷ xs) zero zero v h = absurd (h refl)
  get_elem?-set_ne (x ∷ xs) zero (suc j) v h = refl
  get_elem?-set_ne (x ∷ xs) (suc i) zero v h = refl
  get_elem?-set_ne (x ∷ xs) (suc i) (suc j) v h = get_elem?-set_ne xs i j v (λ e. h (ap suc e))

  -- Editing card `i` with any input and saving a complete draft whose id no other item has puts
  -- the draft in the place of that item, changes no other item, and closes the panel.
  pub save-input-edit :
      (k : Kind A) (e : Editor A) (i : ℕ) (x : A) (f : A → A)
      → get_elem? e.items i ≡ some x
      → k.is_complete (f x) ≡ true
      → taken k (trim (k.item_id (f x))) (some i) 0 e.items ≡ false
      → press k save (press k (input f) (press k (edit i) e)) ≡ mount k (set e.items i (f x))
  unfolding press handle_add
  save-input-edit k e i x f found full free = ground arith

  -- Filling a new draft and saving it appends it, under the same conditions.
  pub save-input-open_panel :
      (k : Kind A) (e : Editor A) (b : A) (f : A → A)
      → IsIdle e
      → e.drafting ≡ false
      → k.is_complete (f b) ≡ true
      → taken k (trim (k.item_id (f b))) none 0 e.items ≡ false
      → press k save (press k (input f) (press k (open_panel b) e)) ≡ mount k (e.items ++ f b ∷ [])
  unfolding press handle_add
  save-input-open_panel k e b f v shut full free = ground arith

  -- A complete draft whose trimmed id is the id of another item is refused: the list, the draft
  -- and the index being edited stay, and the message names the id.
  pub save_clash :
      (k : Kind A) (e : Editor A)
      → e.drafting ≡ true
      → k.is_complete e.draft ≡ true
      → taken k (trim (k.item_id e.draft)) e.edit_idx 0 e.items ≡ true
      → press k save e ≡ record e { field_error = clash_message (trim (k.item_id e.draft)) k.noun }
  unfolding press handle_add
  save_clash k e on full used = ground arith
