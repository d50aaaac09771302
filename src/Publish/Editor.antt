-- ===== src/Publish/Editor.antt =====
-- PublishPage.jsx: what ProvidersStep, CatalogsStep, ResourcesStep and OffersStep have in common.
-- Each step edits one list of the page's state through a draft; a `Kind` holds what differs.
-- The list belongs to the page and the other fields to the step, which React mounts afresh
-- whenever the page changes its step. Text inputs arrive as functions on the draft.
pub mod Ids
pub mod Save
pub mod Stale
pub mod ById
pub mod Refine
mod Tests
use ion_insurance_testapp.Prelude.{
  ℕ, suc, String, Bool, true, false, not, ◌&&◌, ◌||◌, List, [], ◌∷◌, ◌++◌, Option, none, some, ◌==◌,
  ltb, str_eq, if◌then◌else◌, length, get_elem?, set, erase_idx, is_some,
}
use ion_insurance_testapp.Js.{trim, concat}

-- `is_complete` is the early return of `handleAdd`: no blank id, name or provider. `noun` is the
-- word in the message of a clash.
pub record Kind {ℓ} (A : Type ℓ) : Type ℓ where
  pub item_id : A → String
  pub is_complete : A → Bool
  pub blank : A
  pub noun : String

pub record Editor {ℓ} (A : Type ℓ) : Type ℓ where
  pub items : List A
  pub drafting : Bool
  pub edit_idx : Option ℕ
  pub draft : A
  pub field_error : String

-- `i === editIdx`, where `editIdx` may be null
abbrev pub is_at : Option ℕ → ℕ → Bool
is_at none i = false
is_at (some e) i = e == i

abbrev pub clash_message : String → String → String
clash_message id noun = concat ("ID \"" ∷ id ∷ "\" is already used by another " ∷ noun ∷ "." ∷ [])

module _ {ℓ} {A : Type ℓ} where
  -- `items.some((p, i) => p.id === id && i !== editIdx)`, from the index `i` on
  unfoldable pub taken : Kind A → String → Option ℕ → ℕ → List A → Bool
  taken k id edit_idx i [] = false
  taken k id edit_idx i (x ∷ xs) =
      (str_eq (k.item_id x) id && not (is_at edit_idx i)) || taken k id edit_idx (suc i) xs

  -- The draft put in place: `map` over the list with an index, or an append.
  abbrev pub store : Option ℕ → A → List A → List A
  store none d xs = xs ++ d ∷ []
  store (some i) d xs = set xs i d

  -- The step as React mounts it.
  abbrev pub mount : Kind A → List A → Editor A
  mount k xs = record {
    items = xs;
    drafting = false;
    edit_idx = none;
    draft = k.blank;
    field_error = "";
  }

  unfoldable pub start_edit : ℕ → Editor A → Editor A
  start_edit i e = elim (get_elem? e.items i) [
    | none ↦ e
    | some x ↦ record e { edit_idx = some i; draft = x; drafting = true; field_error = "" }
  ]

  unfoldable pub handle_cancel : Editor A → Editor A
  handle_cancel e = record e { drafting = false; edit_idx = none; field_error = "" }

  unfoldable pub handle_add : Kind A → Editor A → Editor A
  handle_add k e =
      let id = trim (k.item_id e.draft) in
      if not (k.is_complete e.draft)
      then e
      else if taken k id e.edit_idx 0 e.items
      then record e { field_error = clash_message id k.noun }
      else mount k (store e.edit_idx e.draft e.items)

  -- The bin of card `i`. It leaves `editIdx` as it is.
  unfoldable pub remove : ℕ → Editor A → Editor A
  remove i e = record e { items = erase_idx e.items i }

  -- The Add button below the cards: `setDraft(blank); setDrafting(true)`.
  unfoldable pub add_more : A → Editor A → Editor A
  add_more b e = record e { draft = b; drafting = true }

  -- An input of the panel, or Auto Fill.
  unfoldable pub change_draft : (A → A) → Editor A → Editor A
  change_draft f e = record e { draft = f e.draft }

-- What the user can press. The cards are always there, the panel only while drafting, and the
-- button that opens it only otherwise; Save is disabled while the draft is incomplete.
pub data Press {ℓ} (A : Type ℓ) : Type ℓ where
  edit : ℕ → Press A
  bin : ℕ → Press A
  open_panel : A → Press A
  cancel : Press A
  save : Press A
  input : (A → A) → Press A

unfoldable pub press {ℓ} : {A : Type ℓ} → Kind A → Press A → Editor A → Editor A
unfolding start_edit remove add_more handle_cancel change_draft
press k (edit i) e = start_edit i e
press k (bin i) e = remove i e
press k (open_panel b) e = if e.drafting then e else add_more b e
press k cancel e = if e.drafting then handle_cancel e else e
press k save e = if e.drafting && k.is_complete e.draft then handle_add k e else e
press k (input f) e = if e.drafting then change_draft f e else e
