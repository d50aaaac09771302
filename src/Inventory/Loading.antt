-- ===== src/Inventory/Loading.antt =====
-- The three requests of the inventory page.
use ion_insurance_testapp.Prelude.{
  Bool, true, false, ◌≡◌, refl, List, [], ◌∷◌, Option, none, some, ◌⊎◌, inl, inr, if◌then◌else◌,
}
use ion_insurance_testapp.Js.{Value, arr, nil}
use ion_insurance_testapp.Inventory.{
  Page, Answers, resources, offers, catalogs, list_in, mount, Event, answered, failed, choose_tab,
  handle, handle_all, all_of, fulfilled,
}

abbrev pub HasNothing : Page → Type 0
HasNothing p = (p.products ≡ arr nil) × (p.offers ≡ arr nil) × (p.catalogs ≡ arr nil)

-- The page waits for an answer, or shows an error, with empty lists, or shows all three answers.
abbrev pub IsAllOrNothing : Page → Type 0
IsAllOrNothing p =
    ((p.loading ≡ true) × (all_of p.answers ≡ none) × (p.error ≡ false) × HasNothing p)
    ⊎ (((p.loading ≡ false) × (p.error ≡ true) × HasNothing p)
        ⊎ ((r o c : Value) × (p.answers
              ≡ record { resources = some r; offers = some o; catalogs = some c })
            × (p.loading ≡ false)
            × (p.error ≡ false)
            × (p.products ≡ list_in "resources" r)
            × (p.offers ≡ list_in "offers" o)
            × (p.catalogs ≡ list_in "catalogs" c)))

fulfilled-IsAllOrNothing :
    (p : Page) (r o c : Option Value)
    → p.loading ≡ true
    → p.error ≡ false
    → HasNothing p
    → let a : Answers = record { resources = r; offers = o; catalogs = c } in
      IsAllOrNothing (fulfilled (all_of a) (record p { answers = a }))
fulfilled-IsAllOrNothing p none o c l e h = inl (l, refl, e, h)
fulfilled-IsAllOrNothing p (some r) none c l e h = inl (l, refl, e, h)
fulfilled-IsAllOrNothing p (some r) (some o) none l e h = inl (l, refl, e, h)
fulfilled-IsAllOrNothing p (some r) (some o) (some c) l e h =
    inr (inr (r, o, c, refl, refl, e, refl, refl, refl))

if_true : (P : Page → Type 0) (b : Bool) (x y : Page) → b ≡ true → P x → P (if b then x else y)
if_true P b x y e h = rw e h

if_false : (P : Page → Type 0) (b : Bool) (x y : Page) → b ≡ false → P y → P (if b then x else y)
if_false P b x y e h = rw e h

answered-IsAllOrNothing :
    (p : Page) (r o c : Option Value)
    → p.loading ≡ true
    → p.error ≡ false
    → HasNothing p
    → let a : Answers = record { resources = r; offers = o; catalogs = c } in
      IsAllOrNothing (if p.loading then fulfilled (all_of a) (record p { answers = a }) else p)
answered-IsAllOrNothing p r o c l e h =
    if_true IsAllOrNothing p.loading _ p l (fulfilled-IsAllOrNothing p r o c l e h)

handle-IsAllOrNothing : (e : Event) (p : Page) → IsAllOrNothing p → IsAllOrNothing (handle e p)
unfolding handle
handle-IsAllOrNothing (choose_tab t) p h = h
handle-IsAllOrNothing (failed r) p (inl h) =
    if_true IsAllOrNothing p.loading _ p h.0 (inr (inl (refl, refl, h.3)))
handle-IsAllOrNothing (failed r) p (inr (inl h)) =
    if_false IsAllOrNothing p.loading _ p h.0 (inr (inl h))
handle-IsAllOrNothing (failed r) p (inr (inr h)) =
    if_false IsAllOrNothing p.loading _ p (h.4) (inr (inr h))
handle-IsAllOrNothing (answered resources v) p (inl h) =
    answered-IsAllOrNothing p (some v) p.answers.offers p.answers.catalogs h.0 h.2 h.3
handle-IsAllOrNothing (answered offers v) p (inl h) =
    answered-IsAllOrNothing p p.answers.resources (some v) p.answers.catalogs h.0 h.2 h.3
handle-IsAllOrNothing (answered catalogs v) p (inl h) =
    answered-IsAllOrNothing p p.answers.resources p.answers.offers (some v) h.0 h.2 h.3
handle-IsAllOrNothing (answered r v) p (inr (inl h)) =
    if_false IsAllOrNothing p.loading _ p h.0 (inr (inl h))
handle-IsAllOrNothing (answered r v) p (inr (inr h)) =
    if_false IsAllOrNothing p.loading _ p (h.4) (inr (inr h))

handle_all-IsAllOrNothing :
    (es : List Event) (p : Page) → IsAllOrNothing p → IsAllOrNothing (handle_all es p)
handle_all-IsAllOrNothing [] p h = h
handle_all-IsAllOrNothing (e ∷ es) p h =
    handle_all-IsAllOrNothing es (handle e p) (handle-IsAllOrNothing e p h)

-- In whatever order the three answers and failures come, and whichever tabs are chosen, the page
-- waits while an answer is missing, or shows the error with no item at all, or shows the lists of
-- all three answers and no error.
pub mount-IsAllOrNothing : (es : List Event) → IsAllOrNothing (handle_all es mount)
unfolding mount
mount-IsAllOrNothing es =
    handle_all-IsAllOrNothing es mount (inl (refl, refl, refl, (refl, refl, refl)))
