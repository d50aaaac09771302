-- ===== src/Search/Late.antt =====
-- Answers to the first request and to a search.
use ion_insurance_testapp.Prelude.{
  ℕ, String, ◌≡◌, refl, ap, ◌∙◌, List, [], ◌∷◌, some, get_elem?, All,
}
use ion_insurance_testapp.Js.{Value}
use ion_insurance_testapp.Search.{
  Hero, mount_hero, Ask, first, search, found, settle, Event, choose_lang, type_query, submit,
  choose_vehicle, choose_coverage, choose_sort, clear, answered, failed, handle, handle_all,
}

-- An event that is no answer.
abbrev pub IsQuiet : Event → Type 0
IsQuiet (answered _ _) = ⊥
IsQuiet (failed _) = ⊥
IsQuiet _ = Unit

handle_quiet : (e : Event) (h : Hero) → IsQuiet e → (handle e h).products ≡ h.products
unfolding handle
handle_quiet (choose_lang l) h q = refl
handle_quiet (type_query t) h q = refl
handle_quiet submit h q = refl
handle_quiet (choose_vehicle v) h q = refl
handle_quiet (choose_coverage v) h q = refl
handle_quiet (choose_sort s) h q = refl
handle_quiet clear h q = refl
handle_quiet (answered i v) h q = absurd q
handle_quiet (failed i) h q = absurd q

handle_all_quiet :
    (es : List Event) (h : Hero) → All IsQuiet es → (handle_all es h).products ≡ h.products
handle_all_quiet [] h q = refl
handle_all_quiet (e ∷ es) h q = handle_all_quiet es (handle e h) q.1 ∙ handle_quiet e h q.0

-- The answer that comes last decides what the page shows, whichever open request it belongs to:
-- until another answer or failure comes, the products are what that request finds in it, whatever is
-- chosen, typed or sent.
pub handle_all_last :
    (h : Hero) (i : ℕ) (a : Ask) (v : Value) (es : List Event)
    → get_elem? h.pending i ≡ some a
    → All IsQuiet es
    → (handle_all es (handle (answered i v) h)).products ≡ found a v
unfolding handle
handle_all_last h i a v es e q =
    handle_all_quiet es (handle (answered i v) h) q
    ∙ ap (λ o. (settle o (λ a. found a v) i h).products) e

-- A search sent before the first request is answered: when the answers arrive in turn, the page
-- shows what the search has found in the order chosen. When the first answer is late, it replaces
-- what the search has found.
pub handle_all_late :
    (lang query sort : String) (all matching : Value)
    → let start =
        handle_all (choose_sort sort ∷ type_query query ∷ submit ∷ []) (mount_hero lang) in
      ((handle_all (answered 0 all ∷ answered 0 matching ∷ []) start).products
        ≡ found (search query sort) matching)
      × ((handle_all (answered 1 matching ∷ answered 0 all ∷ []) start).products ≡ found first all)
unfolding mount_hero handle
handle_all_late lang query sort all matching = (refl, refl)
