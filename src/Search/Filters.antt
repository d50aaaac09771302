-- ===== src/Search/Filters.antt =====
-- The filters by vehicle and by coverage.
use ion_insurance_testapp.Prelude.{
  ℕ, String, ◌≡◌, refl, ap, ◌∙◌, List, [], ◌∷◌, Option, none, some, get_elem?,
}
use ion_insurance_testapp.Js.{Value}
use ion_insurance_testapp.Search.{
  Hero, mount_hero, Ask, found, settle, Event, choose_vehicle, choose_coverage, choose_sort, clear,
  answered, failed, handle, handle_all,
}

-- The same events with the two filters left alone: of the button that clears, the order remains.
abbrev pub unfiltered : List Event → List Event
unfiltered [] = []
unfiltered (choose_vehicle _ ∷ es) = unfiltered es
unfiltered (choose_coverage _ ∷ es) = unfiltered es
unfiltered (clear ∷ es) = choose_sort "default" ∷ unfiltered es
unfiltered (e ∷ es) = e ∷ unfiltered es

-- The page with its filters at their first values.
abbrev forget : Hero → Hero
forget h = record h { vehicle_filter = ""; coverage_filter = "" }

settle-forget :
    (o : Option Ask) (ps : Ask → List Value) (i : ℕ) (h : Hero)
    → forget (settle o ps i h) ≡ settle o ps i (forget h)
settle-forget none ps i h = refl
settle-forget (some a) ps i h = refl

handle_all-forget :
    (es : List Event) (h : Hero) → forget (handle_all es h) ≡ handle_all (unfiltered es) (forget h)
unfolding handle
handle_all-forget [] h = refl
handle_all-forget (choose_vehicle v ∷ es) h = handle_all-forget es (handle (choose_vehicle v) h)
handle_all-forget (choose_coverage v ∷ es) h = handle_all-forget es (handle (choose_coverage v) h)
handle_all-forget (clear ∷ es) h = handle_all-forget es (handle clear h)
handle_all-forget (answered i answer ∷ es) h =
    handle_all-forget es (handle (answered i answer) h)
    ∙ ap (handle_all (unfiltered es))
        (settle-forget (get_elem? h.pending i) (λ a. found a answer) i h)
handle_all-forget (failed i ∷ es) h =
    handle_all-forget es (handle (failed i) h)
    ∙ ap (handle_all (unfiltered es)) (settle-forget (get_elem? h.pending i) (λ a. []) i h)
handle_all-forget (e ∷ es) h = handle_all-forget es (handle e h)

-- The filters by vehicle and by coverage have no effect: whatever happens on the page, it shows the
-- products, and has sent the requests, that it would without any use of these filters.
pub handle_all-unfiltered :
    (lang : String) (es : List Event)
    → let p = handle_all es (mount_hero lang) in
      let q = handle_all (unfiltered es) (mount_hero lang) in
      (p.products ≡ q.products) × (p.pending ≡ q.pending) × (p.loading ≡ q.loading)
unfolding mount_hero
handle_all-unfiltered lang es =
    let same = handle_all-forget es (mount_hero lang) in
    (ap (λ h. h.products) same, ap (λ h. h.pending) same, ap (λ h. h.loading) same)
