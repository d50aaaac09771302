-- ===== src/History/Page.antt =====
-- PolicyHistoryPage.jsx, the page itself: a tab is mounted anew whenever it is chosen, and sends its
-- request then. The answer to the request of a tab that has gone changes nothing. The animation
-- between the tabs is left out.
use ion_insurance_testapp.Prelude.{
  ℕ, suc, String, Bool, true, false, ◌&&◌, List, [], ◌∷◌, All, if◌then◌else◌, ◌==◌, ==_iff, ◌≡◌,
  refl, subst, ◌⊎◌, inl, inr, Bool-cases, arith,
}
use ion_insurance_testapp.Js.{Value, is_nullish}
use ion_insurance_testapp.Insurer.{Outcome, answered, failed}
use ion_insurance_testapp.History.Tabs.{HistoryTab, mount_tab, load_tab, select_item, close_panel}

pub data TabKey : Type 0 where
  orders : TabKey
  policies : TabKey

-- `data.orders` and `data.policies`
abbrev pub list_key : TabKey → String
list_key orders = "orders"
list_key policies = "policies"

abbrev same_key : TabKey → TabKey → Bool
same_key orders orders = true
same_key policies policies = true
same_key _ _ = false

-- `request` is the number of the request that the tab shown has sent.
pub record HistoryPage : Type 0 where
  pub tab : TabKey
  pub shown : HistoryTab
  pub request : ℕ

unfoldable pub mount : HistoryPage
unfolding mount_tab
mount = record { tab = orders; shown = mount_tab; request = 0 }

pub data Event : Type 0 where
  choose_tab : TabKey → Event
  -- the outcome of a request, by its number
  arrived : ℕ → Outcome → Event
  select : Value → Event
  close : Event

unfoldable pub handle : Event → HistoryPage → HistoryPage
unfolding load_tab select_item close_panel mount_tab
handle (choose_tab key) p =
    if same_key key p.tab
    then p
    else record p { tab = key; shown = mount_tab; request = suc p.request }
handle (arrived n o) p =
    if n == p.request && p.shown.loading
    then record p { shown = load_tab (list_key p.tab) o p.shown }
    else p
handle (select v) p = if p.shown.loading then p else record p { shown = select_item v p.shown }
handle close p = record p { shown = close_panel p.shown }

abbrev pub handle_all : List Event → HistoryPage → HistoryPage
handle_all [] p = p
handle_all (e ∷ es) p = handle_all es (handle e p)

-- Every outcome that arrives satisfies `Q`, with the number of its request.
abbrev pub Meets : (ℕ → Outcome → Type 0) → Event → Type 0
Meets Q (arrived n o) = Q n o
Meets Q _ = Unit

mounted_loading : mount_tab.loading ≡ true
unfolding mount_tab
mounted_loading = refl

loaded_loading : (key : String) (o : Outcome) (t : HistoryTab) → (load_tab key o t).loading ≡ false
unfolding load_tab
loaded_loading key failed t = refl
loaded_loading key (answered v) t = elim (Bool-cases (is_nullish v)) [
  | inl e ↦ rw e refl
  | inr e ↦ rw e refl
]

loaded_items :
    (key : String) (o : Outcome) (t : HistoryTab)
    → t.items ≡ mount_tab.items
    → (load_tab key o t).items ≡ (load_tab key o mount_tab).items
unfolding load_tab
loaded_items key failed t h = h
loaded_items key (answered v) t h = elim (Bool-cases (is_nullish v)) [
  | inl e ↦ rw e h
  | inr e ↦ rw e refl
]

module _ (Q : ℕ → Outcome → Type 0) where
  -- The tab waits with an empty list, or lists what the outcome of its own request holds.
  abbrev pub ShowsOwn : HistoryPage → Type 0
  ShowsOwn p =
      ((p.shown.loading ≡ true) × (p.shown.items ≡ mount_tab.items))
      ⊎ ((p.shown.loading ≡ false)
          × ((o : Outcome) × Q p.request o
              × (p.shown.items ≡ (load_tab (list_key p.tab) o mount_tab).items)))

  choose-ShowsOwn :
      (same : Bool) (key : TabKey) (p : HistoryPage)
      → ShowsOwn p
      → ShowsOwn
          (if same then p else record p { tab = key; shown = mount_tab; request = suc p.request })
  choose-ShowsOwn true key p h = h
  choose-ShowsOwn false key p h = inl (mounted_loading, refl)

  arrived-ShowsOwn :
      (n : ℕ) (o : Outcome) (p : HistoryPage) (own : Bool)
      → (n == p.request && p.shown.loading) ≡ own
      → Q n o
      → ShowsOwn p
      → ShowsOwn (if own then record p { shown = load_tab (list_key p.tab) o p.shown } else p)
  arrived-ShowsOwn n o p false e q h = h
  arrived-ShowsOwn n o p true e q (inl h) = inr (
    loaded_loading (list_key p.tab) o p.shown,
    (
      o,
      subst (λ k. Q k o) ((==_iff n p.request).0 (ground (arith, e))) q,
      loaded_items (list_key p.tab) o p.shown h.1,
    ),
  )
  arrived-ShowsOwn n o p true e q (inr h) = absurd (ground (arith, e, h.0))

  select-ShowsOwn :
      (v : Value) (p : HistoryPage) (busy : Bool)
      → ShowsOwn p
      → ShowsOwn (if busy then p else record p { shown = select_item v p.shown })
  unfolding select_item
  select-ShowsOwn v p true h = h
  select-ShowsOwn v p false (inl h) = inl h
  select-ShowsOwn v p false (inr h) = inr h

  close-ShowsOwn :
      (p : HistoryPage) → ShowsOwn p → ShowsOwn (record p { shown = close_panel p.shown })
  unfolding close_panel
  close-ShowsOwn p (inl h) = inl h
  close-ShowsOwn p (inr h) = inr h

  handle-ShowsOwn : (e : Event) (p : HistoryPage) → Meets Q e → ShowsOwn p → ShowsOwn (handle e p)
  unfolding handle
  handle-ShowsOwn (choose_tab key) p m h = choose-ShowsOwn (same_key key p.tab) key p h
  handle-ShowsOwn (arrived n o) p m h =
      arrived-ShowsOwn n o p (n == p.request && p.shown.loading) refl m h
  handle-ShowsOwn (select v) p m h = select-ShowsOwn v p p.shown.loading h
  handle-ShowsOwn close p m h = close-ShowsOwn p h

  handle_all-ShowsOwn :
      (es : List Event) (p : HistoryPage)
      → All (Meets Q) es
      → ShowsOwn p
      → ShowsOwn (handle_all es p)
  handle_all-ShowsOwn [] p m h = h
  handle_all-ShowsOwn (e ∷ es) p m h =
      handle_all-ShowsOwn es (handle e p) m.1 (handle-ShowsOwn e p m.0 h)

  -- Whichever tabs are chosen, and in whatever order the outcomes of their requests arrive, a tab waits
  -- with an empty list until the outcome of the request that it has sent itself, and from then on
  -- lists what that outcome holds: a late answer to another tab, or to an earlier visit of the same
  -- tab, changes nothing. `Q` is whatever is known of the outcomes and the numbers of their requests.
  pub mount-ShowsOwn : (es : List Event) → All (Meets Q) es → ShowsOwn (handle_all es mount)
  unfolding mount
  mount-ShowsOwn es m = handle_all-ShowsOwn es mount m (inl (mounted_loading, refl))
