-- ===== src/History/Tests.antt =====
-- The theorems about PolicyHistoryPage.jsx at a concrete policy, orders and stages.
use ion_insurance_testapp.Prelude.{
  ℕ, suc, refl, ◌+◌, ◌≤◌, ◌≡◌, List, [], ◌∷◌, map, some, arith, true, false,
}
use ion_insurance_testapp.History.{
  Segment, Order, coverage_pill, order_summary, stages, seam_stage_bar,
}
use ion_insurance_testapp.Js.{Value, num, str, arr, nil, item, obj, field, end}
use ion_insurance_testapp.Flow.Payment.{share}
use ion_insurance_testapp.Insurer.{Outcome, answered, failed}
use ion_insurance_testapp.History.Tabs.{Part, order_row, order_panel, load_tab, mount_tab, tab_view}
use ion_insurance_testapp.History.Page.{
  mount, handle_all, policies, choose_tab, arrived, ShowsOwn, mount-ShowsOwn,
}
use ion_insurance_testapp.History.Coverage.{coverage_pill_bar, order_summary_total}
use ion_insurance_testapp.History.Bar.{seam_stage_bar_filled}

coverage_pill_bar_example :
    ((250 ≤ 100 → (coverage_pill 250 100 400).pct ≡ 0)
      × (400 ≤ 250 → (coverage_pill 250 100 400).pct ≡ 100))
    × ((coverage_pill 250 100 400).pct ≤ (coverage_pill 300 100 400).pct)
    × ((coverage_pill 250 100 400).pct ≤ 100)
coverage_pill_bar_example = coverage_pill_bar 100 400 250 300 (omega arith) (omega arith)

abbrev orders : List Order
orders =
    record { seam_stage = "settled"; payment_amount = 2100000 }
    ∷ record { seam_stage = "payment_held"; payment_amount = 0 }
    ∷ []

order_summary_test :
    (order_summary orders).settled + (order_summary orders).in_progress
    ≡ (order_summary orders).total
order_summary_test = order_summary_total orders

seam_stage_bar_test :
    (map (λ (s : Segment). s.key) (seam_stage_bar "payment_held") ≡ stages)
    × (map (λ (s : Segment). s.is_filled) (seam_stage_bar "payment_held")
        ≡ true ∷ true ∷ false ∷ false ∷ false ∷ [])
seam_stage_bar_test = seam_stage_bar_filled "payment_held"

-- A request that fails leaves the tab as an answer without orders does.
failed_load_test :
    tab_view order_row order_panel (load_tab "orders" failed mount_tab)
    ≡ tab_view order_row order_panel (load_tab "orders" (answered (arr nil)) mount_tab)
unfolding tab_view load_tab mount_tab
failed_load_test = refl

abbrev paid_order : Value
paid_order = obj (field "seam_stage" (str "settled") (field "payment_amount" (num 50) end))

order_panel_test :
    map (λ (p : Part). p.amount) (order_panel paid_order).distribution
    ≡ some 49 ∷ some 1 ∷ some 1 ∷ []
unfolding order_panel share
order_panel_test = refl

-- The answer to the first request comes after the other tab has been chosen.
abbrev outcome_of : ℕ → Outcome
outcome_of ℕ.zero = answered (obj (field "orders" (arr (item paid_order nil)) end))
outcome_of (suc _) = failed

abbrev IsOutcome : ℕ → Outcome → Type 0
IsOutcome n o = o ≡ outcome_of n

mount-ShowsOwn_example : ShowsOwn IsOutcome (
    handle_all
      (choose_tab policies
        ∷ arrived 0 (answered (obj (field "orders" (arr (item paid_order nil)) end)))
        ∷ arrived 1 failed
        ∷ [])
      mount)
mount-ShowsOwn_example =
    mount-ShowsOwn IsOutcome
      (choose_tab policies
        ∷ arrived 0 (answered (obj (field "orders" (arr (item paid_order nil)) end)))
        ∷ arrived 1 failed
        ∷ [])
      (tt, (refl, (refl, tt)))
