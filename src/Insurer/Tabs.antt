-- ===== src/Insurer/Tabs.antt =====
-- The tabs and bars of the support page.
use ion_insurance_testapp.Prelude.{
  ℕ, ◌+◌, ◌≤◌, ◌<◌, ◌==◌, Bool, true, false, String, List, [], ◌∷◌, ◌≡◌, refl, if◌then◌else◌,
  length, All, str_eq, eq_iff, ltb, arith, Bool-cases, inl, inr,
}
use ion_insurance_testapp.Js.{or_text}
use ion_insurance_testapp.Insurer.Support.{
  Ticket, Tab, Bar, has_status, count_status, statuses, status_breakdown, bars_among, max_count,
  tabs_among, filter_tabs, displayed_tickets,
}

module _ (to_upper_case : String → String) where
  -- What a tab says of the list that it leads to.
  abbrev pub IsTrueTab : List Ticket → Tab → Type 0
  IsTrueTab ts tab =
      (length (displayed_tickets to_upper_case tab.filter ts) ≡ tab.count) × (0 < tab.count)

  tabs_among-IsTrueTab :
      (ss : List String) (ts : List Ticket)
      → All (λ s. str_eq s "ALL" ≡ false) ss
      → All (IsTrueTab ts) (tabs_among to_upper_case ss ts)
  unfolding displayed_tickets
  tabs_among-IsTrueTab [] ts h = tt
  tabs_among-IsTrueTab (s ∷ ss) ts h = elim (Bool-cases (count_status to_upper_case s ts == 0)) [
    | inl none_there ↦ rw none_there (tabs_among-IsTrueTab ss ts h.1)
    | inr some_there ↦ rw some_there ((rw h.0 refl, ground arith), tabs_among-IsTrueTab ss ts h.1)
  ]

  filter_tabs-IsTrueTab : (ts : List Ticket) → All (IsTrueTab ts) (filter_tabs to_upper_case ts)
  unfolding filter_tabs displayed_tickets
  filter_tabs-IsTrueTab [] = tt
  filter_tabs-IsTrueTab (t ∷ ts) = (
    (refl, omega arith),
    tabs_among-IsTrueTab statuses (t ∷ ts) (refl, (refl, (refl, (refl, tt)))),
  )

  abbrev pub sum_counts : List Bar → ℕ
  sum_counts [] = 0
  sum_counts (b ∷ bs) = b.count + sum_counts bs

  abbrev sum_status : List String → List Ticket → ℕ
  sum_status [] ts = 0
  sum_status (s ∷ ss) ts = count_status to_upper_case s ts + sum_status ss ts

  sum_counts-bars_among :
      (max : ℕ) (ss : List String) (ts : List Ticket)
      → sum_counts (bars_among to_upper_case max ss ts) ≡ sum_status ss ts
  sum_counts-bars_among max [] ts = refl
  sum_counts-bars_among max (s ∷ ss) ts = ground (arith, sum_counts-bars_among max ss ts)

  abbrev one_if : Bool → ℕ
  one_if b = if b then 1 else 0

  one_if_le : (b : Bool) → one_if b ≤ 1
  one_if_le true = omega arith
  one_if_le false = omega arith

  -- A text is at most one of the statuses.
  one_status :
      (u : String)
      → one_if (str_eq u "OPEN")
          + one_if (str_eq u "IN_PROGRESS")
          + one_if (str_eq u "RESOLVED")
          + one_if (str_eq u "CLOSED")
        ≤ 1
  one_status u = elim (Bool-cases (str_eq u "OPEN")) [
    | inl it ↦ rw ((eq_iff u "OPEN").0 it) (omega arith)
    | inr not_open ↦ elim (Bool-cases (str_eq u "IN_PROGRESS")) [
      | inl it ↦ rw ((eq_iff u "IN_PROGRESS").0 it) (omega arith)
      | inr not_begun ↦ elim (Bool-cases (str_eq u "RESOLVED")) [
        | inl it ↦ rw ((eq_iff u "RESOLVED").0 it) (omega arith)
        | inr not_resolved ↦
            rw (not_open, not_begun, not_resolved) (omega (arith, one_if_le (str_eq u "CLOSED")))
      ]
    ]
  ]

  count_status-cons :
      (s : String) (t : Ticket) (ts : List Ticket)
      → count_status to_upper_case s (t ∷ ts)
        ≡ one_if (has_status to_upper_case s t) + count_status to_upper_case s ts
  count_status-cons s t ts = elim (Bool-cases (has_status to_upper_case s t)) [
    | inl it ↦ rw it (omega arith)
    | inr not_it ↦ rw not_it (omega arith)
  ]

  sum_status_le : (ts : List Ticket) → sum_status statuses ts ≤ length ts
  sum_status_le [] = omega arith
  sum_status_le (t ∷ ts) = omega (
    arith,
    sum_status_le ts,
    one_status (to_upper_case (or_text t.status "OPEN")),
    count_status-cons "OPEN" t ts,
    count_status-cons "IN_PROGRESS" t ts,
    count_status-cons "RESOLVED" t ts,
    count_status-cons "CLOSED" t ts,
  )

  abbrev pub IsWithinBar : Bar → Type 0
  IsWithinBar b = (0 < b.count) × (b.count ≤ b.max)

  bars_among-IsWithinBar :
      (max : ℕ) (ss : List String) (ts : List Ticket)
      → max_count to_upper_case ss ts ≤ max
      → All IsWithinBar (bars_among to_upper_case max ss ts)
  bars_among-IsWithinBar max [] ts h = tt
  bars_among-IsWithinBar max (s ∷ ss) ts h =
      elim (Bool-cases (ltb 0 (count_status to_upper_case s ts))) [
        | inl some_there ↦
            rw some_there
              ((ground arith, ground arith), bars_among-IsWithinBar max ss ts (ground arith))
        | inr none_there ↦ rw none_there (bars_among-IsWithinBar max ss ts (ground arith))
      ]

  -- Whichever tickets there are, each tab that the support page shows carries the number of tickets
  -- that choosing it lists, which is never 0; the bars of the statuses are never empty and never wider
  -- than full; and their counts are together at most the number of tickets.
  pub filter_tabs-status_breakdown :
      (ts : List Ticket)
      → All (IsTrueTab ts) (filter_tabs to_upper_case ts)
        × All IsWithinBar (status_breakdown to_upper_case ts)
        × (sum_counts (status_breakdown to_upper_case ts) ≤ length ts)
  unfolding status_breakdown
  filter_tabs-status_breakdown ts =
      let max = max_count to_upper_case statuses ts in
      (
        filter_tabs-IsTrueTab ts,
        bars_among-IsWithinBar max statuses ts (omega arith),
        omega (arith, sum_counts-bars_among max statuses ts, sum_status_le ts),
      )
