-- ===== src/Insurer/Tests.antt =====
-- The theorems about the insurer's lists at concrete tickets and ratings.
use mathlib.Core.Option
use ion_insurance_testapp.Prelude.{
  ℕ, ◌≤◌, String, List, [], ◌∷◌, none, some, ◌≡◌, refl, All, length, map, arith, ◌⊎◌, ◌*◌,
}
use ion_insurance_testapp.Js.{concat, Value, null, num, str, arr, obj, item, nil, field, end}
use ion_insurance_testapp.Insurer.{answered, load_list, load_record, mount_list, mount_record}
use ion_insurance_testapp.Insurer.Overview.{
  OverviewPage, waiting, shown, overview, stat_cards, format_idr, rating_text,
}
use ion_insurance_testapp.Insurer.Support.{Ticket, filter_tabs, status_breakdown}
use ion_insurance_testapp.Insurer.Tabs.{
  IsTrueTab, IsWithinBar, sum_counts, filter_tabs-status_breakdown,
}
use ion_insurance_testapp.Insurer.Ratings.{score_distribution, sum_scores, rated, avg_score}
use ion_insurance_testapp.Insurer.Scores.{sum_star_counts, sum_stars, score_distribution-avg_score}
use ion_insurance_testapp.Insurer.Policies.{policy_rows, is_found}

-- `toUpperCase` and `toLowerCase` of texts without letters of the other case.
abbrev same_case : String → String
same_case s = s

abbrev tickets : List Ticket
tickets =
    record { status = "OPEN"; fields = null }
    ∷ record { status = "CLOSED"; fields = null }
    ∷ record { status = ""; fields = null }
    ∷ record { status = "WAITING"; fields = null }
    ∷ []

filter_tabs-status_breakdown_example :
    All (IsTrueTab same_case tickets) (filter_tabs same_case tickets)
    × All (IsWithinBar same_case) (status_breakdown same_case tickets)
    × (sum_counts same_case (status_breakdown same_case tickets) ≤ length tickets)
filter_tabs-status_breakdown_example = filter_tabs-status_breakdown same_case tickets

abbrev number : Value → ℕ
number (num n) = n
number _ = 0

abbrev scored : ℕ → Value
scored n = obj (field "score" (num n) end)

abbrev reviews : List Value
reviews = scored 5 ∷ scored 0 ∷ scored 2 ∷ []

score_distribution-avg_score_example :
    (sum_star_counts number (score_distribution number reviews) ≡ rated number reviews)
    × (sum_stars number (score_distribution number reviews) ≡ sum_scores number reviews)
    × (((avg_score number reviews ≡ none) × (rated number reviews ≡ 0))
        ⊎ ((sum : ℕ) × (count : ℕ) × (avg_score number reviews ≡ some (sum, count))
            × (1 ≤ count)
            × (count ≤ sum)
            × (sum ≤ 5 * count)))
score_distribution-avg_score_example =
    score_distribution-avg_score number reviews (omega arith, (omega arith, (omega arith, tt)))

abbrev policy : String → Value
policy n = obj (field "policy_number" (str n) end)

abbrev policies : Value
policies = arr (item (policy "POL-21") (item (policy "POL-12") nil))

policy_rows_test :
    Option.map length
      (policy_rows same_case "L-1" ((load_list [] (answered policies) mount_list).content))
    ≡ some 1
unfolding policy_rows is_found load_list
policy_rows_test = refl

-- Figures with a total and without a rating.
abbrev figures : Value
figures = obj (field "total_premium_idr" (num 1500) end)

abbrev overview_cards : OverviewPage → List Value
overview_cards (waiting text) = []
overview_cards (shown page) = map (λ card. card.value) page.cards

overview_test :
    overview_cards
      (overview same_case (λ n. "1.500") (λ n. "0.0") (load_record (answered figures) mount_record))
    ≡ str "—" ∷ str "—" ∷ str "IDR 1.500" ∷ str "—" ∷ str "—" ∷ str "—" ∷ str "—" ∷ str "—" ∷ []
unfolding overview format_idr rating_text concat load_record stat_cards
overview_test = refl
