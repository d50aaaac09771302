-- ===== src/Insurer/Overview.antt =====
-- OverviewPage.jsx of the insurer's app: the figures and the counters of the settlement. `t`, and the
-- texts that `toLocaleString('id-ID')` and `toFixed(1)` give for `Number` of a value, are parameters.
use ion_insurance_testapp.Prelude.{
  Bool-cases, false, inl, inr, String, List, [], ◌∷◌, All, Option, none, some, if◌then◌else◌, ◌≡◌,
  refl,
}
use ion_insurance_testapp.Js.{Value, str, get, is_nullish, ◌else_use◌, concat}
use ion_insurance_testapp.Insurer.{Loaded}

pub record StatCard : Type 0 where
  pub label : String
  -- what the card shows
  pub value : Value

-- `StatCard`
abbrev pub stat_card : String → Value → StatCard
stat_card label value = record { label = label; value = value else_use str "—" }

-- `cards.map(card => <StatCard {...card} />)`
abbrev pub drawn : List (String × Value) → List StatCard
drawn [] = []
drawn ((label, value) ∷ cs) = stat_card label value ∷ drawn cs

-- `formatIDR`
unfoldable pub format_idr : (Value → String) → Value → String
format_idr in_locale n = if is_nullish n then "—" else concat ("IDR " ∷ in_locale n ∷ [])

-- The cells of the average rating.
unfoldable pub rating_text : (Value → String) → Value → String
rating_text one_decimal n = if is_nullish n then "—" else concat (one_decimal n ∷ " / 5" ∷ [])

module _ (t : String → String) (in_locale one_decimal : Value → String) where
  -- `statCards`
  unfoldable pub stat_cards : Value → List (String × Value)
  stat_cards stats =
      (t "dashboard.active_policies", get stats "active_policies")
      ∷ (t "dashboard.policies_issued", get stats "policies_issued")
      ∷ (
        t "dashboard.total_premium_idr",
        str (format_idr in_locale (get stats "total_premium_idr")),
      )
      ∷ (t "dashboard.pending_claims", get stats "pending_claims")
      ∷ (t "dashboard.active_resources", get stats "active_resources")
      ∷ (t "dashboard.active_offers", get stats "active_offers")
      ∷ (t "dashboard.support_tickets", get stats "support_tickets")
      ∷ (t "dashboard.avg_rating", str (rating_text one_decimal (get stats "avg_rating")))
      ∷ []

-- The array of the section on the settlement.
unfoldable pub pipeline_cards : Value → List (String × Value)
pipeline_cards stats =
    ("Awaiting Payment", get stats "seam_payment_pending" else_use str "—")
    ∷ ("Payment Received", get stats "seam_payment_received" else_use str "—")
    ∷ ("Reconcile Pending", get stats "seam_reconcile_pending" else_use str "—")
    ∷ ("Fully Settled", get stats "seam_reconcile_settled" else_use str "—")
    ∷ []

pub record Overview : Type 0 where
  pub error : Option String
  pub cards : List StatCard
  pub pipeline : List StatCard

pub data OverviewPage : Type 0 where
  -- with `t('common.loading')`
  waiting : String → OverviewPage
  shown : Overview → OverviewPage

-- The page that a state of it shows.
unfoldable pub overview :
    (String → String) → (Value → String) → (Value → String) → Loaded → OverviewPage
unfolding stat_cards pipeline_cards
overview t in_locale one_decimal p =
    if p.loading
    then waiting (t "common.loading")
    else shown record {
      error = if p.error then some (t "common.error") else none;
      cards = drawn (stat_cards t in_locale one_decimal p.content);
      pipeline = drawn (pipeline_cards p.content);
    }

-- A card whose value is neither `null` nor `undefined`.
abbrev pub IsFilled : StatCard → Type 0
IsFilled c = is_nullish c.value ≡ false

stat_card-IsFilled : (label : String) (v : Value) → IsFilled (stat_card label v)
stat_card-IsFilled label v = elim (Bool-cases (is_nullish v)) [ inl e ↦ rw e refl | inr e ↦ rw e e ]

-- No card that is drawn has `null` or `undefined` for its value.
drawn-IsFilled : (cs : List (String × Value)) → All IsFilled (drawn cs)
drawn-IsFilled [] = tt
drawn-IsFilled ((label, v) ∷ cs) = (stat_card-IsFilled label v, drawn-IsFilled cs)
