-- ===== src/Cards/Sections.antt =====
-- The part of a product's card under its header: the chips of what is covered, the button that
-- opens the detail, and the detail.
use ion_insurance_testapp.Prelude.{
  ℕ, Bool, true, false, ◌||◌, List, Option, none, some, if◌then◌else◌, ◌>>=◌, ltb,
}
use ion_insurance_testapp.Js.{Value, get, is_nullish}
use ion_insurance_testapp.Cards.{list_of, count_of, map_some}
use ion_insurance_testapp.Cards.Labels.{chip}
use ion_insurance_testapp.Cards.Ncd.{Level, ncd_ladder}

pub record AddOnRow : Type 0 where
  pub name : Value
  pub code : Value
  pub rate : ℕ

pub record Detail : Type 0 where
  pub add_ons : List AddOnRow
  pub levels : List Level
  pub exclusions : List (List ℕ)

pub record Sections : Type 0 where
  pub inclusions : List (List ℕ)
  -- the numbers of add-ons, levels and exclusions on the button
  pub toggle : Option (ℕ × ℕ × ℕ)
  pub detail : Option Detail

module _ (number : Value → ℕ) where
  abbrev pub add_on_row : Value → Option AddOnRow
  add_on_row a =
      if is_nullish a
      then none
      else some (record {
        name = get a "name";
        code = get a "code";
        rate = number (get a "additionalPremiumRate");
      })

  -- The detail is rendered when it is open.
  abbrev pub opened : Bool → (add_ons discounts exclusions : Value) → Option (Option Detail)
  opened false add_ons discounts exclusions = some none
  opened true add_ons discounts exclusions = do
    adds ← list_of add_ons
    rows ← map_some add_on_row adds
    ds ← list_of discounts
    levels ← ncd_ladder number ds
    es ← list_of exclusions
    chips ← map_some chip es
    some (some (record { add_ons = rows; levels = levels; exclusions = chips }))

  unfoldable pub sections :
      (expanded : Bool) (inclusions exclusions add_ons discounts : Value) → Option Sections
  sections expanded inclusions exclusions add_ons discounts = do
    is ← list_of inclusions
    chips ← map_some chip is
    shown ← opened expanded add_ons discounts exclusions
    some (record {
      inclusions = chips;
      toggle =
          if ltb 0 (count_of add_ons) || ltb 0 (count_of discounts) || ltb 0 (count_of exclusions)
          then some (count_of add_ons, count_of discounts, count_of exclusions)
          else none;
      detail = shown;
    })
