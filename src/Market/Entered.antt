-- ===== src/Market/Entered.antt =====
-- The cards of a product as they follow from the resource that the wizard holds, with no JSON in
-- between: the sections that ProductCard.jsx and the card of InventoryPage.jsx have in common.
use ion_insurance_testapp.Prelude.{
  ℕ, String, Bool, true, false, ◌||◌, List, [], ◌∷◌, map, Option, none, some, if◌then◌else◌, length,
  ltb, ◌≡◌, refl, ap, ◌∙◌, arith, nonempty,
}
use ion_insurance_testapp.Js.{Value, str, arr, codes, get}
use ion_insurance_testapp.Js.Sort.{place, sort_by, rising}
use ion_insurance_testapp.Cards.{to_list, map_some}
use ion_insurance_testapp.Cards.Labels.{chip, chip_label}
use ion_insurance_testapp.Cards.Ncd.{Level, ncd_ladder, ncd_label, level}
use ion_insurance_testapp.Cards.Sections.{AddOnRow, add_on_row, Detail, Sections, opened, sections}
use ion_insurance_testapp.Publish.Items.{AddOn, Discount, ResourceAttributes}
use ion_insurance_testapp.Publish.Wire.{items_of, scalar_value, add_on_value, discount_value}

module _ {A : Type 0} (g : A → Value) where
  to_list-items_of : (xs : List A) → to_list (items_of g xs) ≡ map g xs
  to_list-items_of [] = refl
  to_list-items_of (x ∷ xs) = ap (λ (l : List Value). g x ∷ l) (to_list-items_of xs)

  length-map : (xs : List A) → length (map g xs) ≡ length xs
  length-map [] = refl
  length-map (x ∷ xs) = ap ℕ.suc (length-map xs)

  pub map_some-map :
      {B : Type 0} (f : Value → Option B) (h : A → B)
      → ((x : A) → f (g x) ≡ some (h x))
      → (xs : List A) → map_some f (map g xs) ≡ some (map h xs)
  map_some-map f h e [] = refl
  map_some-map f h e (x ∷ xs) = rw (e x, map_some-map f h e xs) refl

  module _ (le : Value → Value → Bool) where
    place-map :
        (x : A) (xs : List A)
        → place le (g x) (map g xs) ≡ map g (place (λ y z. le (g y) (g z)) x xs)
    unfolding place
    place-map x [] = refl
    place-map x (y ∷ ys) = ground (arith, place-map x ys)

    pub sort_by-map :
        (xs : List A) → sort_by le (map g xs) ≡ map g (sort_by (λ y z. le (g y) (g z)) xs)
    unfolding sort_by
    sort_by-map [] = refl
    sort_by-map (x ∷ xs) =
        ap (place le (g x)) (sort_by-map xs) ∙ place-map x (sort_by (λ y z. le (g y) (g z)) xs)

abbrev chips : List String → List (List ℕ)
chips xs = map (λ (s : String). chip_label (codes s)) xs

chips_lem : (xs : List String) → map_some chip (to_list (items_of str xs)) ≡ some (chips xs)
chips_lem xs =
    ap (map_some chip) (to_list-items_of str xs)
    ∙ map_some-map str chip (λ (s : String). chip_label (codes s)) (λ s. refl) xs

module _ {A : Type 0} (g : A → Value) where
  length-items_of : (xs : List A) → length (to_list (items_of g xs)) ≡ length xs
  length-items_of xs = ap length (to_list-items_of g xs) ∙ length-map g xs

  nonempty-items_of : (xs : List A) → ltb 0 (length (to_list (items_of g xs))) ≡ nonempty xs
  nonempty-items_of [] = refl
  nonempty-items_of (x ∷ xs) = ground arith

module _ (decimal_value : ℕ → ℕ → Value) (number : Value → ℕ) where
  abbrev entered_percent : Discount → ℕ
  entered_percent d = number (scalar_value decimal_value d.discount_percent)

  abbrev entered_add_on : AddOn → AddOnRow
  entered_add_on x = record {
    name = str x.name;
    code = str x.code;
    rate = number (scalar_value decimal_value x.additional_premium_rate);
  }

  abbrev entered_level : Discount → Level
  entered_level d = record { percent = entered_percent d; label = ncd_label (codes d.type) }

  -- The detail of an entered product: its discounts by rising percentage.
  unfoldable pub entered_detail : ResourceAttributes → Detail
  entered_detail a = record {
    add_ons = map entered_add_on a.add_on_options;
    levels = map entered_level (sort_by (rising entered_percent) a.discounts);
    exclusions = chips a.standard_exclusions;
  }

  unfoldable pub entered_sections : (expanded : Bool) → ResourceAttributes → Sections
  unfolding entered_detail
  entered_sections expanded a = record {
    inclusions = chips a.coverage_inclusions;
    toggle =
        if nonempty a.add_on_options || nonempty a.discounts || nonempty a.standard_exclusions
        then some (length a.add_on_options, length a.discounts, length a.standard_exclusions)
        else none;
    detail = if expanded then some (entered_detail a) else none;
  }

  add_ons_lem :
      (xs : List AddOn)
      → map_some (add_on_row number) (to_list (items_of (add_on_value decimal_value) xs))
        ≡ some (map entered_add_on xs)
  add_ons_lem xs =
      ap (map_some (add_on_row number)) (to_list-items_of (add_on_value decimal_value) xs)
      ∙ map_some-map (add_on_value decimal_value) (add_on_row number) entered_add_on (λ x. refl) xs

  levels_lem :
      (xs : List Discount)
      → ncd_ladder number (to_list (items_of (discount_value decimal_value) xs))
        ≡ some (map entered_level (sort_by (rising entered_percent) xs))
  unfolding ncd_ladder
  levels_lem xs =
      let value = discount_value decimal_value in
      ap (ncd_ladder number) (to_list-items_of value xs)
      ∙ ap (map_some (level number))
          (sort_by-map value (rising (λ d. number (get d "discountPercent"))) xs)
      ∙ map_some-map value (level number) entered_level (λ d. refl)
          (sort_by (rising entered_percent) xs)

  opened_lem :
      (expanded : Bool) (a : ResourceAttributes)
      → opened number expanded
          (arr (items_of (add_on_value decimal_value) a.add_on_options))
          (arr (items_of (discount_value decimal_value) a.discounts))
          (arr (items_of str a.standard_exclusions))
        ≡ some (if expanded then some (entered_detail a) else none)
  unfolding entered_detail
  opened_lem false a = refl
  opened_lem true a =
      rw (add_ons_lem a.add_on_options, levels_lem a.discounts, chips_lem a.standard_exclusions)
        refl

  -- The part of a card under its header, read from the JSON of the attributes, never throws and
  -- shows what was entered.
  pub sections_lem :
      (expanded : Bool) (a : ResourceAttributes)
      → sections number expanded
          (arr (items_of str a.coverage_inclusions))
          (arr (items_of str a.standard_exclusions))
          (arr (items_of (add_on_value decimal_value) a.add_on_options))
          (arr (items_of (discount_value decimal_value) a.discounts))
        ≡ some (entered_sections expanded a)
  unfolding sections entered_sections
  sections_lem expanded a =
      let adds = a.add_on_options in
      let discounts = a.discounts in
      let exclusions = a.standard_exclusions in
      rw
        (
          chips_lem a.coverage_inclusions,
          nonempty-items_of (add_on_value decimal_value) adds,
          nonempty-items_of (discount_value decimal_value) discounts,
          nonempty-items_of str exclusions,
          length-items_of (add_on_value decimal_value) adds,
          length-items_of (discount_value decimal_value) discounts,
          length-items_of str exclusions,
        )
        (rw (opened_lem expanded a) refl)
