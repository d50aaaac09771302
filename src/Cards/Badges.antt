-- ===== src/Cards/Badges.antt =====
-- The badges of a card: TypeBadge and ZoneBadge of ProductCard.jsx and of InventoryPage.jsx, and
-- InclusionChip's colours.
use ion_insurance_testapp.Prelude.{
  ℕ, String, ◌≡◌, List, [], ◌∷◌, Option, none, some, if◌then◌else◌, ◌==◌, arith,
}
use ion_insurance_testapp.Js.{codes, Value, str, is_text, is_nullish, truthy}

abbrev pub type_codes : List String
type_codes =
    "MOTOR_COMPREHENSIVE" ∷ "MOTOR_THIRD_PARTY" ∷ "MOTOR_FIRE_THEFT" ∷ "TWO_WHEELER"
    ∷ "FOUR_WHEELER" ∷ "COMMERCIAL_VEHICLE" ∷ []

-- `TYPE_MAP[value] || { label: value, ... }`, its label.
unfoldable pub type_label : Value → Value
type_label value =
    if is_text value "MOTOR_COMPREHENSIVE"
    then str "Comprehensive"
    else if is_text value "MOTOR_THIRD_PARTY"
    then str "Third Party"
    else if is_text value "MOTOR_FIRE_THEFT"
    then str "Fire & Theft"
    else if is_text value "TWO_WHEELER"
    then str "Two Wheeler"
    else if is_text value "FOUR_WHEELER"
    then str "Four Wheeler"
    else if is_text value "COMMERCIAL_VEHICLE"
    then str "Commercial"
    else value

-- `.replace('_', ' ')`: the first one only.
unfoldable pub first_spaced : List ℕ → List ℕ
first_spaced [] = []
first_spaced (c ∷ cs) = let rest = first_spaced cs in if c == 95 then 32 ∷ cs else c ∷ rest

-- ZoneBadge of ProductCard.jsx: nothing without a zone. Of a value that is no text there is no
-- `replace`: rendering throws, which is `none`.
unfoldable pub zone_badge : Value → Option (Option (List ℕ))
unfolding first_spaced
zone_badge (str zone) =
    if truthy (str zone) then some (some (first_spaced (codes zone))) else some none
zone_badge zone = if truthy zone then none else some none

-- ZoneBadge of InventoryPage.jsx: `zone?.replace('_', ' ')`
unfoldable pub inventory_zone_badge : Value → Option (List ℕ)
unfolding first_spaced
inventory_zone_badge (str zone) = some (first_spaced (codes zone))
inventory_zone_badge zone = if is_nullish zone then some [] else none

-- A zone that the buyer's card shows has the same label on the insurer's.
pub zone_badge_same :
    (zone : Value) (label : List ℕ)
    → zone_badge zone ≡ some (some label)
    → inventory_zone_badge zone ≡ some label
unfolding zone_badge inventory_zone_badge
zone_badge_same zone label h = ground arith
