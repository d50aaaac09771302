-- ===== src/Cards.antt =====
-- What the product cards of both applications show: ProductCard.jsx of the buyer's, and the cards
-- of the insurer's InventoryPage.jsx. The texts on a card are given as values, its chips and badges
-- by code points; style and layout are left out. Rendering that throws is `none`.
pub mod Labels
pub mod Ncd
pub mod Badges
pub mod Sections
mod Tests
use ion_insurance_testapp.Prelude.{
  ℕ, Bool, true, false, List, [], ◌∷◌, length, Option, none, some, if◌then◌else◌, ◌>>=◌, String,
}
use ion_insurance_testapp.Js.{
  Value, num, nan, str, arr, obj, Items, nil, item, truthy, is_empty, utf16_length,
}

-- The place of `{v && <p>{v}</p>}`: React renders the value itself where it is 0 or NaN.
pub data Slot : Type 0 where
  hidden : Slot
  bare : Value → Slot
  shows : Value → Slot

unfoldable pub slot : Value → Slot
slot (num ℕ.zero) = bare (num 0)
slot nan = bare nan
slot v = if truthy v then shows v else hidden

abbrev pub to_list : Items → List Value
to_list nil = []
to_list (item v vs) = v ∷ to_list vs

-- `v.length` of what `a || b || []` gives, 0 where there is none.
abbrev pub count_of : Value → ℕ
count_of (arr vs) = length (to_list vs)
count_of (str s) = utf16_length s
count_of _ = 0

-- `v.length > 0 && v.map(...)` of what `a || b || []` gives: a text has a length and no `map`.
abbrev pub list_of : Value → Option (List Value)
list_of (arr vs) = some (to_list vs)
list_of (str s) = if is_empty s then some [] else none
list_of _ = some []

-- `xs.map(f)` where `f` may throw.
abbrev pub map_some {ℓ} : {A : Type ℓ} → (Value → Option A) → List Value → Option (List A)
map_some f [] = some []
map_some f (v ∷ vs) = let rest = map_some f vs in f v >>= λ x. rest >>= λ xs. some (x ∷ xs)
