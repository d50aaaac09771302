-- ===== src/Js/Json.antt =====
-- Values of JavaScript as the pages meet them in parsed JSON. Of the numbers there are the
-- integers and NaN: the amounts that these pages compute with are whole rupiah.
use ion_insurance_testapp.Prelude.{
  ℕ, zero, suc, ◌+◌, ◌*◌, ◌-◌, String, Bool, true, false, not, ◌&&◌, ◌||◌, List, [], ◌∷◌, Option,
  none, some, str_eq, leb, ltb, ◌==◌, if◌then◌else◌, ◌≡◌, refl, arith,
}
use ion_insurance_testapp.Js.Text.{is_empty, show_ℕ, concat, trim, codes}

mutual
  pub data Value : Type 0 where
    undefined : Value
    null : Value
    bool : Bool → Value
    num : ℕ → Value
    -- -(n + 1)
    minus : ℕ → Value
    nan : Value
    str : String → Value
    arr : Items → Value
    obj : Fields → Value

  pub data Items : Type 0 where
    nil : Items
    item : Value → Items → Items

  pub data Fields : Type 0 where
    end : Fields
    field : String → Value → Fields → Fields

-- Whether `if (v)` takes its branch.
abbrev pub truthy : Value → Bool
truthy undefined = false
truthy null = false
truthy (bool b) = b
truthy (num zero) = false
truthy (num (suc _)) = true
truthy (minus _) = true
truthy nan = false
truthy (str s) = not (is_empty s)
truthy (arr _) = true
truthy (obj _) = true

abbrev pub is_nullish : Value → Bool
is_nullish undefined = true
is_nullish null = true
is_nullish _ = false

infixr 28 ◌or◌ ◌else_use◌
-- `a || b`
abbrev pub ◌or◌ : Value → Value → Value
a or b = if truthy a then a else b

-- `a ?? b`
abbrev pub ◌else_use◌ : Value → Value → Value
a else_use b = if is_nullish a then b else a

abbrev get_field : String → Fields → Value
get_field key end = undefined
get_field key (field k v fs) = if str_eq k key then v else get_field key fs

-- `v?.key`; values that are no objects have none of the fields that the pages ask for.
abbrev pub get : Value → String → Value
get (obj fs) key = get_field key fs
get _ key = undefined

-- `v?.[0]`
abbrev pub first : Value → Value
first (arr nil) = undefined
first (arr (item v _)) = v
first v = get v "0"

-- `v === s` for a text `s`
abbrev pub is_text : Value → String → Bool
is_text (str t) s = str_eq t s
is_text _ s = false

-- What `...v` spreads of an object, or of nothing.
abbrev pub fields_of : Value → Fields
fields_of (obj fs) = fs
fields_of _ = end

pub get-fields_of : (v : Value) (key : String) → get (obj (fields_of v)) key ≡ get v key
get-fields_of v key = ground arith

abbrev pub empty_object : Value
empty_object = obj end

abbrev mutual
  pub to_text : Value → String
  to_text undefined = "undefined"
  to_text null = "null"
  to_text (bool b) = if b then "true" else "false"
  to_text (num n) = show_ℕ n
  to_text (minus n) = concat ("-" ∷ show_ℕ (suc n) ∷ [])
  to_text nan = "NaN"
  to_text (str s) = s
  to_text (arr xs) = items_text xs
  to_text (obj _) = "[object Object]"

  pub items_text : Items → String
  items_text nil = ""
  items_text (item v nil) = to_text v
  items_text (item v (item w vs)) = concat (to_text v ∷ "," ∷ items_text (item w vs) ∷ [])

-- The value of a digit in base 16, or 16.
digit_value : ℕ → ℕ
digit_value c =
    if leb 48 c && leb c 57
    then c - 48
    else if leb 97 c && leb c 102
    then c - 87
    else if leb 65 c && leb c 70
    then c - 55
    else 16

-- The number written by the digits in front, if there is one.
read_digits : ℕ → Option ℕ → List ℕ → Option ℕ
read_digits base sofar [] = sofar
read_digits base sofar (c ∷ cs) =
    let d = digit_value c in
    let before : ℕ = elim sofar [ none ↦ 0 | some n ↦ n ] in
    let more = read_digits base (some (before * base + d)) cs in if ltb d base then more else sofar

read_unsigned : List ℕ → Option ℕ
read_unsigned (z ∷ x ∷ cs) =
    let hex = read_digits 16 none cs in
    let dec = read_digits 10 none (z ∷ x ∷ cs) in
    if z == 48 && (x == 120 || x == 88) then hex else dec
read_unsigned cs = read_digits 10 none cs

abbrev positive : Option ℕ → Value
positive none = nan
positive (some n) = num n

abbrev negative : Option ℕ → Value
negative none = nan
negative (some zero) = num 0
negative (some (suc n)) = minus n

read_signed : List ℕ → Value
read_signed [] = nan
read_signed (c ∷ cs) =
    if c == 45
    then negative (read_unsigned cs)
    else if c == 43
    then positive (read_unsigned cs)
    else positive (read_unsigned (c ∷ cs))

-- `parseInt(s)`
unfoldable pub parse_int : String → Value
unfolding read_signed read_unsigned read_digits digit_value
parse_int s = read_signed (codes (trim s))

parse_int_tests :
    (parse_int " 210000000" ≡ num 210000000)
    × (parse_int "-5x" ≡ minus 4)
    × (parse_int "1e5" ≡ num 1)
    × (parse_int "0x1F" ≡ num 31)
    × (parse_int "" ≡ nan)
unfolding parse_int trim
parse_int_tests = (refl, refl, refl, refl, refl)
