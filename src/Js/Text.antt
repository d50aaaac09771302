-- ===== src/Js/Text.antt =====
-- `String.prototype.trim`, `split` and joining of texts.
use Prim.Native.Char.{Char, code}
use Prim.Native.String.append
use Prim.Native.String
use Prim.Native.String.{[], ◌∷◌}
use mathlib.Core.List.{List}
use ion_insurance_testapp.Prelude.{
  ◌<◌, ℕ, zero, suc, ◌+◌, ◌/◌, ◌%◌, ltb, String, Bool, true, false, ◌&&◌, ◌||◌, ◌≡◌, refl, ap, ◌∙◌,
  leb, ◌==◌, if◌then◌else◌, arith, Bool-cases, inl, inr,
}

-- WhiteSpace and LineTerminator of ECMAScript.
unfoldable pub is_space : ℕ → Bool
is_space c =
    (leb 9 c && leb c 13)
    || c == 32
    || c == 160
    || c == 0x1680
    || (leb 0x2000 c && leb c 0x200a)
    || c == 0x2028
    || c == 0x2029
    || c == 0x202f
    || c == 0x205f
    || c == 0x3000
    || c == 0xfeff

abbrev pub is_empty : String → Bool
is_empty [] = true
is_empty (_ ∷ _) = false

-- `a || b` on texts
abbrev pub or_text : String → String → String
or_text a b = if is_empty a then b else a

-- A template literal, or `+` on texts.
unfoldable pub concat : List String → String
concat List.[] = []
concat (List.◌∷◌ s ss) = String.◌++◌ s (concat ss)

trim_start : String → String
trim_start [] = []
trim_start (c ∷ s) = let rest = trim_start s in if is_space (code c) then rest else c ∷ s

trim_end : String → String
trim_end [] = []
trim_end (c ∷ s) =
    let rest = trim_end s in if is_empty rest && is_space (code c) then [] else c ∷ rest

unfoldable pub trim : String → String
unfolding trim_start trim_end is_space
trim s = trim_end (trim_start s)

-- The first character, if any, is no space.
abbrev StartsInk : String → Type 0
StartsInk [] = Unit
StartsInk (c ∷ _) = is_space (code c) ≡ false

trim_start-StartsInk : (s : String) → StartsInk (trim_start s)
unfolding trim_start
trim_start-StartsInk [] = tt
trim_start-StartsInk (c ∷ s) = elim (Bool-cases (is_space (code c))) [
  | inl space ↦ rw space (trim_start-StartsInk s)
  | inr other ↦ rw other other
]

trim_start_of_StartsInk : (s : String) → StartsInk s → trim_start s ≡ s
unfolding trim_start
trim_start_of_StartsInk [] _ = refl
trim_start_of_StartsInk (c ∷ s) h = rw h

trim_end-StartsInk : (s : String) → StartsInk s → StartsInk (trim_end s)
unfolding trim_end
trim_end-StartsInk [] _ = tt
trim_end-StartsInk (c ∷ s) h = elim (Bool-cases (is_empty (trim_end s))) [
  | inl bare ↦ rw (bare, h) h
  | inr more ↦ rw more h
]

trim_end_idem : (s : String) → trim_end (trim_end s) ≡ trim_end s
unfolding trim_end
trim_end_idem [] = refl
trim_end_idem (c ∷ s) = ground (arith, trim_end_idem s)

-- A trimmed text has nothing left to trim.
pub trim_idem : (s : String) → trim (trim s) ≡ trim s
unfolding trim
trim_idem s =
    let ink = trim_end-StartsInk (trim_start s) (trim_start-StartsInk s) in
    ap trim_end (trim_start_of_StartsInk _ ink) ∙ trim_end_idem (trim_start s)

-- `xs.join(sep)`
unfoldable pub join : String → List String → String
unfolding concat
join sep List.[] = []
join sep (List.◌∷◌ s List.[]) = s
join sep (List.◌∷◌ s ss) = concat (List.◌∷◌ s (List.◌∷◌ sep (List.◌∷◌ (join sep ss) List.[])))

digit : ℕ → String
digit d =
    if d == 0
    then "0"
    else if d == 1
    then "1"
    else if d == 2
    then "2"
    else if d == 3
    then "3"
    else if d == 4
    then "4"
    else if d == 5
    then "5"
    else if d == 6
    then "6"
    else if d == 7
    then "7"
    else if d == 8
    then "8"
    else "9"

show_fuel : ℕ → ℕ → String → String
show_fuel zero n acc = acc
show_fuel (suc f) n acc =
    let more = show_fuel f (n / 10) (String.◌++◌ (digit (n % 10)) acc) in
    if ltb n 10 then String.◌++◌ (digit n) acc else more

-- More fuel than the number changes nothing.
show_fuel_enough :
    (f g n : ℕ) (acc : String) → n < f → n < g → show_fuel f n acc ≡ show_fuel g n acc
unfolding show_fuel
show_fuel_enough zero g n acc h k = absurd (omega arith)
show_fuel_enough (suc f) zero n acc h k = absurd (omega arith)
show_fuel_enough (suc f) (suc g) n acc h k =
    ground (arith, show_fuel_enough f g (n / 10) (String.◌++◌ (digit (n % 10)) acc))

-- A number that is not negative, in decimal. It has at most as many digits as its value and one.
unfoldable pub show_ℕ : ℕ → String
unfolding show_fuel digit
show_ℕ n = show_fuel (suc n) n []

show_ℕ_test : show_ℕ 10450 ≡ "10450"
unfolding show_ℕ
show_ℕ_test = refl

abbrev pub codes : String → List ℕ
codes [] = List.[]
codes (c ∷ s) = List.◌∷◌ (code c) (codes s)

-- `s.length`: UTF-16 units, two for a code point above 0xffff.
unfoldable pub utf16_length : String → ℕ
utf16_length [] = 0
utf16_length (c ∷ s) = (if ltb 0xffff (code c) then 2 else 1) + utf16_length s

pub is_empty-concat :
    (c : Char) (s : String) (ss : List String) → is_empty (concat (List.◌∷◌ (c ∷ s) ss)) ≡ false
unfolding concat
is_empty-concat c s ss = ap is_empty (append.cons c s (concat ss))

is_empty-append : (s t : String) → is_empty s ≡ false → is_empty (String.◌++◌ s t) ≡ false
is_empty-append [] t h = cc
is_empty-append (c ∷ s) t h = ap is_empty (append.cons c s t)

is_empty-if :
    (b : Bool) (s t : String)
    → is_empty s ≡ false
    → is_empty t ≡ false
    → is_empty (if b then s else t) ≡ false
is_empty-if true s t h k = h
is_empty-if false s t h k = k

is_empty-digit : (d : ℕ) → is_empty (digit d) ≡ false
unfolding digit
is_empty-digit d = is_empty-if (d == 0) _ _ refl (
    is_empty-if (d == 1) _ _ refl (
      is_empty-if (d == 2) _ _ refl (
        is_empty-if (d == 3) _ _ refl (
          is_empty-if (d == 4) _ _ refl (
            is_empty-if (d == 5) _ _ refl (
              is_empty-if (d == 6) _ _ refl
                (is_empty-if (d == 7) _ _ refl (is_empty-if (d == 8) _ _ refl refl))))))))

is_empty-show_fuel :
    (f n : ℕ) (acc : String) → is_empty acc ≡ false → is_empty (show_fuel f n acc) ≡ false
unfolding show_fuel
is_empty-show_fuel zero n acc h = h
is_empty-show_fuel (suc f) n acc h = elim (Bool-cases (ltb n 10)) [
  | inl last ↦ rw last (is_empty-append (digit n) acc (is_empty-digit n))
  | inr more ↦ rw more (
      is_empty-show_fuel f (n / 10) _
        (is_empty-append (digit (n % 10)) acc (is_empty-digit (n % 10))))
]

-- A number in decimal has a digit.
pub is_empty-show_ℕ : (n : ℕ) → is_empty (show_ℕ n) ≡ false
unfolding show_ℕ show_fuel
is_empty-show_ℕ n = elim (Bool-cases (ltb n 10)) [
  | inl last ↦ rw last (is_empty-append (digit n) [] (is_empty-digit n))
  | inr more ↦ rw more (
      is_empty-show_fuel n (n / 10) _
        (is_empty-append (digit (n % 10)) [] (is_empty-digit (n % 10))))
]
