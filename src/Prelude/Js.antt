-- ===== src/Prelude/Js.antt =====
-- The values of JavaScript that reach a runtime check of an `unknown`: numbers as IEEE doubles seen
-- through the integers, and the primitive and object values.
use mathlib.Core.Logic.{inl, inr}
use loremaster.Prelude.Tests.{Bool-cases, ltb, leb, ◌==◌, if◌then◌else◌}
use loremaster.Prelude.Int.{ℤ, pos, negsuc}
use Prim.Native.Nat.{ℕ, ◌^◌, ◌-◌, compare, Ordering}
use mathlib.Core.Path.{◌≡◌, refl}
use mathlib.Core.Logic.{◌≢◌, ◌↔◌}
use mathlib.Core.List.{List, [], ◌∷◌}
use mathlib.Core.Option.{Option, none, some}
use native.Mathlib.Omega.{arith}
use Prim.Native.String.{String}
use Prim.Native.Char.{code}
use mathlib.Core.Bool.{Bool, true, false, ◌&&◌, ◌||◌}

-- A finite number that is not an integer is known by its floor: `between z` stands for the numbers
-- strictly between `z` and `z + 1`. So every comparison with an integer is exact.
pub data Number : Type 0 where
  int : ℤ → Number
  between : ℤ → Number
  infinity : Number
  neg_infinity : Number
  nan : Number

-- `Number.isInteger`
abbrev pub is_integer : Number → Bool
is_integer (int z) = true
is_integer _ = false

-- `Number.isFinite`
abbrev pub is_finite : Number → Bool
is_finite (int z) = true
is_finite (between z) = true
is_finite _ = false

-- `x < 0`
abbrev pub is_negative : Number → Bool
is_negative (int (negsuc n)) = true
is_negative (between (negsuc n)) = true
is_negative neg_infinity = true
is_negative _ = false

-- `x <= n` for a literal n of the source
abbrev pub at_most : Number → ℕ → Bool
at_most (int (pos a)) n = leb a n
at_most (between (pos a)) n = ltb a n
at_most (int (negsuc a)) n = true
at_most (between (negsuc a)) n = true
at_most neg_infinity n = true
at_most infinity n = false
at_most nan n = false

-- `Number.MAX_SAFE_INTEGER`
abbrev pub max_safe_integer : ℕ
max_safe_integer = 2 ^ 53 - 1

-- What a field of an `unknown` object can hold.
pub data Field : Type 0 where
  undefined : Field
  number : Number → Field
  string : String → Field
  other : Field

-- `typeof x === 'number' && Number.isInteger(x) && x >= 0 && x <= bound`
unfoldable pub natural_up_to : ℕ → Field → Option ℕ
natural_up_to bound (number (int (pos n))) = if leb n bound then some n else none
natural_up_to bound _ = none

-- A string as its UTF-16 code units, where its order matters.
abbrev pub Text : Type 0
Text = List ℕ

-- The code units of a native text of ASCII.
abbrev pub codes : String → Text
codes String.[] = []
codes (String.◌∷◌ c s) = code c ∷ codes s

-- A pattern of fixed length: a test for each code unit.
unfoldable pub fits : List (ℕ → Bool) → Text → Bool
fits [] [] = true
fits [] (_ ∷ _) = false
fits (_ ∷ _) [] = false
fits (p ∷ ps) (c ∷ cs) = let rest = fits ps cs in if p c then rest else false

-- A new item in front of the first one of a split.
extend_first : ℕ → List Text → List Text
extend_first c [] = (c ∷ []) ∷ []
extend_first c (item ∷ items) = (c ∷ item) ∷ items

-- `s.split(separator)` for a separator of one code unit
unfoldable pub split : ℕ → Text → List Text
unfolding extend_first
split separator [] = [] ∷ []
split separator (c ∷ cs) =
    let rest = split separator cs in if c == separator then [] ∷ rest else extend_first c rest

-- The white space and the line ends of the language.
is_space : ℕ → Bool
is_space c =
    leb 9 c && leb c 13
    || c == 32
    || c == 160
    || c == 5760
    || leb 8192 c && leb c 8202
    || leb 8232 c && leb c 8233
    || c == 8239
    || c == 8287
    || c == 12288
    || c == 65279

trim_start : Text → Text
unfolding is_space
trim_start [] = []
trim_start (c ∷ cs) = let rest = trim_start cs in if is_space c then rest else c ∷ cs

-- A code unit in front of a text that is trimmed at its end.
before_trimmed : ℕ → Text → Text
unfolding is_space
before_trimmed c [] = if is_space c then [] else c ∷ []
before_trimmed c (d ∷ ds) = c ∷ d ∷ ds

trim_end : Text → Text
unfolding before_trimmed
trim_end [] = []
trim_end (c ∷ cs) = before_trimmed c (trim_end cs)

-- `s.trim()`
unfoldable pub trim : Text → Text
unfolding trim_start trim_end
trim s = trim_start (trim_end s)

-- `s < t`, `s > t` and `s === t` of two strings
unfoldable pub compare_text : Text → Text → Ordering
compare_text [] [] = Ordering.eq
compare_text [] (_ ∷ _) = Ordering.lt
compare_text (_ ∷ _) [] = Ordering.gt
compare_text (a ∷ s) (b ∷ t) =
    let rest = compare_text s t in
    elim (compare a b) [
      | Ordering.lt ↦ Ordering.lt
      | Ordering.gt ↦ Ordering.gt
      | Ordering.eq ↦ rest
    ]

-- `s.startsWith(prefix)`
unfoldable pub starts_with : Text → Text → Bool
starts_with [] s = true
starts_with (_ ∷ _) [] = false
starts_with (p ∷ ps) (c ∷ cs) = let rest = starts_with ps cs in if p == c then rest else false

-- `s.includes(needle)`
unfoldable pub includes : Text → Text → Bool
unfolding starts_with
includes needle [] = starts_with needle []
includes needle (c ∷ cs) =
    let rest = includes needle cs in if starts_with needle (c ∷ cs) then true else rest

-- `s === t`
unfoldable pub same_text : Text → Text → Bool
unfolding compare_text
same_text s t = elim (compare_text s t) [ Ordering.eq ↦ true | _ ↦ false ]

abbrev swap_ordering : Ordering → Ordering
swap_ordering Ordering.lt = Ordering.gt
swap_ordering Ordering.eq = Ordering.eq
swap_ordering Ordering.gt = Ordering.lt

pub compare_text-swap : (s t : Text) → compare_text t s ≡ swap_ordering (compare_text s t)
unfolding compare_text
compare_text-swap [] [] = refl
compare_text-swap [] (_ ∷ _) = refl
compare_text-swap (_ ∷ _) [] = refl
compare_text-swap (a ∷ s) (b ∷ t) = ground (arith, compare_text-swap s t)

pub compare_text-eq : (s t : Text) → (compare_text s t ≡ Ordering.eq) ↔ (s ≡ t)
unfolding compare_text
compare_text-eq [] [] = (λ _. refl, λ _. refl)
compare_text-eq [] (_ ∷ _) = ground arith
compare_text-eq (_ ∷ _) [] = ground arith
compare_text-eq (a ∷ s) (b ∷ t) = ground (arith, compare_text-eq s t)

pub compare_text_trans :
    (s t u : Text)
    → compare_text s t ≢ Ordering.gt
    → compare_text t u ≢ Ordering.gt
    → compare_text s u ≢ Ordering.gt
unfolding compare_text
compare_text_trans [] [] [] p q = λ h. cc
compare_text_trans [] _ (_ ∷ _) p q = λ h. cc
compare_text_trans [] (_ ∷ _) [] p q = λ h. cc
compare_text_trans (_ ∷ _) [] _ p q = λ h. p refl
compare_text_trans (_ ∷ _) (_ ∷ _) [] p q = λ h. q refl
compare_text_trans (a ∷ s) (b ∷ t) (c ∷ u) p q = ground (arith, compare_text_trans s t u)

pub same_text_iff : (s t : Text) → (same_text s t ≡ true) ↔ (s ≡ t)
unfolding same_text
same_text_iff s t = ground (arith, compare_text-eq s t)

extend-some : (c : ℕ) (items : List Text) → extend_first c items ≢ []
unfolding extend_first
extend-some c [] h = cc
extend-some c (i ∷ items) h = cc

-- A split has an item.
pub split-some : (separator : ℕ) (s : Text) → split separator s ≢ []
unfolding split
split-some separator [] = λ h. cc
split-some separator (c ∷ cs) = elim (Bool-cases (c == separator)) [
  | inl e ↦ rw e (λ h. cc)
  | inr e ↦ rw e (extend-some c (split separator cs))
]
