-- ===== src/Prelude/Text.antt =====
-- What the program uses of Go's `strings` and `strconv` packages. A Go string is bytes and a
-- `String` here is characters; every separator that the program splits at is ASCII, so the two
-- readings cut at the same places.
use Prim.Native.Char.{Char, code}
use Prim.Native.Nat.{ℕ}
use Prim.Native.String.{String}
use mathlib.Core.Path.{◌≡◌, refl, ap}
use mathlib.Core.Bool.{Bool, true, false, ◌&&◌, ◌||◌}
use mathlib.Core.Option.{Option, none, some}
use mathlib.Core.List.{List, [], ◌∷◌}
use bangmod_monitor.Prelude.Tests.{leb, ◌==◌, if◌then◌else◌}

-- Go's `s + t`
abbrev pub concat : String → String → String
concat String.[] t = t
concat (String.◌∷◌ c s) t = String.◌∷◌ c (concat s t)

abbrev cons_part : Char → List String → List String
cons_part c [] = String.◌∷◌ c String.[] ∷ []
cons_part c (p ∷ ps) = String.◌∷◌ c p ∷ ps

-- strings.Split(s, sep) for a separator of one character
abbrev pub split : ℕ → String → List String
split sep String.[] = String.[] ∷ []
split sep (String.◌∷◌ c s) =
    let rest = split sep s in if code c == sep then String.[] ∷ rest else cons_part c rest

-- strings.SplitN(s, sep, 2), which has one part or two
pub data Cut : Type 0 where
  whole : String → Cut
  parts : String → String → Cut

abbrev cons_cut : Char → Cut → Cut
cons_cut c (whole s) = whole (String.◌∷◌ c s)
cons_cut c (parts s t) = parts (String.◌∷◌ c s) t

abbrev pub split_n : ℕ → String → Cut
split_n sep String.[] = whole String.[]
split_n sep (String.◌∷◌ c s) =
    let rest = split_n sep s in if code c == sep then parts String.[] s else cons_cut c rest

-- unicode.IsSpace
abbrev is_space : ℕ → Bool
is_space c =
    (leb 9 c && leb c 13)
    || (c == 32)
    || (c == 0x85)
    || (c == 0xA0)
    || (c == 0x1680)
    || (leb 0x2000 c && leb c 0x200A)
    || (c == 0x2028)
    || (c == 0x2029)
    || (c == 0x202F)
    || (c == 0x205F)
    || (c == 0x3000)

abbrev trim_left : String → String
trim_left String.[] = String.[]
trim_left (String.◌∷◌ c s) =
    let rest = trim_left s in if is_space (code c) then rest else String.◌∷◌ c s

abbrev trim_step : Char → String → String
trim_step c String.[] = if is_space (code c) then String.[] else String.◌∷◌ c String.[]
trim_step c (String.◌∷◌ d s) = String.◌∷◌ c (String.◌∷◌ d s)

abbrev trim_right : String → String
trim_right String.[] = String.[]
trim_right (String.◌∷◌ c s) = trim_step c (trim_right s)

-- strings.TrimSpace
abbrev pub trim_space : String → String
trim_space s = trim_right (trim_left s)

abbrev pub is_empty : String → Bool
is_empty String.[] = true
is_empty (String.◌∷◌ c s) = false

-- strings.HasPrefix with strings.TrimPrefix: what follows the prefix, where it is there
abbrev pub strip_prefix : String → String → Option String
strip_prefix String.[] s = some s
strip_prefix (String.◌∷◌ c p) String.[] = none
strip_prefix (String.◌∷◌ c p) (String.◌∷◌ d s) =
    let rest = strip_prefix p s in if code c == code d then rest else none

-- strings.Join(xs, sep)
abbrev pub join : String → List String → String
join sep [] = ""
join sep (x ∷ []) = x
join sep (x ∷ y ∷ xs) = concat x (concat sep (join sep (y ∷ xs)))

pub concat_assoc : (a b c : String) → concat (concat a b) c ≡ concat a (concat b c)
concat_assoc String.[] b c = refl
concat_assoc (String.◌∷◌ x a) b c = ap (λ s. String.◌∷◌ x s) (concat_assoc a b c)
