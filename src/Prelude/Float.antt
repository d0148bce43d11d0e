-- ===== src/Prelude/Float.antt =====
-- Go's float64 as its IEEE 754 bit pattern, with the order of the language. The program adds and
-- multiplies no floats: it compares them and narrows them to float32.
use Prim.Native.Nat.{ℕ, ◌+◌, ◌*◌, ◌/◌, ◌%◌, ◌^◌}
use mathlib.Core.Bool.{Bool, true, false, ◌||◌}
use bangmod_monitor.Prelude.Tests.{ltb, if◌then◌else◌}

abbrev pub Float64 : Type 0
Float64 = ℕ

abbrev pub Float32 : Type 0
Float32 = ℕ

abbrev magnitude : Float64 → ℕ
magnitude x = x % 2 ^ 63

abbrev is_negative : Float64 → Bool
is_negative x = ltb 0 (x / 2 ^ 63)

abbrev is_nan : Float64 → Bool
is_nan x = ltb (2047 * 2 ^ 52) (magnitude x)

abbrev lt_signed : Bool → Bool → ℕ → ℕ → Bool
lt_signed false false a b = ltb a b
lt_signed false true a b = false
lt_signed true false a b = ltb 0 (a + b)
lt_signed true true a b = ltb b a

-- x < y
unfoldable pub flt : Float64 → Float64 → Bool
flt x y =
    if is_nan x || is_nan y
    then false
    else lt_signed (is_negative x) (is_negative y) (magnitude x) (magnitude y)

abbrev pub zero_float : Float64
zero_float = 0

-- the constant -1
abbrev pub minus_one : Float64
minus_one = 2 ^ 63 + 1023 * 2 ^ 52
