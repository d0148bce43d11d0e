-- ===== src/Prelude/Decimal.antt =====
-- Integers in decimal, as `%d` prints them, and `strconv.Atoi` back.
use Prim.Native.Nat.{ℕ, zero, suc, ◌+◌, ◌-◌, ◌*◌, ◌/◌, ◌%◌, ◌^◌, ◌<◌}
use Prim.Native.Char.{code}
use Prim.Native.String.{String}
use mathlib.Core.Path.{◌≡◌, refl, ap, ◌∙◌}
use mathlib.Core.Logic.{inl, inr}
use mathlib.Core.Bool.{false, ◌&&◌}
use mathlib.Core.Option.{Option, none, some}
use native.Mathlib.Omega.{arith}
use bangmod_monitor.Prelude.Tests.{leb, ltb, if◌then◌else◌, Bool-cases}
use bangmod_monitor.Prelude.Text.{concat, is_empty}
use bangmod_monitor.Prelude.Int.{ℤ, pos, negsuc, atoi, digits_from}

abbrev digit : ℕ → String
digit zero = "0"
digit (suc zero) = "1"
digit (suc (suc zero)) = "2"
digit (suc (suc (suc zero))) = "3"
digit (suc (suc (suc (suc zero)))) = "4"
digit (suc (suc (suc (suc (suc zero))))) = "5"
digit (suc (suc (suc (suc (suc (suc zero)))))) = "6"
digit (suc (suc (suc (suc (suc (suc (suc zero))))))) = "7"
digit (suc (suc (suc (suc (suc (suc (suc (suc zero)))))))) = "8"
digit n = "9"

-- The digits of a number; each round takes one, so fuel above the number is enough.
digits : ℕ → ℕ → String
digits zero n = ""
digits (suc f) n =
    let more = concat (digits f (n / 10)) (digit (n % 10)) in if ltb n 10 then digit n else more

-- fmt's `%d`
pub itoa : ℤ → String
unfolding digits
itoa (pos n) = digits (suc n) n
itoa (negsuc n) = concat "-" (digits (suc (suc n)) (suc n))

after : Option ℕ → String → Option ℕ
after none s = none
after (some n) s = digits_from n s

digits_from-concat : (n : ℕ) (s t : String) → digits_from n (concat s t) ≡ after (digits_from n s) t
unfolding after
digits_from-concat n String.[] t = refl
digits_from-concat n (String.◌∷◌ c s) t = elim (Bool-cases (leb 48 (code c) && leb (code c) 57)) [
  | inl d ↦ rw d (digits_from-concat (n * 10 + (code c - 48)) s t)
  | inr e ↦ rw e refl
]

digits_from-digit : (a n : ℕ) → n < 10 → digits_from a (digit n) ≡ some (a * 10 + n)
digits_from-digit a zero h = refl
digits_from-digit a (suc zero) h = refl
digits_from-digit a (suc (suc zero)) h = refl
digits_from-digit a (suc (suc (suc zero))) h = refl
digits_from-digit a (suc (suc (suc (suc zero)))) h = refl
digits_from-digit a (suc (suc (suc (suc (suc zero))))) h = refl
digits_from-digit a (suc (suc (suc (suc (suc (suc zero)))))) h = refl
digits_from-digit a (suc (suc (suc (suc (suc (suc (suc zero))))))) h = refl
digits_from-digit a (suc (suc (suc (suc (suc (suc (suc (suc zero)))))))) h = refl
digits_from-digit a (suc (suc (suc (suc (suc (suc (suc (suc (suc zero))))))))) h = refl
digits_from-digit a (suc (suc (suc (suc (suc (suc (suc (suc (suc (suc n)))))))))) h =
    absurd (omega arith)

digits_from-digits : (f n : ℕ) → n < f → digits_from 0 (digits f n) ≡ some n
unfolding digits after
digits_from-digits zero n h = absurd (omega arith)
digits_from-digits (suc f) n h = elim (Bool-cases (ltb n 10)) [
  | inl small ↦ rw small (digits_from-digit 0 n (ground arith) ∙ ap some (omega arith))
  | inr large ↦
      rw
        (
          large,
          digits_from-concat 0 (digits f (n / 10)) (digit (n % 10)),
          digits_from-digits f (n / 10) (ground arith),
        )
        (digits_from-digit (n / 10) (n % 10) (omega arith) ∙ ap some (omega arith))
]

is_empty-concat : (s t : String) → is_empty t ≡ false → is_empty (concat s t) ≡ false
is_empty-concat String.[] t h = h
is_empty-concat (String.◌∷◌ c s) t h = refl

digit_filled : (n : ℕ) → is_empty (digit n) ≡ false
digit_filled zero = refl
digit_filled (suc zero) = refl
digit_filled (suc (suc zero)) = refl
digit_filled (suc (suc (suc zero))) = refl
digit_filled (suc (suc (suc (suc zero)))) = refl
digit_filled (suc (suc (suc (suc (suc zero))))) = refl
digit_filled (suc (suc (suc (suc (suc (suc zero)))))) = refl
digit_filled (suc (suc (suc (suc (suc (suc (suc zero))))))) = refl
digit_filled (suc (suc (suc (suc (suc (suc (suc (suc zero)))))))) = refl
digit_filled (suc (suc (suc (suc (suc (suc (suc (suc (suc n))))))))) = refl

digits_filled : (f n : ℕ) → is_empty (digits (suc f) n) ≡ false
unfolding digits
digits_filled f n = elim (Bool-cases (ltb n 10)) [
  | inl small ↦ rw small (digit_filled n)
  | inr large ↦
      rw large (is_empty-concat (digits f (n / 10)) (digit (n % 10)) (digit_filled (n % 10)))
]

-- A text of digits is read as its number.
atoi-of_digits :
    (s : String) (n : ℕ)
    → is_empty s ≡ false
    → digits_from 0 s ≡ some n
    → n < 2 ^ 63
    → atoi s ≡ some (pos n)
atoi-of_digits String.[] n e h k = cc
atoi-of_digits (String.◌∷◌ c s) n e h k = ground arith

pub atoi-itoa : (n : ℕ) → n < 2 ^ 63 → atoi (itoa (pos n)) ≡ some (pos n)
unfolding itoa
atoi-itoa n h =
    atoi-of_digits (digits (suc n) n) n (digits_filled n n)
      (digits_from-digits (suc n) n (omega arith)) h
