-- ===== src/Prelude/Environ.antt =====
-- The settings of the programs: `getEnv` of their config.go, the intervals with the tickers made
-- of them, and the lists between commas. The environment is a function, "" at what is not set.
use Prim.Native.Nat.{ℕ, ◌*◌, ◌≤◌}
use Prim.Native.Char.{code}
use Prim.Native.String.{String}
use mathlib.Core.Path.{◌≡◌, refl, ap}
use mathlib.Core.Bool.{Bool, true, false, not}
use mathlib.Core.Option.{Option, none, some}
use mathlib.Core.List.{List, [], ◌∷◌, map}
use native.Mathlib.Omega.{arith}
use bangmod_monitor.Prelude.Tests.{ltb, ◌==◌, if◌then◌else◌}
use bangmod_monitor.Prelude.Lists.{All, filter}
use bangmod_monitor.Prelude.Text.{concat, join, split, trim_space, is_empty}
use bangmod_monitor.Prelude.Int.{ℤ, pos, negsuc, atoi, to_int, is_positive}

abbrev pub Environ : Type 0
Environ = String → String

abbrev pub get_env : Environ → String → String → String
get_env env key fallback = if is_empty (env key) then fallback else env key

abbrev positive_or : ℕ → Option ℤ → ℕ
positive_or fallback none = fallback
positive_or fallback (some (negsuc n)) = fallback
positive_or fallback (some (pos n)) = if ltb 0 n then n else fallback

-- A number of seconds: what the setting says if it is positive, and else the default
pub interval : Environ → String → ℕ → ℕ
interval env key fallback =
    if is_empty (env key) then fallback else positive_or fallback (atoi (env key))

-- `time.Duration(n) * time.Second`, a product of 64-bit integers
pub period : ℕ → ℤ
period n = to_int 64 (pos (n * 1000000000))

-- Whether time.NewTicker returns: it panics where the duration is not positive.
pub ticker_starts : ℕ → Bool
unfolding period
ticker_starts n = is_positive (period n)

-- The elements between commas, without the white space around them; empty ones are left out.
unfoldable pub list_of : String → List String
list_of s = filter (λ p. not (is_empty p)) (map trim_space (split b',' s))

interval_pos : (o : Option ℤ) (fallback : ℕ) → 1 ≤ fallback → 1 ≤ positive_or fallback o
interval_pos none fallback h = h
interval_pos (some (negsuc n)) fallback h = h
interval_pos (some (pos n)) fallback h = ground arith

pub interval-pos :
    (env : Environ) (key : String) (fallback : ℕ) → 1 ≤ fallback → 1 ≤ interval env key fallback
unfolding interval
interval-pos env key fallback h = ground (arith, interval_pos (atoi (env key)) fallback)

pub ticker_starts_small :
    (n : ℕ) → 1 ≤ n → n ≤ 9223372036 → (period n ≡ pos (n * 1000000000)) × (ticker_starts n ≡ true)
unfolding ticker_starts
ticker_starts_small n h k = ground arith

pub ticker_starts_wrapped : (n : ℕ) → 9223372037 ≤ n → n ≤ 18446744073 → ticker_starts n ≡ false
unfolding ticker_starts
ticker_starts_wrapped n h k = ground arith

-- no comma
abbrev NoComma : String → Type 0
NoComma String.[] = Unit
NoComma (String.◌∷◌ c s) = ((code c == b',') ≡ false) × NoComma s

-- a text that a list can hold: not empty, with no comma, and with no white space at its ends
pub record IsItem (s : String) : Type 0 where
  pub filled : is_empty s ≡ false
  pub plain : NoComma s
  pub trimmed : trim_space s ≡ s

split_plain : (s : String) → NoComma s → split b',' s ≡ s ∷ []
split_plain String.[] h = refl
split_plain (String.◌∷◌ c s) (p, h) = ground (arith, split_plain s h)

split-concat : (s t : String) → NoComma s → split b',' (concat s (concat "," t)) ≡ s ∷ split b',' t
split-concat String.[] t h = refl
split-concat (String.◌∷◌ c s) t (p, h) = ground (arith, split-concat s t h)

-- Joined items come apart again.
pub list_of-join : (xs : List String) → All IsItem xs → list_of (join "," xs) ≡ xs
unfolding list_of
list_of-join [] h = refl
list_of-join (x ∷ []) (i, h) = rw (split_plain x i.plain, i.trimmed, i.filled) refl
list_of-join (x ∷ y ∷ xs) (i, h) =
    rw (split-concat x (join "," (y ∷ xs)) i.plain, i.trimmed, i.filled)
      (ap (λ l. x ∷ l) (unfold list_of in list_of-join (y ∷ xs) h))

-- The empty list needs no case of its own.
pub list_of_or_none : (s : String) → (if is_empty s then [] else list_of s) ≡ list_of s
unfolding list_of
list_of_or_none String.[] = refl
list_of_or_none (String.◌∷◌ c s) = refl
