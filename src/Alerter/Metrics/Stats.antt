-- ===== src/Alerter/Metrics/Stats.antt =====
-- The statistics of a target against its rows.
use bangmod_monitor.Prelude.{
  ◌≤◌, Bool, true, ◌&&◌, ◌≡◌, refl, List, [], ◌∷◌, arith, length, count, ◌==◌,
}
use bangmod_monitor.Alerter.Metrics.{ProbeRow}

-- Every row reports its target down.
abbrev pub all_down : List ProbeRow → Bool
all_down [] = true
all_down (r ∷ rs) = (r.is_up == 0) && all_down rs

pub down_count-le : (rs : List ProbeRow) → count (λ r. r.is_up == 0) rs ≤ length rs
down_count-le [] = omega arith
down_count-le (r ∷ rs) = ground (arith, down_count-le rs)

-- The counts agree exactly if every row is down.
pub counts_agree : (rs : List ProbeRow) → (count (λ r. r.is_up == 0) rs == length rs) ≡ all_down rs
counts_agree [] = refl
counts_agree (r ∷ rs) = ground (arith, counts_agree rs, down_count-le rs)
