-- ===== src/Core/Revision.antt =====
-- crates/loreloom-core/src/revision.rs, and the world clock of numeric.rs. Both are a `u64`.
use loreloom.Prelude.{ℕ, suc, ◌≤◌, ◌<◌, ◌≡◌, arith, ◌==◌, if◌then◌else◌, Result, ok, err, ok_or}
use loreloom.Prelude.Words.{u64_max, checked_add}

pub data RevisionError : Type 0 where
  overflow : RevisionError
  conflict : ℕ → ℕ → RevisionError

-- A revision is its number.
abbrev pub Revision : Type 0
Revision = ℕ

unfoldable pub next : Revision → Result RevisionError Revision
next r = ok_or (checked_add u64_max r 1) overflow

unfoldable pub ensure_revision : Revision → Revision → Result RevisionError (Unit {0})
ensure_revision expected observed =
    if expected == observed then ok tt else err (conflict expected observed)

-- A successful `next` is the successor, and stays in the range of a `u64`.
pub next-ok : (r : Revision) {s : Revision} → next r ≡ ok s → (s ≡ suc r) × (s ≤ u64_max)
unfolding next
next-ok r h = ground arith

-- Below the largest revision `next` succeeds.
pub next-of_lt : (r : Revision) → r < u64_max → next r ≡ ok (suc r)
unfolding next
next-of_lt r h = ground arith

pub data FixedError : Type 0 where
  overflow division_by_zero world_time_overflow : FixedError

-- `WorldTime`: the seconds since the world's creation.
abbrev pub WorldTime : Type 0
WorldTime = ℕ

unfoldable pub add_ticks : WorldTime → ℕ → Result FixedError WorldTime
add_ticks t ticks = ok_or (checked_add u64_max t ticks) world_time_overflow
