-- ===== src/Machine.antt =====
-- What the program takes from Rust itself: `u64` and `usize` arithmetic in the two build profiles,
-- and readings of the system clock.
use hancoin.Prelude.{
  ℕ, ◌+◌, ◌-◌, ◌%◌, ◌^◌, ◌≤◌, ◌<◌, ◌≡◌, Option, none, some, arith, leb, ltb, if◌then◌else◌,
}

-- A debug build checks each `+` and `-` and panics on overflow; a release build wraps round.
pub data Profile : Type 0 where
  debug release : Profile

-- 2 ^ 64, one more than the largest `u64` or `usize` of the 64-bit targets.
abbrev pub u64_mod : ℕ
u64_mod = 2 ^ 64

-- `a - b` at `u64`; `none` is a panic.
abbrev pub sub_u64 : Profile → ℕ → ℕ → Option ℕ
sub_u64 Profile.debug a b = if leb b a then some (a - b) else none
sub_u64 Profile.release a b = some ((a + u64_mod - b) % u64_mod)

-- `a + b` at `u64` and at `usize`; `none` is a panic.
abbrev pub add_u64 : Profile → ℕ → ℕ → Option ℕ
add_u64 Profile.debug a b = if ltb (a + b) u64_mod then some (a + b) else none
add_u64 Profile.release a b = some ((a + b) % u64_mod)

-- Where nothing overflows the two profiles agree.
pub sub_u64-some :
    (profile : Profile) (a b : ℕ) → b ≤ a → a < u64_mod → sub_u64 profile a b ≡ some (a - b)
sub_u64-some Profile.debug a b h k = ground arith
sub_u64-some Profile.release a b h k = ground arith

pub add_u64-some :
    (profile : Profile) (a b : ℕ) → a + b < u64_mod → add_u64 profile a b ≡ some (a + b)
add_u64-some Profile.debug a b h = ground arith
add_u64-some Profile.release a b h = ground arith

-- A reading of `SystemTime::now().duration_since(UNIX_EPOCH)` in whole seconds: `none` is the error
-- of a clock that stands before the epoch.
abbrev pub Clock : Type 0
Clock = Option ℕ

-- `.unwrap_or_default().as_secs()` of such a reading.
abbrev pub secs : Clock → ℕ
secs none = 0
secs (some t) = t
