-- ===== src/RateLimit.antt =====
-- core/rate_limit.py: the in-memory limiter of the authentication routes. The store maps a key (a
-- number here) to its time stamps, oldest first; time is a whole number of ticks of the monotonic
-- clock, and `window` the window in ticks. The lock makes `hit` one step. The store is not part of
-- the request's transaction: what a refused call stores stays.
pub mod Window
use nexasalon_api.Prelude.{
  ℕ, ◌+◌, ◌-◌, Bool, true, false, List, [], ◌∷◌, ◌++◌, filter, length, ltb, leb, ◌==◌,
  if◌then◌else◌,
}

abbrev pub Hits : Type 0
Hits = ℕ → List ℕ

pub data Answer : Type 0 where
  allowed : Answer
  refused : ℕ → Answer

abbrev pub store : ℕ → List ℕ → Hits → Hits
store key ts hits k = if k == key then ts else hits k

-- `t > cutoff`, with `cutoff = now - window`, which may be before the clock's start.
abbrev pub is_recent : ℕ → ℕ → ℕ → Bool
is_recent window now t = ltb now (t + window)

abbrev pub first_or : ℕ → List ℕ → ℕ
first_or d [] = d
first_or d (t ∷ ts) = t

-- `hit`. A refusal carries `retry_after_seconds`; with `max_attempts` = 0 and no time stamp the
-- program would raise an `IndexError` instead.
unfoldable pub hit : ℕ → ℕ → ℕ → ℕ → Hits → Answer × Hits
hit max_attempts window key now hits =
    let timestamps = filter (is_recent window now) (hits key) in
    if leb max_attempts (length timestamps)
    then (refused (first_or now timestamps + window - now), store key timestamps hits)
    else (allowed, store key (timestamps ++ now ∷ []) hits)

-- The attempts of a process, the newest first.
pub record Attempt : Type 0 where
  pub key : ℕ
  pub at : ℕ

-- The store after the attempts.
unfoldable pub replay : ℕ → ℕ → List Attempt → Hits
replay max_attempts window [] = λ key. []
replay max_attempts window (a ∷ earlier) =
    (hit max_attempts window a.key a.at (replay max_attempts window earlier)).1

abbrev pub is_allowed : Answer → Bool
is_allowed allowed = true
is_allowed (refused _) = false

-- When the attempts on the key that went through were made.
unfoldable pub allowed_at : ℕ → ℕ → ℕ → List Attempt → List ℕ
allowed_at max_attempts window key [] = []
allowed_at max_attempts window key (a ∷ earlier) =
    let times = allowed_at max_attempts window key earlier in
    elim (hit max_attempts window a.key a.at (replay max_attempts window earlier)).0 [
      | allowed ↦ if key == a.key then a.at ∷ times else times
      | refused _ ↦ times
    ]
