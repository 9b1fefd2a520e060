-- ===== src/Engine/Limiter.antt =====
-- buffdata/engine/limiter.py: `AsyncRateLimiter`. Times are whole milliseconds of the monotonic clock.
-- `acquire` is its turns under the lock, between which other callers may take theirs.
pub mod Window
pub mod Wait
pub mod Examples
use buffdata.Prelude.{
  ℕ, String, ◌+◌, Bool, List, select, Option, ltb, if◌then◌else◌, ◌∷◌, length, [], ◌-◌, some, none,
  ◌++◌,
}

-- `max_rpm`, the free slots of the semaphore, and the times of the calls that were let through.
pub record Limiter : Type 0 where
  pub max_rpm : ℕ
  pub slots : ℕ
  pub timestamps : List ℕ

abbrev pub window : ℕ
window = 60000

-- A turn lets the caller through, or tells it how long to sleep.
pub data Turn : Type 0 where
  through : Turn
  sleep : ℕ → Turn

-- `now - t < 60.0`, for times that the clock gave before.
abbrev pub is_recent : ℕ → ℕ → Bool
is_recent now t = ltb (now - t) window

abbrev pub first_or : ℕ → List ℕ → ℕ
first_or now [] = now
first_or now (t ∷ ts) = t

-- What is under the lock in `acquire`: the clock is read as `now`, and as `later` once let through. An
-- empty list, for which the program's index raises, is met only where `max_rpm` is 0.
unfoldable pub take_turn : ℕ → ℕ → Limiter → Turn × Limiter
take_turn now later l =
    let kept = select (is_recent now) l.timestamps in
    if ltb (length kept) l.max_rpm
    then (through, record l { timestamps = kept ++ later ∷ [] })
    else (sleep (window - (now - first_or now kept) + 50), record l { timestamps = kept })

-- `self._semaphore.acquire()`: none is a caller that waits for a slot.
unfoldable pub enter : Limiter → Option Limiter
enter l = if ltb 0 l.slots then some (record l { slots = l.slots - 1 }) else none

-- `release`
unfoldable pub leave : Limiter → Limiter
leave l = record l { slots = l.slots + 1 }
