-- ===== src/Engine/Limiter/Window.antt =====
-- The rate: no window of sixty seconds has more than `max_rpm` calls.
use buffdata.Prelude.{
  ℕ, ◌≤◌, Bool, List, All, ◌++◌, leb, select, length, ◌<◌, ◌∷◌, ◌+◌, ◌&&◌, length-select-le, [],
  All-imp, ltb, select-All, arith, ◌≡◌, Bool-cases, if◌then◌else◌, refl, inl, All-append, inr, ◌∙◌,
}
use buffdata.Engine.Limiter.{take_turn, Limiter, Turn, is_recent, sleep, window, through}

-- The turns that callers take, one after the other under the lock, and the times of the calls that
-- were let through.
pub record Log : Type 0 where
  pub limiter : Limiter
  pub let_through : List ℕ

pub record Clock : Type 0 where
  pub now : ℕ
  pub later : ℕ

abbrev pub noted : ℕ → List ℕ → Turn × Limiter → Log
noted later log (through, l) = record { limiter = l; let_through = log ++ later ∷ [] }
noted later log (sleep s, l) = record { limiter = l; let_through = log }

abbrev pub take_turns : List Clock → Log → Log
take_turns [] g = g
take_turns (c ∷ cs) g =
    take_turns cs (noted c.later g.let_through (take_turn c.now c.later g.limiter))

-- The clock does not go back.
abbrev pub IsMonotonic : ℕ → List Clock → Type 0
IsMonotonic start [] = Unit
IsMonotonic start (c ∷ cs) = (start ≤ c.now) × (c.now ≤ c.later) × IsMonotonic c.later cs

-- How many of some times lie in the window that starts at a time.
abbrev pub in_window : ℕ → ℕ → Bool
in_window start t = leb start t && ltb t (start + window)

abbrev pub in_windows : ℕ → List ℕ → ℕ
in_windows start ts = length (select (in_window start) ts)

-- After some turns, at a time of the clock: no window has too many calls, and the limiter knows the calls of
-- each window that is not over.
record IsLimited (clock : ℕ) (g : Log) : Type 0 where
  most : (start : ℕ) → in_windows start g.let_through ≤ g.limiter.max_rpm
  past : All (λ t. t ≤ clock) g.limiter.timestamps
  known :
      (start : ℕ)
      → clock < start + window
      → in_windows start g.let_through ≤ in_windows start g.limiter.timestamps

in_windows-append :
    (start : ℕ) (ts : List ℕ) (t : ℕ)
    → in_windows start (ts ++ t ∷ []) ≡ in_windows start ts + (if in_window start t then 1 else 0)
in_windows-append start [] t = ground arith
in_windows-append start (x ∷ ts) t = ground (arith, in_windows-append start ts t)

-- Pruning leaves the calls of every window that is not over.
in_windows-recent :
    (start now : ℕ) (ts : List ℕ)
    → now < start + window
    → All (λ t. t ≤ now) ts
    → in_windows start (select (is_recent now) ts) ≡ in_windows start ts
in_windows-recent start now [] h p = refl
in_windows-recent start now (t ∷ ts) h p = ground (arith, in_windows-recent start now ts h p.1, p.0)

in_windows-le : (start : ℕ) (ts : List ℕ) → in_windows start ts ≤ length ts
in_windows-le start ts = length-select-le (in_window start) ts

later-past :
    (clock now : ℕ) (ts : List ℕ) → clock ≤ now → All (λ t. t ≤ clock) ts → All (λ t. t ≤ now) ts
later-past clock now ts le h = All-imp (λ t. t ≤ clock) (λ t. t ≤ now) ts (λ t p. omega arith) h

-- No call was let through after the clock.
turn-IsLimited :
    (clock : ℕ) (c : Clock) (g : Log)
    → clock ≤ c.now
    → c.now ≤ c.later
    → IsLimited clock g
    → IsLimited c.later (noted c.later g.let_through (take_turn c.now c.later g.limiter))
unfolding take_turn
turn-IsLimited clock c g le le' h =
    let kept = select (is_recent c.now) g.limiter.timestamps in
    let past = later-past clock c.now g.limiter.timestamps le h.past in
    let kept_past = select-All (λ t. t ≤ c.now) (is_recent c.now) g.limiter.timestamps past in
    let left : (start : ℕ)
        → c.now < start + window
        → in_windows start g.let_through ≤ in_windows start kept =
      λ start s. omega (
        arith,
        in_windows-recent start c.now g.limiter.timestamps s past,
        h.known start (omega arith),
      ) in
    elim (Bool-cases (ltb (length kept) g.limiter.max_rpm)) [
      | inl room ↦ rw room (record {
        most = λ start. ground (
          arith,
          h.most start,
          left start,
          in_windows-append start g.let_through c.later,
          in_windows-le start kept,
          room,
        );
        past =
            All-append (λ t. t ≤ c.later) kept (c.later ∷ [])
              (later-past c.now c.later kept le' kept_past) (omega arith, tt);
        known = λ start s. omega (
          arith,
          left start (omega arith),
          in_windows-append start g.let_through c.later,
          in_windows-append start kept c.later,
        );
      })
      | inr full ↦ rw full (record {
        most = h.most;
        past = later-past c.now c.later kept le' kept_past;
        known = λ start s. left start (omega arith);
      })
    ]

turns-IsLimited :
    (clock : ℕ) (cs : List Clock) (g : Log)
    → IsMonotonic clock cs
    → IsLimited clock g
    → (end' : ℕ) × IsLimited end' (take_turns cs g)
turns-IsLimited clock [] g m h = (clock, h)
turns-IsLimited clock (c ∷ cs) g m h =
    turns-IsLimited c.later cs (noted c.later g.let_through (take_turn c.now c.later g.limiter)) m.2
      (turn-IsLimited clock c g m.0 m.1 h)

max_rpm-take_turn :
    (c : Clock) (g : Log)
    → (noted c.later g.let_through (take_turn c.now c.later g.limiter)).limiter.max_rpm
      ≡ g.limiter.max_rpm
unfolding take_turn
max_rpm-take_turn c g =
    elim (Bool-cases
      (ltb (length (select (is_recent c.now) g.limiter.timestamps)) g.limiter.max_rpm)) [
        | inl room ↦ rw room refl
        | inr full ↦ rw full refl
      ]

max_rpm-take_turns :
    (cs : List Clock) (g : Log) → (take_turns cs g).limiter.max_rpm ≡ g.limiter.max_rpm
max_rpm-take_turns [] g = refl
max_rpm-take_turns (c ∷ cs) g =
    max_rpm-take_turns cs (noted c.later g.let_through (take_turn c.now c.later g.limiter))
    ∙ max_rpm-take_turn c g

abbrev pub fresh : ℕ → ℕ → Log
fresh max_rpm concurrency = record {
  limiter = record { max_rpm = max_rpm; slots = concurrency; timestamps = [] };
  let_through = [];
}

-- Whatever callers take their turns at a new limiter, at whatever times of a clock that does not go
-- back, no sixty seconds, from any start, see more than `max_rpm` of them let through.
pub take_turns-rate :
    (max_rpm concurrency : ℕ) (cs : List Clock) (start : ℕ)
    → IsMonotonic 0 cs
    → in_windows start (take_turns cs (fresh max_rpm concurrency)).let_through ≤ max_rpm
take_turns-rate max_rpm concurrency cs start m =
    let (clock, h) =
      turns-IsLimited 0 cs (fresh max_rpm concurrency) m
        (record { most = λ s. omega arith; past = tt; known = λ s l. omega arith }) in
    omega (arith, h.most start, max_rpm-take_turns cs (fresh max_rpm concurrency))
