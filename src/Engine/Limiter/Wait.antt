-- ===== src/Engine/Limiter/Wait.antt =====
-- The wait: a caller that slept as long as it was told gets through, unless another one did before.
use buffdata.Prelude.{
  ℕ, List, ◌<◌, length, ◌≤◌, All, select, ◌≡◌, ◌+◌, arith, select-All, All-imp, length-select-le,
  ◌-◌, Bool-cases, ◌∷◌, ltb, inl, [], length-append, inr, ltb→lt, All-append,
}
use buffdata.Engine.Limiter.{take_turn, Limiter, is_recent, sleep, through, window, first_or}

-- The limiter holds no more times than it may, none of them after the clock.
pub record IsBounded (clock : ℕ) (l : Limiter) : Type 0 where
  pub size : length l.timestamps ≤ l.max_rpm
  pub past : All (λ t. t ≤ clock) l.timestamps

first_expires :
    (now later : ℕ) (ts : List ℕ)
    → 0 < length ts
    → All (λ t. t ≤ now) ts
    → now + (window - (now - first_or now ts) + 50) ≤ later
    → length (select (is_recent later) ts) < length ts
first_expires now later [] h p w = absurd (omega arith)
first_expires now later (t ∷ ts) h p w = ground (arith, length-select-le (is_recent later) ts, p.0)

size-kept :
    (now : ℕ) (l : Limiter)
    → length l.timestamps ≤ l.max_rpm
    → length (select (is_recent now) l.timestamps) ≤ l.max_rpm
size-kept now l h = omega (arith, length-select-le (is_recent now) l.timestamps)

take_turn-IsBounded :
    (clock now later : ℕ) (l : Limiter)
    → clock ≤ now
    → now ≤ later
    → IsBounded clock l
    → IsBounded later (take_turn now later l).1
unfolding take_turn
take_turn-IsBounded clock now later l le le' h =
    let kept = select (is_recent now) l.timestamps in
    let past = select-All (λ t. t ≤ clock) (is_recent now) l.timestamps h.past in
    let past' = All-imp (λ t. t ≤ clock) (λ t. t ≤ later) kept (λ t p. omega arith) past in
    elim (Bool-cases (ltb (length kept) l.max_rpm)) [
      | inl room ↦ rw room (record {
        size = omega (arith, length-append kept (later ∷ []), ltb→lt (length kept) l.max_rpm room);
        past = All-append (λ t. t ≤ later) kept (later ∷ []) past' (omega arith, tt);
      })
      | inr full ↦ rw full (record { size = size-kept now l h.size; past = past' })
    ]

-- At a limiter that allows a call at all, a caller that is told to sleep, and takes its next turn no
-- sooner than that, gets through, where no other caller has taken a turn between. What it is told
-- is no more than 60.05 seconds.
pub take_turn-wakes :
    (clock now later now' later' seconds : ℕ) (l : Limiter)
    → 0 < l.max_rpm
    → IsBounded clock l
    → clock ≤ now
    → (take_turn now later l).0 ≡ sleep seconds
    → now + seconds ≤ now'
    → ((take_turn now' later' (take_turn now later l).1).0 ≡ through) × (seconds ≤ window + 50)
unfolding take_turn
take_turn-wakes clock now later now' later' seconds l pos h le told slept =
    let kept = select (is_recent now) l.timestamps in
    let past = select-All (λ t. t ≤ clock) (is_recent now) l.timestamps h.past in
    let past' = All-imp (λ t. t ≤ clock) (λ t. t ≤ now) kept (λ t p. omega arith) past in
    elim (Bool-cases (ltb (length kept) l.max_rpm)) [
      | inl room ↦ absurd (ground (arith, rw room at told))
      | inr full ↦
          let same : window - (now - first_or now kept) + 50 ≡ seconds =
            ground (arith, rw full at told) in
          let less =
            first_expires now now' kept (ground (arith, full)) past' (omega (arith, same)) in
          let room = size-kept now l h.size in
          rw full (ground (arith, less, room), omega (arith, same))
    ]
