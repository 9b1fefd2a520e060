-- ===== src/Runs/Runner/Watch.antt =====
-- The rounds of supervision are enough.
use buffdata.Prelude.{
  [], none, some, true, false, zero, suc, refl, ℕ, Bool, Option, ◌∷◌, ◌+◌, ◌*◌, ◌≤◌, if◌then◌else◌,
  ◌≡◌, leb, string_eq, Bool-cases, inl, inr, arith, ◌++◌, ◌⊎◌,
}
use buffdata.Prelude.Exec.{Result, ok, err, continue, pure}
use buffdata.Prelude.Json.{Json}
use buffdata.Runs.Models.{RunStatus, queued, running, failed, cancelled, interrupted}
use buffdata.Runs.Tables.{Db}
use buffdata.Runs.Lifecycle.{is_terminal}
use buffdata.Runs.Lifecycle.Invariant.{IsSound}
use buffdata.Runs.Service.{ServiceError}
use buffdata.Runs.Service.Resume.{ServiceCall, give}
use buffdata.Runs.Runner.{Machine, watch, rounds, exit_status, outcome, round}
use buffdata.Security.Paths.{Location}
use mathlib.Core.Path.{subst}

-- What an action gives, where it does not run out of fuel, and the tables that it leaves.
abbrev pub Gives :
    {A : Type 0} → (A → Db → Type 0) → (Db → Type 0) → Result ServiceError (Option A) × Db → Type 0
Gives Q R (ok none, s) = ⊥
Gives Q R (ok (some a), s) = Q a s
Gives Q R (err e, s) = R s

not_late : (a b : ℕ) → leb a b ≡ false → a ≤ b → ⊥
not_late a b h k = ground (arith, h, k)

shifted : (i n : ℕ) → i + suc n ≡ i + 1 + n
shifted i n = omega arith

pub Result-cases :
    {A : Type 0} (r : Result ServiceError A)
    → ((a : A) × (r ≡ ok a)) ⊎ ((e : ServiceError) × (r ≡ err e))
Result-cases (ok a) = inl (a, refl)
Result-cases (err e) = inr (e, refl)

module _ (m : Machine) (deadline : ℕ) (beat : ℕ → ServiceCall Bool)
    (beats : (i : ℕ) (s : Db) → IsSound s → IsSound (beat i s).1) where
  abbrev pub IsOver : Result ServiceError (Option RunStatus) × Db → Type 0
  IsOver r = Gives (λ status s. IsSound s × (is_terminal status ≡ true)) IsSound r

  exit-terminal : (code : ℕ) → is_terminal (exit_status code) ≡ true
  exit-terminal code = ground arith

  beat_lem :
      (i : ℕ) (rest : ServiceCall (Option RunStatus)) (r : Result ServiceError Bool × Db)
      → IsSound r.1
      → ((s : Db) → IsSound s → leb deadline (m.time (i + 1)) ≡ false → IsOver (rest s))
      → IsOver (
          continue r (λ stop.
            if stop
            then pure (some cancelled)
            else if leb deadline (m.time (i + 1))
            then pure (some failed)
            else rest))
  beat_lem i rest (err e, s) sound later = sound
  beat_lem i rest (ok true, s) sound later = (sound, refl)
  beat_lem i rest (ok false, s) sound later = elim (Bool-cases (leb deadline (m.time (i + 1)))) [
    | inl e ↦ rw e (sound, refl)
    | inr e ↦ rw e (later s sound e)
  ]

  round_lem :
      (i : ℕ) (rest : ServiceCall (Option RunStatus)) (code : Option ℕ) (s : Db)
      → IsSound s
      → ((t : Db) → IsSound t → leb deadline (m.time (i + 1)) ≡ false → IsOver (rest t))
      → IsOver (round m deadline beat i rest code s)
  round_lem i rest (some code) s sound later = (sound, exit-terminal code)
  round_lem i rest none s sound later = beat_lem i rest (beat i s) (beats i s sound) later

  -- The last round comes after the deadline.
  pub watch-IsOver :
      (n i : ℕ) (s : Db)
      → IsSound s
      → deadline ≤ m.time (i + suc n)
      → IsOver (watch m deadline beat (suc n) i s)
  unfolding watch
  watch-IsOver zero i s sound late =
      round_lem i (watch m deadline beat zero (i + 1)) (m.poll i) s sound
        (λ t h k. absurd (not_late deadline (m.time (i + 1)) k late))
  watch-IsOver (suc n) i s sound late =
      round_lem i (watch m deadline beat (suc n) (i + 1)) (m.poll i) s sound (λ t h k.
        watch-IsOver n (i + 1) t h (subst (λ j. deadline ≤ m.time j) (shifted i (suc n)) late))

pub grown :
    (time : ℕ → ℕ)
    → time 0 ≤ time 1
    → ((i : ℕ) → time (suc i) + 500000 ≤ time (suc (suc i)))
    → (n : ℕ) → time 0 + n * 500000 ≤ time (suc n)
grown time starts grows zero = omega (arith, starts)
grown time starts grows (suc n) = omega (arith, grows n, grown time starts grows n)

-- The rest of a block gives what it gives, where its first action keeps the tables sound.
pub bind-Gives :
    {A B : Type 0} (Q : B → Db → Type 0) (r : Result ServiceError A × Db)
    (f : A → ServiceCall (Option B))
    → IsSound r.1
    → ((a : A) (t : Db) → IsSound t → Gives Q IsSound (f a t))
    → Gives Q IsSound (continue r f)
bind-Gives Q (err e, s) f sound h = sound
bind-Gives Q (ok a, s) f sound h = h a s sound

pub then-Gives :
    {A B : Type 0} (P : A → Db → Type 0) (Q : B → Db → Type 0)
    (r : Result ServiceError (Option A) × Db) (f : Option A → ServiceCall (Option B))
    → Gives P IsSound r
    → ((a : A) (t : Db) → P a t → Gives Q IsSound (f (some a) t))
    → Gives Q IsSound (continue r f)
then-Gives P Q (err e, s) f given h = given
then-Gives P Q (ok none, s) f given h = absurd given
then-Gives P Q (ok (some a), s) f given h = h a s given

abbrev pub Stops : RunStatus × Option Json → Db → Type 0
Stops x s = IsSound s × (is_terminal x.0 ≡ true)

pub outcome-Stops :
    (m : Machine) (directory : Location) (status : RunStatus) (s : Db)
    → IsSound s
    → is_terminal status ≡ true
    → Gives Stops IsSound (outcome m directory (some status) s)
outcome-Stops m directory RunStatus.succeeded s sound over =
    bind-Gives Stops (give (m.read_json (directory ++ "candidate-manifest.json" ∷ [])) s) _ sound
      (λ a t h. (h, refl))
outcome-Stops m directory queued s sound over = (sound, over)
outcome-Stops m directory running s sound over = (sound, over)
outcome-Stops m directory failed s sound over = (sound, refl)
outcome-Stops m directory cancelled s sound over = (sound, refl)
outcome-Stops m directory interrupted s sound over = (sound, refl)

pub zero_add : (n : ℕ) → n ≡ 0 + n
zero_add n = omega arith

pub half_seconds : (a s b : ℕ) → a + 2 * s * 500000 ≤ b → a + s * 1000000 ≤ b
half_seconds a s b h = omega arith

pub last_round : (seconds : ℕ) → suc (2 * seconds) ≡ rounds seconds
last_round seconds = omega arith
