-- ===== src/Runs/Runner/Ends.antt =====
-- A local run that was claimed always ends.
use buffdata.Prelude.{
  none, some, true, suc, refl, ℕ, String, Bool, Option, List, ◌+◌, ◌*◌, ◌≤◌, ◌≡◌, string_eq, first,
  inl, inr, ap, sym, ◌∙◌, if_cases,
}
use buffdata.Prelude.Exec.{Result, ok, err, continue, pure, raise, ◌>>=◌}
use buffdata.Prelude.Json.{Json}
use buffdata.Runs.Models.{RunStatus, failed, StoreError}
use buffdata.Runs.Tables.{Db}
use buffdata.Runs.Store.{RunView}
use buffdata.Runs.Lifecycle.{claim, finish, is_leased, is_terminal}
use buffdata.Runs.Lifecycle.Invariant.{IsSound}
use buffdata.Runs.Lifecycle.Kept.{IsSound-IsKept}
use buffdata.Runs.Lifecycle.Success.{finish-released}
use buffdata.Runs.Service.{ServiceError, stored}
use buffdata.Runs.Service.Resume.{Host, ServiceCall, policy}
use buffdata.Runs.Runner.{
  Machine, watch, rounds, supervise, outcome, ended, attempt, caught, started, run_local, beat_of,
  dispatch, checked, run_error, status_text, sent_or_raised, meanwhile,
}
use buffdata.Security.Paths.{Location}
use mathlib.Core.Path.{subst}
use buffdata.Runs.Service.Webhooks.{dispatch_webhooks, Post}
use buffdata.Runs.Service.Artifacts.{parsed, verify_manifest}
use buffdata.Runs.Lifecycle.Calls.{finish-keeps, claim-keeps, heartbeat-keeps}
use buffdata.Runs.Service.Webhooks.Quiet.{dispatch_webhooks-Same}
use buffdata.Runs.Service.Prepare.{prepare}
use buffdata.Runs.Lifecycle.Queue.{ClaimAnswers, claim-ClaimAnswers}
use buffdata.Runs.Runner.Watch.{
  watch-IsOver, Gives, half_seconds, Stops, Result-cases, zero_add, bind-Gives, grown, then-Gives,
  IsOver, last_round, outcome-Stops,
}
use buffdata.Runs.Service.Prepare.Kept.{prepare-IsSound, policy-IsSound}

-- No run of the project is under the lease.
abbrev pub IsReleased : String → String → Option String → Db → Type 0
IsReleased project run_id lease s = first (is_leased project run_id lease) s.runs ≡ none

module _ (m : Machine) (starts : m.time 0 ≤ m.time 1)
    (sleeps : (i : ℕ) → m.time (suc i) + 500000 ≤ m.time (suc (suc i)))
    (keeps : (i : ℕ) (s : Db) → IsSound s → IsSound (m.others i s)) where
  enough : (seconds : ℕ) → m.time 0 + seconds * 1000000 ≤ m.time (0 + suc (2 * seconds))
  enough seconds = half_seconds (m.time 0) seconds (m.time (0 + suc (2 * seconds))) (
      subst (λ n. m.time 0 + 2 * seconds * 500000 ≤ m.time n) (zero_add (suc (2 * seconds)))
        (grown m.time starts sleeps (2 * seconds)))

  pub supervise-Stops :
      (directory : Location) (seconds : ℕ) (beat : ℕ → ServiceCall Bool) (s : Db)
      → ((i : ℕ) (t : Db) → IsSound t → IsSound (beat i t).1)
      → IsSound s
      → Gives Stops IsSound (supervise m directory seconds beat s)
  unfolding supervise
  supervise-Stops directory seconds beat s beats sound =
      then-Gives (λ status t. IsSound t × (is_terminal status ≡ true)) Stops
        (watch m (m.time 0 + seconds * 1000000) beat (rounds seconds) 0 s) (outcome m directory)
        (subst
          (λ n.
            IsOver m (m.time 0 + seconds * 1000000) beat beats
              (watch m (m.time 0 + seconds * 1000000) beat n 0 s))
          (last_round seconds)
          (watch-IsOver m (m.time 0 + seconds * 1000000) beat beats (2 * seconds) 0 s sound
            (enough seconds)))
        (λ status t h. outcome-Stops m directory status t h.0 h.1)

  pub beat-IsSound :
      (project run_id : String) (lease : Option String) (i : ℕ) (t : Db)
      → IsSound t
      → IsSound (beat_of m project run_id lease i t).1
  beat-IsSound project run_id lease i t sound =
      heartbeat-keeps IsSound IsSound-IsKept (m.clock (i + 4)) project run_id lease
        (m.others (i + 6) t) (keeps (i + 6) t sound)

  pub checked-kept :
      (project run_id : String) (h : Host) (manifest : Option Json) (s : Db)
      → (checked m h project run_id manifest s).1 ≡ s
  checked-kept project run_id h none s = refl
  checked-kept project run_id h (some manifest) s =
      if_cases (λ (c : ServiceCall Unit). (c s).1 ≡ s) (m.truth manifest) _ _
        (λ e. elim (Result-cases (parsed h.python manifest)) [
          | inl (x, k) ↦
              rw k
                (elim (Result-cases (verify_manifest h.python h.disk h.root project run_id x s)) [
                  | inl (y, l) ↦ rw l refl
                  | inr (f, l) ↦ rw l refl
                ])
          | inr (f, k) ↦ rw k refl
        ])
        (λ e. refl)

  module _ (project run_id : String) (lease : Option String)
      (spares : (i : ℕ) (s : Db)
        → IsReleased project run_id lease s
        → IsReleased project run_id lease (m.others i s)) where
    abbrev Released : Db → Type 0
    Released s = IsReleased project run_id lease s

    abbrev Left : RunView → Db → Type 0
    Left view s = Released s

    dispatched-Left :
        (status : RunStatus) (view : RunView) (s : Db)
        → IsSound s
        → Released s
        → (r : Option (Db × List Post))
        → dispatch_webhooks m.wire project run_id
            (status_text status)
            (m.payload project run_id (status_text status))
            s
          ≡ r
        → Gives Left IsSound (continue (sent_or_raised s r) (λ _. pure (some view)))
    dispatched-Left status view s sound free none e = sound
    dispatched-Left status view s sound free (some (t, posts)) e =
        let same =
          dispatch_webhooks-Same m.wire project run_id (status_text status)
            (m.payload project run_id (status_text status)) s t posts e in
        ap (first (is_leased project run_id lease)) same.0 ∙ free

    finished-Left :
        (r : Result StoreError RunView × Db)
        → IsSound r.1
        → Released r.1
        → Gives Left IsSound (
            continue (stored r) (λ result. meanwhile m 3 >>= λ _.
            dispatch m project run_id result.status >>= λ _. pure (some result)))
    finished-Left (err e, s) sound free = sound
    finished-Left (ok view, s) sound free =
        dispatched-Left view.status view (m.others 3 s) (keeps 3 s sound) (spares 3 s free)
          (dispatch_webhooks m.wire project run_id (status_text view.status)
            (m.payload project run_id (status_text view.status)) (m.others 3 s))
          refl

    ended-Left :
        (h : Host) (x : RunStatus × Option Json) (s : Db)
        → Stops x s
        → Gives Left IsSound (ended m h project run_id lease (some x) s)
    ended-Left h (status, manifest) s (sound, over) =
        bind-Gives Left (checked m h project run_id manifest s) _
          (subst IsSound (sym (checked-kept project run_id h manifest s)) sound)
          (λ _ t kept.
            finished-Left
              (finish (m.clock 2) project run_id lease status manifest (run_error status) none
                (m.others 2 t))
              (finish-keeps IsSound IsSound-IsKept (m.clock 2) project run_id lease status manifest
                (run_error status) none (m.others 2 t) (keeps 2 t kept))
              (finish-released (m.clock 2) project run_id lease status manifest (run_error status)
                (m.others 2 t) (keeps 2 t kept) over))

    attempt-Left :
        (h : Host) (run : RunView) (s : Db)
        → run.lease ≡ lease
        → IsSound s
        → Gives Left IsSound (attempt m h project run_id run s)
    unfolding attempt
    attempt-Left h run s held sound = rw held (
        bind-Gives Left (prepare h m.keys (m.clock 1) run.body (m.others 0 s)) _
          (prepare-IsSound h m.keys (m.clock 1) run.body (m.others 0 s) (keeps 0 s sound))
          (λ prepared t0 k0.
            let t1 = m.others 1 t0 in
            let k1 : IsSound t1 = keeps 1 t0 k0 in
            bind-Gives Left (policy project t1) _ (policy-IsSound project t1 k1) (λ p t2 k2.
              then-Gives Stops Left
                (supervise m prepared.0 (m.execution_seconds p) (beat_of m project run_id lease) t2)
                (ended m (m.finished h) project run_id lease)
                (supervise-Stops prepared.0 (m.execution_seconds p) (beat_of m project run_id lease)
                  t2 (beat-IsSound project run_id lease) k2)
                (ended-Left (m.finished h)))))

    -- The except branch leaves no run under the lease either.
    told-Released :
        (e : ServiceError) (s : Db)
        → Released s
        → (r : Option (Db × List Post))
        → dispatch_webhooks m.wire project run_id "failed" (m.payload project run_id "failed") s ≡ r
        → Gives Left Released (continue (sent_or_raised s r) (λ _. raise {A = Option RunView} e))
    told-Released e s free none k = free
    told-Released e s free (some (t, posts)) k =
        ap (first (is_leased project run_id lease))
          (dispatch_webhooks-Same m.wire project run_id "failed" (m.payload project run_id "failed")
            s t posts k).0
        ∙ free

    abandoned :
        (e : ServiceError) (r : Result StoreError RunView × Db)
        → Released r.1
        → Gives Left Released (
            continue (stored r) (λ _. meanwhile m 5 >>= λ _.
            dispatch m project run_id failed >>= λ _. raise {A = Option RunView} e))
    abandoned e (err f, s) free = free
    abandoned e (ok view, s) free =
        told-Released e (m.others 5 s) (spares 5 s free)
          (dispatch_webhooks m.wire project run_id "failed" (m.payload project run_id "failed")
            (m.others 5 s))
          refl

    caught-Released :
        (r : Result ServiceError (Option RunView) × Db)
        → Gives Left IsSound r
        → Gives Left Released (caught m project run_id lease r)
    caught-Released (ok none, s) given = given
    caught-Released (ok (some view), s) given = given
    caught-Released (err e, s) sound =
        abandoned e
          (finish (m.clock 3) project run_id lease failed none
            (some "Execution failed; no dataset published") none (m.others 4 s))
          (finish-released (m.clock 3) project run_id lease failed none
            (some "Execution failed; no dataset published") (m.others 4 s) (keeps 4 s sound) refl)

  module _ (h : Host) (project run_id : String)
      (spares : (i : ℕ) (s : Db)
        → IsReleased project run_id (some (m.clock 0).token) s
        → IsReleased project run_id (some (m.clock 0).token) (m.others i s)) where
    claimed-Released :
        (s : Db) (r : Result StoreError (Option RunView) × Db)
        → IsReleased project run_id (some (m.clock 0).token) s
        → IsSound r.1
        → ClaimAnswers (m.clock 0) project (some run_id) s r
        → Gives
            (λ view. IsReleased project run_id (some (m.clock 0).token))
            (IsReleased project run_id (some (m.clock 0).token))
            (continue (stored r) (started m h project run_id))
    claimed-Released s (err e, t) free sound (missing, same) =
        ap (λ (d : Db). first (is_leased project run_id (some (m.clock 0).token)) d.runs) same
        ∙ free
    claimed-Released s (ok none, t) free sound (same, why) =
        ap (λ (d : Db). first (is_leased project run_id (some (m.clock 0).token)) d.runs) same
        ∙ free
    claimed-Released s (ok (some run), t) free sound (idle, (r, row, waits, oldest, seen, left)) =
        let held : run.lease ≡ some (m.clock 0).token = ap (λ (x : RunView). x.lease) seen in
        subst
          (λ l.
            Gives (λ view. IsReleased project run_id (some (m.clock 0).token))
              (IsReleased project run_id (some (m.clock 0).token))
              (caught m project run_id l (attempt m h project run_id run t)))
          (sym held)
          (caught-Released project run_id (some (m.clock 0).token) spares
            (attempt m h project run_id run t)
            (attempt-Left project run_id (some (m.clock 0).token) spares h run t held sound))

    -- Where the clock does not go back before the first round, each later round comes half a second after
    -- the one before it at least, the tables are sound and hold no run under the token that the claim will
    -- draw, and the other processes keep both, `run_local` returns a run or raises: the rounds are enough.
    -- No run is left under its lease, whatever was raised and whatever the others did on the way.
    pub run_local-Released :
        (s : Db)
        → IsSound s
        → IsReleased project run_id (some (m.clock 0).token) s
        → Gives
            (λ view. IsReleased project run_id (some (m.clock 0).token))
            (IsReleased project run_id (some (m.clock 0).token))
            (run_local m h project run_id s)
    unfolding run_local
    run_local-Released s sound free =
        claimed-Released s (claim (m.clock 0) project (some run_id) s) free
          (claim-keeps IsSound IsSound-IsKept (m.clock 0) project (some run_id) s sound)
          (claim-ClaimAnswers (m.clock 0) project (some run_id) s)
