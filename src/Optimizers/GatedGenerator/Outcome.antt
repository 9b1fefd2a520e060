-- ===== src/Optimizers/GatedGenerator/Outcome.antt =====
-- What the result of the generator says.
use buffdata.Prelude.{
  ℕ, List, Bool, ◌+◌, Option, ◌≡◌, none, ◌≤◌, length, [], false, some, ◌⊎◌, All, Bool-cases, true,
  All-append, suc, ltb, inl, arith, inr, refl, Option-cases, ap, zero, All-imp, sym, length-append,
  ◌∙◌, ◌++◌, ◌∷◌, if_cases,
}
use buffdata.Optimizers.GatedGenerator.{
  Trainer, generate, next_state, AccuracyGateReport, iterate, initial, LoopState, diagnosed,
  IterationMetric,
}
use buffdata.Models.Item.{Item}
use mathlib.Core.Path.{subst}

-- What a result promises, where it passed and where it did not.
abbrev pub Promises : Trainer → ℕ → Bool → List Item → AccuracyGateReport → Type 0
Promises t max_iterations true pool r =
    ((t.evaluate_accuracy_gain pool).accepted ≡ true)
    × (r.final_accuracy ≡ (t.evaluate_accuracy_gain pool).candidate_accuracy_mean)
    × (r.iterations_used ≡ length r.per_iteration)
    × (r.iterations_used ≤ max_iterations)
Promises t max_iterations false pool r =
    All (λ m. m.accepted ≡ false) r.per_iteration
    × (length r.per_iteration ≡ max_iterations)
    × (r.final_accuracy ≡ (t.evaluate_accuracy_gain pool).candidate_accuracy_mean)
    × All (λ m. m.accuracy ≤ r.final_accuracy) r.per_iteration

-- The best of the iterations so far, of which there is one at least once the loop has begun.
abbrev IsBest : Trainer → LoopState → Option ℕ → Type 0
IsBest t s none = s.per_iteration ≡ []
IsBest t s (some b) =
    ((t.evaluate_accuracy_gain s.best_pool).candidate_accuracy_mean ≡ b)
    × All (λ m. m.accuracy ≤ b) s.per_iteration

length_last :
    (ms : List IterationMetric) (m : IterationMetric) → length (ms ++ m ∷ []) ≡ length ms + 1
length_last ms m = length-append ms (m ∷ [])

module _ (t : Trainer) (count max : ℕ) where
  rejected_next :
      (iteration : ℕ) (s : LoopState)
      → (t.evaluate_accuracy_gain (next_state t count max iteration s).pool).accepted ≡ false
      → All (λ m. m.accepted ≡ false) s.per_iteration
      → All (λ m. m.accepted ≡ false) (next_state t count max iteration s).per_iteration
  rejected_next iteration s refused h =
      All-append (λ m. m.accepted ≡ false) s.per_iteration _ h (refused, tt)

  IsBest-next :
      (iteration : ℕ) (s : LoopState)
      → IsBest t s s.best_accuracy
      → (b : ℕ) × ((next_state t count max iteration s).best_accuracy ≡ some b)
        × IsBest t (next_state t count max iteration s) (some b)
  IsBest-next iteration s h = elim (Option-cases s.best_accuracy) [
    | inl first ↦ rw first (_, refl, (refl, rw (rw first at h) (omega arith, tt)))
    | inr (b, e) ↦
        let a =
          (t.evaluate_accuracy_gain
            (next_state t count max iteration s).pool).candidate_accuracy_mean in
        let old : IsBest t s (some b) = rw e at h in
        elim (Bool-cases (ltb b a)) [
          | inl better ↦
              rw (e, better)
                (
                  a,
                  refl,
                  (
                    refl,
                    All-append (λ m. m.accuracy ≤ a) s.per_iteration _
                        (All-imp (λ m. m.accuracy ≤ b) (λ m. m.accuracy ≤ a) s.per_iteration
                          (λ m le. ground (arith, le, better)) old.1)
                        (omega arith, tt),
                  ),
                )
          | inr worse ↦
              rw (e, worse)
                (
                  b,
                  refl,
                  (
                    old.0,
                    All-append (λ m. m.accuracy ≤ b) s.per_iteration _ old.1
                        (ground (arith, worse), tt),
                  ),
                )
        ]
  ]

  abbrev PromisesOf : List Item × AccuracyGateReport → Type 0
  PromisesOf (pool, r) = Promises t max r.passed pool r

  promised :
      (left iteration : ℕ) (s : LoopState)
      → left + iteration ≡ max + 1
      → 1 ≤ max
      → length s.per_iteration + 1 ≡ iteration
      → All (λ m. m.accepted ≡ false) s.per_iteration
      → IsBest t s s.best_accuracy
      → let (pool, r) = iterate t count max left iteration s in Promises t max r.passed pool r
  promised zero iteration s e le n rej best = elim (Option-cases s.best_accuracy) [
    | inl first ↦ absurd (ground (arith, ap length (rw first at best)))
    | inr (b, f) ↦
        let b0 : IsBest t s (some b) = rw f at best in
        rw f (rej, ground (arith, n, e), sym b0.0, b0.1)
  ]
  promised (suc left) iteration s e le n rej best =
      let m = next_state t count max iteration s in
      let longer : length m.per_iteration + 1 ≡ suc iteration =
        omega (arith, n, length-append s.per_iteration _) in
      let (b, is, best') = IsBest-next iteration s best in
      let kept = subst (IsBest t m) (sym is) best' in
      if_cases PromisesOf (t.evaluate_accuracy_gain m.pool).accepted _ _
        (λ taken. (taken, refl, sym (length_last s.per_iteration _ ∙ n), omega (arith, e)))
        (λ refused.
          if_cases (λ z. PromisesOf (iterate t count max left (suc iteration) z))
            (ltb iteration max) _ _
            (λ _.
              promised left (suc iteration) (diagnosed count (t.diagnose_candidate_errors m.pool) m)
                (omega (arith, e)) le longer (rejected_next iteration s refused rej) kept)
            (λ _.
              promised left (suc iteration) m (omega (arith, e)) le longer
                (rejected_next iteration s refused rej) kept))

-- A result that passed is a pool that the gate accepted, with its accuracy, after as many
-- iterations as the report lists and no more than are allowed. One that did not pass comes after all
-- the iterations, none of them accepted, and is the pool with the best accuracy of them all. There
-- is no result only where no iteration is allowed.
pub generate-Promises :
    (t : Trainer) (weak_class_count max_iterations : ℕ) (items : List Item)
    → ((max_iterations ≡ 0) × (generate t weak_class_count max_iterations items ≡ none))
      ⊎ ((pool : List Item) × (r : AccuracyGateReport) × (generate t weak_class_count max_iterations
              items
            ≡ some (pool, r))
          × Promises t max_iterations r.passed pool r)
unfolding generate
generate-Promises t count max items = elim (Bool-cases (ltb max 1)) [
  | inl e ↦ rw e (inl (ground (arith, e), refl))
  | inr e ↦ rw e (
      inr (
        _,
        _,
        refl,
        promised t count max max 1 (initial items) refl (ground (arith, e)) refl tt refl,
      ))
]
