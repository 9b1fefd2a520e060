-- ===== src/Governance/Contract/Check.antt =====
-- What a passed check says of the report.
use buffdata.Prelude.{
  ℕ, String, List, Option, is_empty, some, select, none, ◌++◌, ◌≡◌, true, false, not, contains, ◌∷◌,
  ◌+◌, ◌↔◌, All, [], arith, refl, none-ne-some, string_eq, some-inj, Bool-cases, inl, inr, ◌⊎◌, ◌<◌,
  Bool, ◌==◌, Option-cases, nat_eq, sym, ◌∙◌,
}
use buffdata.Governance.Contract.{
  check_contract, Requirements, Gate, divided, violation_if, rejected_fraction, gate_gain, Report,
  DataContract, quality_violations, relative_gain, policy_violations, rejected_violations,
  class_violations, gain_violations,
}
use buffdata.Runs.Tables.{option_beq_iff}
use mathlib.Core.Path.{subst}
use buffdata.Prelude.Floats.{Float, Floats}

-- A requirement that is made holds.
abbrev pub Required : {A : Type 0} → Option A → (A → Type 0) → Type 0
Required none P = Unit
Required (some a) P = P a

-- The relative gain that a gate shows: the one that it states, or else its gain divided by an original
-- accuracy that is not zero.
abbrev pub Shows : Floats → Option Gate → Float → Type 0
Shows fl none g = ⊥
Shows fl (some gate) g =
    (gate.relative_gain ≡ some g)
    ⊎ ((a : Float) × (b : Float) × (gate.relative_gain ≡ none)
        × (gate.accuracy_gain ≡ some a)
        × (gate.original_accuracy ≡ some b)
        × (fl.is_zero b ≡ false)
        × (g ≡ fl.divide a b))

-- The share of the records that were rejected, which is 0 where there is none.
abbrev pub Share : Floats → ℕ → ℕ → Float → Type 0
Share fl accepted rejected f =
    ((accepted + rejected ≡ 0) × (f ≡ fl.nought))
    ⊎ ((0 < accepted + rejected) × (f ≡ fl.quotient rejected (accepted + rejected)))

-- The report meets the requirements: no number is below its minimum, or above its maximum.
pub record Meets (fl : Floats) (q : Requirements) (r : Report) : Type 0 where
  pub gain :
      Required q.min_relative_accuracy_gain
        (λ m. (g : Float) × Shows fl r.accuracy_gate g × (fl.less g m ≡ false))
  pub quality :
      Required q.min_quality_score
        (λ m. (s : Float) × (r.average_overall_score ≡ some s) × (fl.less s m ≡ false))
  pub rejections :
      Required q.max_rejected_fraction (λ m.
        (f : Float) × Share fl r.accepted_records r.rejected_records f × (fl.less m f ≡ false))
  pub pii : Required q.required_pii_policy (λ p. r.pii_policy ≡ some p)
  pub network : Required q.required_network_policy (λ p. r.network_policy ≡ some p)
  pub classes : Required q.required_classes (λ cs. All (λ c. contains c r.classes ≡ true) cs)

empty_parts :
    (xs ys : List String) → is_empty (xs ++ ys) ≡ true → (is_empty xs ≡ true) × (is_empty ys ≡ true)
empty_parts [] ys h = (refl, h)
empty_parts (x ∷ xs) ys h = ground (arith, h)

empty_whole :
    (xs ys : List String) → is_empty xs ≡ true → is_empty ys ≡ true → is_empty (xs ++ ys) ≡ true
empty_whole [] ys h k = k
empty_whole (x ∷ xs) ys h k = h

violation_iff : (b : Bool) (name : String) → (is_empty (violation_if b name) ≡ true) ↔ (b ≡ false)
violation_iff true name = ((λ e. ground (arith, e)), (λ e. ground (arith, e)))
violation_iff false name = ((λ e. refl), (λ e. refl))

module _ (fl : Floats) where
  divided-Shows :
      (gate : Gate) (gain original : Option Float)
      → gate.relative_gain ≡ none
      → gate.accuracy_gain ≡ gain
      → gate.original_accuracy ≡ original
      → (g : Float) → divided fl gain original ≡ some g
      → Shows fl (some gate) g
  divided-Shows gate none original r h k g e = absurd (none-ne-some e)
  divided-Shows gate (some a) none r h k g e = absurd (none-ne-some e)
  divided-Shows gate (some a) (some b) r h k g e = elim (Bool-cases (fl.is_zero b)) [
    | inl z ↦ absurd (none-ne-some (rw z at e))
    | inr z ↦ inr (a, b, r, h, k, z, sym (some-inj (rw z at e)))
  ]

  relative_gain-Shows :
      (gate : Option Gate) (g : Float) → (relative_gain fl gate ≡ some g) ↔ Shows fl gate g
  relative_gain-Shows none g = ((λ e. absurd (none-ne-some e)), (λ e. absurd e))
  relative_gain-Shows (some gate) g = (
    (λ e. elim (Option-cases gate.relative_gain) [
      | inl n ↦
          divided-Shows gate gate.accuracy_gain gate.original_accuracy n refl refl g
            (rw (gate_gain, n) at e)
      | inr (r, n) ↦ inl (n ∙ (rw (gate_gain, n) at e))
    ]),
    (λ h. elim h [ inl n ↦ rw n refl | inr (a, b, n, k, l, z, same) ↦ rw (n, k, l, z, same) refl ]),
  )

  gain_iff :
      (q : Option Float) (gate : Option Gate)
      → (is_empty (gain_violations fl q (relative_gain fl gate)) ≡ true)
        ↔ Required q (λ m. (g : Float) × Shows fl gate g × (fl.less g m ≡ false))
  gain_iff none gate = ((λ _. tt), (λ _. refl))
  gain_iff (some m) gate = elim (Option-cases (relative_gain fl gate)) [
    | inl e ↦ rw e (
      (λ f. ground (arith, f)),
      (λ h. absurd (none-ne-some (sym e ∙ (relative_gain-Shows gate h.0).1 h.1))),
    )
    | inr (g, e) ↦ rw e (
      (λ f. (
        g,
        (relative_gain-Shows gate g).0 e,
        (violation_iff (fl.less g m) "min_relative_accuracy_gain").0 f,
      )),
      (λ h.
          let same = some-inj (sym e ∙ (relative_gain-Shows gate h.0).1 h.1) in
          (violation_iff (fl.less g m) "min_relative_accuracy_gain").1
            (subst (λ x. fl.less x m ≡ false) (sym same) h.2)),
    )
  ]

  quality_iff :
      (q : Option Float) (s : Option Float)
      → (is_empty (quality_violations fl q s) ≡ true)
        ↔ Required q (λ m. (t : Float) × (s ≡ some t) × (fl.less t m ≡ false))
  quality_iff none s = ((λ _. tt), (λ _. refl))
  quality_iff (some m) none = ((λ e. ground (arith, e)), (λ h. absurd (none-ne-some h.1)))
  quality_iff (some m) (some s) = (
    (λ e. (s, refl, (violation_iff (fl.less s m) "min_quality_score").0 e)),
    (λ h.
        (violation_iff (fl.less s m) "min_quality_score").1
          (subst (λ x. fl.less x m ≡ false) (sym (some-inj h.1)) h.2)),
  )

  rejected_fraction-Share : (a r : ℕ) → Share fl a r (rejected_fraction fl a r)
  rejected_fraction-Share a r = elim (Bool-cases (a + r == 0)) [
    | inl e ↦ rw e (inl (ground (arith, e), refl))
    | inr e ↦ rw e (inr (ground (arith, e), refl))
  ]

  Share-fraction : (a r : ℕ) (f : Float) → Share fl a r f → f ≡ rejected_fraction fl a r
  Share-fraction a r f (inl (n, e)) = rw (rejected_fraction, n) e
  Share-fraction a r f (inr (n, e)) = elim (Bool-cases (a + r == 0)) [
    | inl z ↦ absurd (ground (arith, n, z))
    | inr z ↦ rw (rejected_fraction, z) e
  ]

  rejected_iff :
      (q : Option Float) (a r : ℕ)
      → (is_empty (rejected_violations fl q a r) ≡ true)
        ↔ Required q (λ m. (f : Float) × Share fl a r f × (fl.less m f ≡ false))
  rejected_iff none a r = ((λ _. tt), (λ _. refl))
  rejected_iff (some m) a r = (
    (λ e. (
      rejected_fraction fl a r,
      rejected_fraction-Share a r,
      (violation_iff (fl.less m (rejected_fraction fl a r)) "max_rejected_fraction").0 e,
    )),
    (λ h.
        (violation_iff (fl.less m (rejected_fraction fl a r)) "max_rejected_fraction").1
          (subst (λ x. fl.less m x ≡ false) (Share-fraction a r h.0 h.1) h.2)),
  )

policy_iff :
    (name : String) (q actual : Option String)
    → (is_empty (policy_violations name q actual) ≡ true) ↔ Required q (λ p. actual ≡ some p)
policy_iff name none actual = ((λ _. tt), (λ _. refl))
policy_iff name (some p) actual = ground (arith, option_beq_iff actual (some p))

missing_iff :
    (actual cs : List String)
    → (is_empty (select (λ c. not (contains c actual)) cs) ≡ true)
      ↔ All (λ c. contains c actual ≡ true) cs
missing_iff actual [] = ((λ _. tt), (λ _. refl))
missing_iff actual (c ∷ cs) = ground (arith, missing_iff actual cs)

class_iff :
    (q : Option (List String)) (actual : List String)
    → (is_empty (class_violations q actual) ≡ true)
      ↔ Required q (λ cs. All (λ c. contains c actual ≡ true) cs)
class_iff none actual = ((λ _. tt), (λ _. refl))
class_iff (some cs) actual = ground (arith, missing_iff actual cs)

-- A report passes the check of a contract just where it meets each of the requirements that the contract
-- makes, with Python's floats, whatever they compute: evidence that is missing does not pass.
pub check_contract-Meets :
    (fl : Floats) (c : DataContract) (r : Report)
    → ((check_contract fl c r).passed ≡ true) ↔ Meets fl c.requirements r
unfolding check_contract
check_contract-Meets fl c r =
    let q = c.requirements in
    (
      (λ h.
          let p0 = empty_parts _ _ h in
          let p1 = empty_parts _ _ p0.1 in
          let p2 = empty_parts _ _ p1.1 in
          let p3 = empty_parts _ _ p2.1 in
          let p4 = empty_parts _ _ p3.1 in
          record {
            gain = (gain_iff fl q.min_relative_accuracy_gain r.accuracy_gate).0 p0.0;
            quality = (quality_iff fl q.min_quality_score r.average_overall_score).0 p1.0;
            rejections =
                (rejected_iff fl q.max_rejected_fraction r.accepted_records r.rejected_records).0
                  p2.0;
            pii = (policy_iff "required_pii_policy" q.required_pii_policy r.pii_policy).0 p3.0;
            network =
                (policy_iff "required_network_policy" q.required_network_policy r.network_policy).0
                  p4.0;
            classes = (class_iff q.required_classes r.classes).0 p4.1;
          }),
      (λ m. empty_whole _ _ ((gain_iff fl q.min_relative_accuracy_gain r.accuracy_gate).1 m.gain) (
          empty_whole _ _ ((quality_iff fl q.min_quality_score r.average_overall_score).1 m.quality)
            (empty_whole _ _
              ((rejected_iff fl q.max_rejected_fraction r.accepted_records r.rejected_records).1
                m.rejections)
              (empty_whole _ _
                ((policy_iff "required_pii_policy" q.required_pii_policy r.pii_policy).1 m.pii)
                (empty_whole _ _
                  ((policy_iff "required_network_policy" q.required_network_policy
                      r.network_policy).1
                    m.network)
                  ((class_iff q.required_classes r.classes).1 m.classes)))))),
    )
