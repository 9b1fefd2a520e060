-- ===== src/Governance/Contract.antt =====
-- buffdata/governance/contract.py: a data contract, checked against the report of a run. The scores, gains
-- and fractions are Python's floats, whose operations are a parameter. The texts of violations are left out
-- but for the requirement's name.
pub mod Check
pub mod Examples
use buffdata.Prelude.{
  ℕ, String, Option, Bool, ◌++◌, is_empty, ltb, some, List, [], none, ◌∷◌, ◌*◌, suc, ◌+◌, not, true,
  false, if◌then◌else◌, select, zero, ◌==◌, nat_eq, contains, string_eq,
}
use buffdata.Runs.Tables.{option_eq}
use buffdata.Prelude.Floats.{Float, Floats}

-- `ContractRequirements`: what is none is not required.
pub record Requirements : Type 0 where
  pub min_relative_accuracy_gain : Option Float
  pub min_quality_score : Option Float
  pub max_rejected_fraction : Option Float
  pub required_pii_policy : Option String
  pub required_network_policy : Option String
  pub required_classes : Option (List String)

pub record DataContract : Type 0 where
  pub contract_version : String
  pub name : String
  pub requirements : Requirements

-- What the check reads of an accuracy gate.
pub record Gate : Type 0 where
  pub relative_gain : Option Float
  pub original_accuracy : Option Float
  pub accuracy_gain : Option Float

-- What the check reads of the report, with the accuracy gate from its own file or from the report.
pub record Report : Type 0 where
  pub accuracy_gate : Option Gate
  pub average_overall_score : Option Float
  pub accepted_records : ℕ
  pub rejected_records : ℕ
  pub pii_policy : Option String
  pub network_policy : Option String
  pub classes : List String

pub record ContractResult : Type 0 where
  pub contract_name : String
  pub contract_version : String
  pub passed : Bool
  pub violations : List String

-- `gain / original`, where there is a gain and the original is true.
abbrev pub divided : Floats → Option Float → Option Float → Option Float
divided fl none original = none
divided fl (some g) none = none
divided fl (some g) (some o) = if fl.is_zero o then none else some (fl.divide g o)

abbrev pub gate_gain : Floats → Gate → Option Float
gate_gain fl g = elim g.relative_gain [
  | none ↦ divided fl g.accuracy_gain g.original_accuracy
  | some r ↦ some r
]

abbrev pub relative_gain : Floats → Option Gate → Option Float
relative_gain fl none = none
relative_gain fl (some g) = gate_gain fl g

abbrev pub violation_if : Bool → String → List String
violation_if true name = name ∷ []
violation_if false name = []

abbrev pub gain_violations : Floats → Option Float → Option Float → List String
gain_violations fl none gain = []
gain_violations fl (some m) none = "min_relative_accuracy_gain" ∷ []
gain_violations fl (some m) (some g) = violation_if (fl.less g m) "min_relative_accuracy_gain"

abbrev pub quality_violations : Floats → Option Float → Option Float → List String
quality_violations fl none score = []
quality_violations fl (some m) none = "min_quality_score" ∷ []
quality_violations fl (some m) (some s) = violation_if (fl.less s m) "min_quality_score"

-- `(rejected / total) if total else 0.0`
abbrev pub rejected_fraction : Floats → ℕ → ℕ → Float
rejected_fraction fl accepted rejected =
    let total = accepted + rejected in if total == 0 then fl.nought else fl.quotient rejected total

abbrev pub rejected_violations : Floats → Option Float → ℕ → ℕ → List String
rejected_violations fl none accepted rejected = []
rejected_violations fl (some m) accepted rejected =
    violation_if (fl.less m (rejected_fraction fl accepted rejected)) "max_rejected_fraction"

abbrev pub policy_violations : String → Option String → Option String → List String
policy_violations name none actual = []
policy_violations name (some p) actual = violation_if (not (actual == some p)) name

abbrev pub class_violations : Option (List String) → List String → List String
class_violations none actual = []
class_violations (some cs) actual =
    violation_if (not (is_empty (select (λ c. not (contains c actual)) cs))) "required_classes"

-- `check_contract`, from the report that was read.
unfoldable pub check_contract : Floats → DataContract → Report → ContractResult
check_contract fl c r =
    let q = c.requirements in
    let violations =
      gain_violations fl q.min_relative_accuracy_gain (relative_gain fl r.accuracy_gate)
      ++ (quality_violations fl q.min_quality_score r.average_overall_score
          ++ (rejected_violations fl q.max_rejected_fraction r.accepted_records r.rejected_records
              ++ (policy_violations "required_pii_policy" q.required_pii_policy r.pii_policy
                  ++ (policy_violations "required_network_policy" q.required_network_policy
                        r.network_policy
                      ++ class_violations q.required_classes r.classes)))) in
    record {
      contract_name = c.name;
      contract_version = c.contract_version;
      passed = is_empty violations;
      violations = violations;
    }
