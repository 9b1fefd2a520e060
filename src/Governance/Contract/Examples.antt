-- ===== src/Governance/Contract/Examples.antt =====
-- Tests of a data contract.
use buffdata.Prelude.{
  some, ◌≡◌, none, true, ◌∷◌, [], ◌↔◌, refl, ltb, leb, ◌+◌, ◌-◌, ◌*◌, ◌/◌, ◌==◌, nat_eq,
}
use buffdata.Governance.Contract.{check_contract, DataContract, Report}
use buffdata.Prelude.Floats.{Floats}
use buffdata.Governance.Contract.Check.{Meets, check_contract-Meets}

-- Floats as thousandths.
abbrev thousandths : Floats
thousandths = record {
  nought = 0;
  one = 1000;
  less = ltb;
  at_most = leb;
  plus = λ a b. a + b;
  minus = λ a b. a - b;
  times = λ a b. a * b / 1000;
  divide = λ a b. a * 1000 / b;
  quotient = λ a b. a * 1000 / b;
  is_zero = λ a. a == 0;
  mean = λ xs. 0;
}

abbrev contract : DataContract
contract = record {
  contract_version = "1";
  name = "release";
  requirements = record {
    min_relative_accuracy_gain = some 100;
    min_quality_score = some 7000;
    max_rejected_fraction = some 200;
    required_pii_policy = some "all";
    required_network_policy = none;
    required_classes = some ("yes" ∷ "no" ∷ []);
  };
}

-- A gain of 120 over 800 in accuracy, and 10 of 100 records rejected.
abbrev report : Report
report = record {
  accuracy_gate =
      some
        (record { relative_gain = none; original_accuracy = some 800; accuracy_gain = some 120 });
  average_overall_score = some 7500;
  accepted_records = 90;
  rejected_records = 10;
  pii_policy = some "all";
  network_policy = none;
  classes = "no" ∷ "yes" ∷ [];
}

no_gate_fails :
    (check_contract thousandths contract (record report { accuracy_gate = none })).violations
    ≡ "min_relative_accuracy_gain" ∷ []
unfolding check_contract
no_gate_fails = refl

check_contract-Meets_example :
    ((check_contract thousandths contract report).passed ≡ true)
    ↔ Meets thousandths contract.requirements report
check_contract-Meets_example = check_contract-Meets thousandths contract report
