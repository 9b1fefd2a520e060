-- ===== src/Governance/AuditStore/Examples.antt =====
-- Tests of the audit table and its sums.
use buffdata.Prelude.{
  ℕ, String, List, Option, map, ◌≡◌, none, if◌then◌else◌, some, ◌∷◌, ◌+◌, ◌==◌, [], refl, string_eq,
}
use buffdata.Governance.AuditStore.{summarize_usage, AuditRecord, Rates}
use buffdata.Prelude.Json.{Fields}

abbrev entry : String → Option String → ℕ → AuditRecord
entry id provider tokens = record {
  run_id = id;
  recorded_at = "2026-01-01";
  command = "optimize";
  provider = provider;
  model = some "m";
  accepted_records = 1;
  rejected_records = 0;
  accuracy_contract = none;
  network_policy = none;
  input_tokens = tokens;
  output_tokens = 1;
  total_tokens = tokens + 1;
  contract_name = none;
  contract_passed = none;
  report_path = "";
  metadata = Fields.end;
}

abbrev entries : List AuditRecord
entries = entry "a" (some "x") 10 ∷ entry "b" none 20 ∷ entry "c" (some "x") 5 ∷ []

abbrev prices : String → Option Rates
prices k = if k == "x/m" then some (record { input_per_1k = 2; output_per_1k = 3 }) else none

one_bucket_for_x :
    map (λ b. b.0) (summarize_usage entries).by_provider_model ≡ "x/m" ∷ "unknown/m" ∷ []
unfolding summarize_usage
one_bucket_for_x = refl

abbrev one_row : List AuditRecord
one_row = entry "a" none 1 ∷ []
