-- ===== src/Governance/AuditStore.antt =====
-- buffdata/governance/audit_store.py: the audit table with one row per run, and the sums over its
-- records. Rates are whole numbers of a small unit per 1000 tokens, and costs are in thousandths of it.
pub mod Sums
pub mod Rows
pub mod Examples
use Prim.Native.String.{◌++◌ as append}
use buffdata.Prelude.{
  ℕ, String, ◌+◌, Option, Bool, ◌*◌, List, sort_by, [], select, ◌∷◌, ◌&&◌, length, some, take,
  if◌then◌else◌, not, true, none, ◌==◌, contains, string_eq, ◌++◌, ◌||◌,
}
use buffdata.Prelude.Json.{Fields}
use buffdata.Runs.Tables.{truthy, option_eq}

pub record AuditRecord : Type 0 where
  pub run_id : String
  pub recorded_at : String
  pub command : String
  pub provider : Option String
  pub model : Option String
  pub accepted_records : ℕ
  pub rejected_records : ℕ
  pub accuracy_contract : Option String
  pub network_policy : Option String
  pub input_tokens : ℕ
  pub output_tokens : ℕ
  pub total_tokens : ℕ
  pub contract_name : Option String
  pub contract_passed : Option Bool
  pub report_path : String
  pub metadata : Fields

-- `INSERT OR REPLACE`: a row with the key is deleted first, and the new one comes last.
unfoldable pub insert_or_replace : AuditRecord → List AuditRecord → List AuditRecord
insert_or_replace e rows = select (λ r. not (r.run_id == e.run_id)) rows ++ e ∷ []

-- `if command: clauses.append("command = ?")`
abbrev pub matches : Option String → String → Bool
matches wanted actual = not (truthy wanted) || (wanted == some actual)

-- The comparison of a column that may be null.
abbrev pub matches_option : Option String → Option String → Bool
matches_option wanted actual = not (truthy wanted) || (wanted == actual)

-- `recorded_at >= ?`, by an order of texts.
abbrev pub since_matches : (String → String → Bool) → Option String → String → Bool
since_matches at_least none actual = true
since_matches at_least (some t) actual = (t == "") || at_least actual t

abbrev pub wanted_row :
    (String → String → Bool)
    → Option String
    → Option String
    → Option String
    → Option String
    → AuditRecord
    → Bool
wanted_row at_least command provider contract_name since r =
    matches command r.command
    && matches_option provider r.provider
    && matches_option contract_name r.contract_name
    && since_matches at_least since r.recorded_at

-- `query`, for a limit that is not negative.
unfoldable pub query :
    (String → String → Bool)
    → Option String
    → Option String
    → Option String
    → Option String
    → ℕ
    → List AuditRecord
    → List AuditRecord
unfolding sort_by
query at_least command provider contract_name since limit rows = take limit (
    sort_by (λ a b. not (at_least b.recorded_at a.recorded_at))
      (select (wanted_row at_least command provider contract_name since) rows))

pub record Usage : Type 0 where
  pub input_tokens : ℕ
  pub output_tokens : ℕ
  pub total_tokens : ℕ

abbrev pub no_usage : Usage
no_usage = record { input_tokens = 0; output_tokens = 0; total_tokens = 0 }

-- `value = getattr(record, field)` and `+= value`, for the three fields.
abbrev pub add_usage : AuditRecord → Usage → Usage
add_usage r u = record {
  input_tokens = u.input_tokens + r.input_tokens;
  output_tokens = u.output_tokens + r.output_tokens;
  total_tokens = u.total_tokens + r.total_tokens;
}

-- `setdefault` and the change of the bucket; a new key comes last.
abbrev pub add_to_bucket :
    {A : Type 0} → String → A → (A → A) → List (String × A) → List (String × A)
add_to_bucket k zero_value f [] = (k, f zero_value) ∷ []
add_to_bucket k zero_value f (b ∷ bs) =
    let rest = add_to_bucket k zero_value f bs in if b.0 == k then (b.0, f b.1) ∷ bs else b ∷ rest

abbrev pub or_unknown : Option String → String
or_unknown none = "unknown"
or_unknown (some s) = if s == "" then "unknown" else s

abbrev pub usage_key : AuditRecord → String
usage_key r = append (or_unknown r.provider) (append "/" (or_unknown r.model))

pub record Summary : Type 0 where
  pub runs : ℕ
  pub totals : Usage
  pub by_provider_model : List (String × Usage)

abbrev pub add_record : AuditRecord → Summary → Summary
add_record r s = record s {
  totals = add_usage r s.totals;
  by_provider_model = add_to_bucket (usage_key r) no_usage (add_usage r) s.by_provider_model;
}

abbrev pub add_records : List AuditRecord → Summary → Summary
add_records [] s = s
add_records (r ∷ rs) s = add_records rs (add_record r s)

-- `summarize_usage`
unfoldable pub summarize_usage : List AuditRecord → Summary
summarize_usage rs =
    add_records rs (record { runs = length rs; totals = no_usage; by_provider_model = [] })

-- A row of the pricing table; `rates.get(…, 0.0)` of an absent rate is 0.
pub record Rates : Type 0 where
  pub input_per_1k : ℕ
  pub output_per_1k : ℕ

pub record Estimate : Type 0 where
  pub total_cost_usd : ℕ
  pub by_provider_model_usd : List (String × ℕ)
  pub unpriced_tokens : ℕ
  pub unpriced_provider_models : List String

-- f"{record.provider}/{record.model}", in which an absent name is "None".
abbrev pub or_none : Option String → String
or_none none = "None"
or_none (some s) = s

abbrev pub pricing_key : AuditRecord → String
pricing_key r = append (or_none r.provider) (append "/" (or_none r.model))

abbrev pub cost_of : AuditRecord → Rates → ℕ
cost_of r rates = r.input_tokens * rates.input_per_1k + r.output_tokens * rates.output_per_1k

abbrev pub add_cost : AuditRecord → Option Rates → Estimate → Estimate
add_cost r none e = record e {
  unpriced_tokens = e.unpriced_tokens + r.total_tokens;
  unpriced_provider_models =
      if contains (pricing_key r) e.unpriced_provider_models
      then e.unpriced_provider_models
      else e.unpriced_provider_models ++ pricing_key r ∷ [];
}
add_cost r (some rates) e = record e {
  total_cost_usd = e.total_cost_usd + cost_of r rates;
  by_provider_model_usd =
      add_to_bucket (pricing_key r) 0 (λ c. c + cost_of r rates) e.by_provider_model_usd;
}

abbrev pub add_costs : (String → Option Rates) → List AuditRecord → Estimate → Estimate
add_costs pricing [] e = e
add_costs pricing (r ∷ rs) e = add_costs pricing rs (add_cost r (pricing (pricing_key r)) e)

-- `estimate_cost`, but for the order of the unpriced keys, which the program sorts. `pricing` is the
-- table: none stands for no row and for a row without rates.
unfoldable pub estimate_cost : (String → Option Rates) → List AuditRecord → Estimate
estimate_cost pricing rs = add_costs pricing rs (record {
  total_cost_usd = 0;
  by_provider_model_usd = [];
  unpriced_tokens = 0;
  unpriced_provider_models = [];
})
