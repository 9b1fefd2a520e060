-- ===== src/Governance/AuditStore/Sums.antt =====
-- The sums over audit records: the buckets of each sum add up to its total.
use buffdata.Prelude.{
  ℕ, String, Option, List, ◌∷◌, ◌≡◌, ◌+◌, [], refl, length, arith, Option-cases, inl, none, some,
  inr,
}
use buffdata.Governance.AuditStore.{
  AuditRecord, estimate_cost, Usage, summarize_usage, no_usage, Rates, add_usage, Summary,
  add_records, pricing_key, Estimate, add_costs, add_to_bucket, add_record, usage_key, add_cost,
  cost_of,
}

abbrev pub sum_by : {A : Type 0} → (A → ℕ) → List A → ℕ
sum_by f [] = 0
sum_by f (a ∷ as') = f a + sum_by f as'

sum_by-add_to_bucket :
    {A : Type 0} (g : A → ℕ) (k : String) (zero_value : A) (f : A → A) (n : ℕ)
    (bs : List (String × A))
    → g zero_value ≡ 0
    → ((a : A) → g (f a) ≡ g a + n)
    → sum_by (λ (b : String × A). g b.1) (add_to_bucket k zero_value f bs)
      ≡ sum_by (λ (b : String × A). g b.1) bs + n
sum_by-add_to_bucket g k zero_value f n [] z h = omega (arith, z, h zero_value)
sum_by-add_to_bucket g k zero_value f n (b ∷ bs) z h =
    ground (arith, h b.1, sum_by-add_to_bucket g k zero_value f n bs z h)

-- A field of usage: of a bucket and of a record.
pub data Field : Type 0 where
  input output total : Field

abbrev pub of_usage : Field → Usage → ℕ
of_usage input u = u.input_tokens
of_usage output u = u.output_tokens
of_usage total u = u.total_tokens

abbrev pub of_record : Field → AuditRecord → ℕ
of_record input r = r.input_tokens
of_record output r = r.output_tokens
of_record total r = r.total_tokens

of_usage-add_usage :
    (f : Field) (r : AuditRecord) (u : Usage)
    → of_usage f (add_usage r u) ≡ of_usage f u + of_record f r
of_usage-add_usage input r u = refl
of_usage-add_usage output r u = refl
of_usage-add_usage total r u = refl

of_usage-no_usage : (f : Field) → of_usage f no_usage ≡ 0
of_usage-no_usage input = refl
of_usage-no_usage output = refl
of_usage-no_usage total = refl

added_records :
    (f : Field) (rs : List AuditRecord) (s : Summary)
    → (of_usage f (add_records rs s).totals ≡ of_usage f s.totals + sum_by (of_record f) rs)
      × (sum_by (λ b. of_usage f b.1) (add_records rs s).by_provider_model
          ≡ sum_by (λ b. of_usage f b.1) s.by_provider_model + sum_by (of_record f) rs)
added_records f [] s = (omega arith, omega arith)
added_records f (r ∷ rs) s =
    let rest = added_records f rs (add_record r s) in
    (
      omega (arith, rest.0, of_usage-add_usage f r s.totals),
      omega (
        arith,
        rest.1,
        sum_by-add_to_bucket (of_usage f) (usage_key r) no_usage (add_usage r) (of_record f r)
            s.by_provider_model (of_usage-no_usage f) (of_usage-add_usage f r),
      ),
    )

-- In a summary, for input, output and total tokens alike, the total is the sum over the records, and
-- so is the sum over the buckets by provider and model.
pub summarize_usage_lem :
    (f : Field) (rs : List AuditRecord)
    → (of_usage f (summarize_usage rs).totals ≡ sum_by (of_record f) rs)
      × (sum_by (λ b. of_usage f b.1) (summarize_usage rs).by_provider_model
          ≡ sum_by (of_record f) rs)
unfolding summarize_usage
summarize_usage_lem f rs =
    let h =
      added_records f rs (record { runs = length rs; totals = no_usage; by_provider_model = [] }) in
    (omega (arith, h.0, of_usage-no_usage f), omega (arith, h.1))

-- The tokens of a record without a price, and the cost of one with a price.
abbrev pub unpriced_by : AuditRecord → Option Rates → ℕ
unpriced_by r none = r.total_tokens
unpriced_by r (some rates) = 0

abbrev pub priced_by : AuditRecord → Option Rates → ℕ
priced_by r none = 0
priced_by r (some rates) = cost_of r rates

abbrev pub unpriced : (String → Option Rates) → AuditRecord → ℕ
unpriced pricing r = unpriced_by r (pricing (pricing_key r))

abbrev pub priced : (String → Option Rates) → AuditRecord → ℕ
priced pricing r = priced_by r (pricing (pricing_key r))

added_costs :
    (pricing : String → Option Rates) (rs : List AuditRecord) (e : Estimate)
    → ((add_costs pricing rs e).total_cost_usd ≡ e.total_cost_usd + sum_by (priced pricing) rs)
      × ((add_costs pricing rs e).unpriced_tokens
          ≡ e.unpriced_tokens + sum_by (unpriced pricing) rs)
      × (sum_by (λ b. b.1) (add_costs pricing rs e).by_provider_model_usd
          ≡ sum_by (λ b. b.1) e.by_provider_model_usd + sum_by (priced pricing) rs)
added_costs pricing [] e = (omega arith, omega arith, omega arith)
added_costs pricing (r ∷ rs) e = elim (Option-cases (pricing (pricing_key r))) [
  | inl p ↦
      let rest = added_costs pricing rs (add_cost r none e) in
      rw (add_costs, p) (omega (arith, rest.0), omega (arith, rest.1), omega (arith, rest.2))
  | inr (rates, p) ↦
      let rest = added_costs pricing rs (add_cost r (some rates) e) in
      let bucket =
        sum_by-add_to_bucket (λ c. c) (pricing_key r) 0 (λ c. c + cost_of r rates) (cost_of r rates)
          e.by_provider_model_usd refl (λ _. refl) in
      rw (add_costs, p)
        (omega (arith, rest.0), omega (arith, rest.1), omega (arith, rest.2, bucket))
]

-- An estimate counts every record just once: the tokens of those without a price as unpriced, and
-- the cost of the others in the total, to which the costs by provider and model add up.
pub estimate_cost_lem :
    (pricing : String → Option Rates) (rs : List AuditRecord)
    → ((estimate_cost pricing rs).total_cost_usd ≡ sum_by (priced pricing) rs)
      × ((estimate_cost pricing rs).unpriced_tokens ≡ sum_by (unpriced pricing) rs)
      × (sum_by (λ b. b.1) (estimate_cost pricing rs).by_provider_model_usd
          ≡ sum_by (priced pricing) rs)
unfolding estimate_cost
estimate_cost_lem pricing rs =
    let h = added_costs pricing rs (record {
      total_cost_usd = 0;
      by_provider_model_usd = [];
      unpriced_tokens = 0;
      unpriced_provider_models = [];
    }) in
    (omega (arith, h.0), omega (arith, h.1), omega (arith, h.2))
