-- ===== src/Integrations/Sharding/Merged.antt =====
-- Partitions lose no row, and the results put together are the sums of the parts.
use native.Mathlib.Nat.{mod-lt}
use buffdata.Prelude.{
  [], true, false, zero, suc, refl, ℕ, String, Bool, ◌<◌, List, ◌∷◌, leb, ◌&&◌, is_empty, ◌≡◌, All,
  ◌++◌, map, Bool-cases, if◌then◌else◌, ◌==◌, ltb, arith, ◌+◌, length, select, sym, string_eq, ◌≤◌,
  inl, append_nil, inr, ◌%◌, eq_iff, ap, ◌∙◌, append_assoc, length-append,
}
use buffdata.Integrations.Sharding.{
  merge_partition_results, partition_dataset, seen_of, Counters, Output, Merge, add_reasons, assign,
  files_from, group, add_outputs, ShardError, rows_of, set_seen, counter, nothing_merged,
  add_output, too_few_partitions, no_counters, bump, no_rows,
}
use buffdata.Models.Item.{Item}
use buffdata.Prelude.Exec.{Result, err, ok}
use buffdata.Engine.Pipeline.Conservation.{count, count-append}
use buffdata.Governance.AuditStore.Sums.{sum_by}
use buffdata.Integrations.Sharding.Balance.{seen_of-set_seen}

abbrev pub concat : {A : Type 0} → List (List A) → List A
concat [] = []
concat (xs ∷ xss) = xs ++ concat xss

-- The rows whose partition is one of `m`, from `i` on.
abbrev rows_within : ℕ → ℕ → List (ℕ × Item) → List Item
rows_within i m es = map (λ e. e.1) (select (λ e. leb i e.0 && ltb e.0 (i + m)) es)

count-rows_within :
    (id : String) (i m : ℕ) (es : List (ℕ × Item))
    → count id (rows_within i (suc m) es)
      ≡ count id (rows_of i es) + count id (rows_within (suc i) m es)
count-rows_within id i m [] = omega arith
count-rows_within id i m (e ∷ es) = ground (arith, count-rows_within id i m es)

count-none_within : (id : String) (i : ℕ) (es : List (ℕ × Item)) → count id (rows_within i 0 es) ≡ 0
count-none_within id i [] = refl
count-none_within id i (e ∷ es) = ground (arith, count-none_within id i es)

count-empty : (id : String) (xs : List Item) → is_empty xs ≡ true → count id xs ≡ 0
count-empty id [] h = refl
count-empty id (x ∷ xs) h = cc

nothing_in : (xs : List Item) → is_empty xs ≡ true → xs ≡ []
nothing_in [] h = refl
nothing_in (x ∷ xs) h = cc

inside : (k n : ℕ) → k < n → (leb 0 k && ltb k (0 + n)) ≡ true
inside k n h = ground arith

count-files_from :
    (id : String) (i m : ℕ) (es : List (ℕ × Item))
    → count id (concat (files_from i m es)) ≡ count id (rows_within i m es)
count-files_from id i zero es = sym (count-none_within id i es)
count-files_from id i (suc m) es =
    let ih = count-files_from id (suc i) m es in
    elim (Bool-cases (is_empty (rows_of i es))) [
      | inl none' ↦
          rw none'
            (omega (arith, ih, count-rows_within id i m es, count-empty id (rows_of i es) none'))
      | inr some' ↦ rw some' (
          omega (
            arith,
            ih,
            count-rows_within id i m es,
            count-append id (rows_of i es) (concat (files_from (suc i) m es)),
          ))
    ]

not_empty-files_from :
    (i m : ℕ) (es : List (ℕ × Item))
    → All (λ f. is_empty f ≡ false) (files_from i m es) × (length (files_from i m es) ≤ m)
not_empty-files_from i zero es = (tt, omega arith)
not_empty-files_from i (suc m) es =
    let ih = not_empty-files_from (suc i) m es in
    elim (Bool-cases (is_empty (rows_of i es))) [
      | inl none' ↦ rw none' (ih.0, omega (arith, ih.1))
      | inr some' ↦ rw some' ((some', ih.0), omega (arith, ih.1))
    ]

assign-within :
    (n : ℕ) (stratify : Bool) (s : Counters) (xs : List Item)
    → 0 < n
    → rows_within 0 n (assign n stratify s xs) ≡ xs
assign-within n stratify s [] h = refl
assign-within n stratify s (x ∷ xs) h =
    let g = group stratify x in
    let small : counter g s % n < n = mod-lt (counter g s) h in
    rw (inside (counter g s % n) n small)
      (ap (λ rest. x ∷ rest) (assign-within n stratify (bump g s) xs h))

-- What a partitioning says: an error for no partition or no row, and otherwise no more files than
-- asked for, none of them empty, that together have each row as often as the dataset.
abbrev pub Partitions : ℕ → List Item → Result ShardError (List (List Item)) → Type 0
Partitions n rows (err too_few_partitions) = n ≡ 0
Partitions n rows (err no_rows) = rows ≡ []
Partitions n rows (ok files) =
    All (λ f. is_empty f ≡ false) files
    × (length files ≤ n)
    × ((id : String) → count id (concat files) ≡ count id rows)

-- A dataset is partitioned unless it has no rows or no partition is asked for. There are no more files
-- than asked for, none is empty, and together they have as many rows of each id as the dataset.
pub partition_dataset-Partitions :
    (n : ℕ) (stratify : Bool) (rows : List Item)
    → Partitions n rows (partition_dataset n stratify rows)
unfolding partition_dataset
partition_dataset-Partitions n stratify rows = elim (Bool-cases (ltb n 1)) [
  | inl few ↦ rw few (ground (arith, few))
  | inr many ↦ elim (Bool-cases (is_empty rows)) [
    | inl empty ↦ rw (many, empty) (nothing_in rows empty)
    | inr full ↦
        let es = assign n stratify no_counters rows in
        let h = not_empty-files_from 0 n es in
        rw (many, full)
          (
            h.0,
            h.1,
            λ id.
                count-files_from id 0 n es
                ∙ ap (count id) (assign-within n stratify no_counters rows (ground (arith, many))),
          )
  ]
]

-- What a list of reasons counts for a reason.
abbrev pub reason_count : String → List (String × ℕ) → ℕ
reason_count k [] = 0
reason_count k (r ∷ rs) = (if r.0 == k then r.1 else 0) + reason_count k rs

seen_of-add_reasons :
    (k : String) (rs merged : List (String × ℕ))
    → seen_of k (add_reasons rs merged) ≡ seen_of k merged + reason_count k rs
seen_of-add_reasons k [] merged = omega arith
seen_of-add_reasons k (r ∷ rs) merged = ground (
  arith,
  seen_of-add_reasons k rs (set_seen r.0 (seen_of r.0 merged + r.1) merged),
  seen_of-set_seen r.0 k (seen_of r.0 merged + r.1) merged,
  eq_iff r.0 k,
)

-- The merge `m'` has what the merge `m` has and the outputs, each number and list added up.
record Adds (os : List Output) (m m' : Merge) : Type 0 where
  items : m'.items ≡ m.items ++ concat (map (λ (o : Output). o.rows) os)
  rejected : m'.rejected ≡ m.rejected ++ concat (map (λ (o : Output). o.rejected) os)
  parts : m'.partitions_merged ≡ m.partitions_merged + length os
  accepted :
      m'.accepted_records ≡ m.accepted_records + length (concat (map (λ (o : Output). o.rows) os))
  refused :
      m'.rejected_records
      ≡ m.rejected_records + length (concat (map (λ (o : Output). o.rejected) os))
  usage : m'.input_tokens ≡ m.input_tokens + sum_by (λ (o : Output). o.input_tokens) os
  usage_out : m'.output_tokens ≡ m.output_tokens + sum_by (λ (o : Output). o.output_tokens) os
  usage_all : m'.total_tokens ≡ m.total_tokens + sum_by (λ (o : Output). o.total_tokens) os
  reasons :
      (k : String)
      → seen_of k m'.rejection_reasons
        ≡ seen_of k m.rejection_reasons
          + sum_by (λ (o : Output). reason_count k o.rejection_reasons) os

add_outputs-Adds : (os : List Output) (m : Merge) → Adds os m (add_outputs os m)
add_outputs-Adds [] m = record {
  items = sym (append_nil m.items);
  rejected = sym (append_nil m.rejected);
  parts = omega arith;
  accepted = omega arith;
  refused = omega arith;
  usage = omega arith;
  usage_out = omega arith;
  usage_all = omega arith;
  reasons = λ k. omega arith;
}
add_outputs-Adds (o ∷ os) m =
    let h = add_outputs-Adds os (add_output o m) in
    record {
      items = h.items ∙ append_assoc m.items o.rows (concat (map (λ (o : Output). o.rows) os));
      rejected =
          h.rejected
          ∙ append_assoc m.rejected o.rejected (concat (map (λ (o : Output). o.rejected) os));
      parts = omega (arith, h.parts);
      accepted =
          omega
            (arith, h.accepted, length-append o.rows (concat (map (λ (o : Output). o.rows) os)));
      refused = omega (
        arith,
        h.refused,
        length-append o.rejected (concat (map (λ (o : Output). o.rejected) os)),
      );
      usage = omega (arith, h.usage);
      usage_out = omega (arith, h.usage_out);
      usage_all = omega (arith, h.usage_all);
      reasons = λ k.
          omega (arith, h.reasons k, seen_of-add_reasons k o.rejection_reasons m.rejection_reasons);
    }

-- A merge has the rows of the parts one after the other, and so the rejected rows; it counts the parts
-- and these rows, and adds up the tokens and, for each reason, the rejections.
pub merge_partition_results_lem :
    (os : List Output)
    → let m = merge_partition_results os in
      (m.items ≡ concat (map (λ (o : Output). o.rows) os))
      × (m.rejected ≡ concat (map (λ (o : Output). o.rejected) os))
      × (m.partitions_merged ≡ length os)
      × (m.accepted_records ≡ length m.items)
      × (m.rejected_records ≡ length m.rejected)
      × (m.input_tokens ≡ sum_by (λ (o : Output). o.input_tokens) os)
      × (m.output_tokens ≡ sum_by (λ (o : Output). o.output_tokens) os)
      × (m.total_tokens ≡ sum_by (λ (o : Output). o.total_tokens) os)
      × ((k : String)
          → seen_of k m.rejection_reasons
            ≡ sum_by (λ (o : Output). reason_count k o.rejection_reasons) os)
unfolding merge_partition_results
merge_partition_results_lem os =
    let h = add_outputs-Adds os nothing_merged in
    (
      h.items,
      h.rejected,
      omega (arith, h.parts),
      omega (arith, h.accepted, ap length h.items),
      omega (arith, h.refused, ap length h.rejected),
      omega (arith, h.usage),
      omega (arith, h.usage_out),
      omega (arith, h.usage_all),
      λ k. omega (arith, h.reasons k),
    )
