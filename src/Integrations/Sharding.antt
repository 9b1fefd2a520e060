-- ===== src/Integrations/Sharding.antt =====
-- buffdata/integrations/sharding.py: a dataset cut into partitions by round robin within each label,
-- and the results of the partitions put together again. A file is its rows; a partition that gets
-- no row has no file.
pub mod RoundRobin
pub mod Balance
pub mod Merged
pub mod Examples
use buffdata.Prelude.{
  ℕ, String, [], Bool, List, ◌++◌, Option, ◌+◌, ◌∷◌, some, suc, none, length, if◌then◌else◌, ◌%◌,
  map, select, ltb, is_empty, ◌==◌, zero, string_eq, nat_eq,
}
use buffdata.Models.Item.{Item, Labels}
use buffdata.Prelude.Exec.{Result, err, ok}

pub data ShardError : Type 0 where
  too_few_partitions no_rows : ShardError

-- `label_counters` and `plain_counter`.
pub record Counters : Type 0 where
  pub labels : List (String × ℕ)
  pub plain : ℕ

abbrev pub scalar_label : Option Labels → Option String
scalar_label none = none
scalar_label (some (Labels.scalar s)) = some s
scalar_label (some (Labels.many ss)) = none

-- The label whose counter a row goes by; none is the shared counter.
abbrev pub group : Bool → Item → Option String
group stratify x = if stratify then scalar_label x.labels else none

-- `label_counters.get(label, 0)`
abbrev pub seen_of : String → List (String × ℕ) → ℕ
seen_of l [] = 0
seen_of l (c ∷ cs) = let rest = seen_of l cs in if c.0 == l then c.1 else rest

-- `label_counters[label] = seen`
abbrev pub set_seen : String → ℕ → List (String × ℕ) → List (String × ℕ)
set_seen l n [] = (l, n) ∷ []
set_seen l n (c ∷ cs) = let rest = set_seen l n cs in if c.0 == l then (l, n) ∷ cs else c ∷ rest

abbrev pub counter : Option String → Counters → ℕ
counter none s = s.plain
counter (some l) s = seen_of l s.labels

abbrev pub bump : Option String → Counters → Counters
bump none s = record s { plain = s.plain + 1 }
bump (some l) s = record s { labels = set_seen l (seen_of l s.labels + 1) s.labels }

-- The loop of `partition_dataset`: each row with the index of its partition.
abbrev pub assign : ℕ → Bool → Counters → List Item → List (ℕ × Item)
assign n stratify s [] = []
assign n stratify s (x ∷ xs) =
    let g = group stratify x in (counter g s % n, x) ∷ assign n stratify (bump g s) xs

-- The rows that are written to the file of a partition.
abbrev pub rows_of : ℕ → List (ℕ × Item) → List Item
rows_of i entries = map (λ e. e.1) (select (λ e. e.0 == i) entries)

-- The files of as many partitions, from one on, that have a row.
abbrev pub files_from : ℕ → ℕ → List (ℕ × Item) → List (List Item)
files_from i zero entries = []
files_from i (suc n) entries =
    let rest = files_from (suc i) n entries in
    if is_empty (rows_of i entries) then rest else rows_of i entries ∷ rest

abbrev pub no_counters : Counters
no_counters = record { labels = []; plain = 0 }

-- `partition_dataset`
unfoldable pub partition_dataset : ℕ → Bool → List Item → Result ShardError (List (List Item))
partition_dataset num_partitions stratify rows =
    if ltb num_partitions 1
    then err too_few_partitions
    else if is_empty rows
    then err no_rows
    else ok (files_from 0 num_partitions (assign num_partitions stratify no_counters rows))

-- What stands beside the output of a partition: its rejected rows, and of its report the usage and
-- the rejection reasons. Where there is no such file, the list is empty and the numbers are 0.
pub record Output : Type 0 where
  pub rows : List Item
  pub rejected : List Item
  pub input_tokens : ℕ
  pub output_tokens : ℕ
  pub total_tokens : ℕ
  pub rejection_reasons : List (String × ℕ)

pub record Merge : Type 0 where
  pub items : List Item
  pub rejected : List Item
  pub partitions_merged : ℕ
  pub accepted_records : ℕ
  pub rejected_records : ℕ
  pub input_tokens : ℕ
  pub output_tokens : ℕ
  pub total_tokens : ℕ
  pub rejection_reasons : List (String × ℕ)

-- `merged[reason] = merged.get(reason, 0) + count`, for each reason.
abbrev pub add_reasons : List (String × ℕ) → List (String × ℕ) → List (String × ℕ)
add_reasons [] merged = merged
add_reasons (r ∷ rs) merged = add_reasons rs (set_seen r.0 (seen_of r.0 merged + r.1) merged)

abbrev pub add_output : Output → Merge → Merge
add_output o m = record {
  items = m.items ++ o.rows;
  rejected = m.rejected ++ o.rejected;
  partitions_merged = m.partitions_merged + 1;
  accepted_records = m.accepted_records + length o.rows;
  rejected_records = m.rejected_records + length o.rejected;
  input_tokens = m.input_tokens + o.input_tokens;
  output_tokens = m.output_tokens + o.output_tokens;
  total_tokens = m.total_tokens + o.total_tokens;
  rejection_reasons = add_reasons o.rejection_reasons m.rejection_reasons;
}

abbrev pub add_outputs : List Output → Merge → Merge
add_outputs [] m = m
add_outputs (o ∷ os) m = add_outputs os (add_output o m)

abbrev pub nothing_merged : Merge
nothing_merged = record {
  items = [];
  rejected = [];
  partitions_merged = 0;
  accepted_records = 0;
  rejected_records = 0;
  input_tokens = 0;
  output_tokens = 0;
  total_tokens = 0;
  rejection_reasons = [];
}

-- `merge_partition_results`: the final rows and the summary, the same whether it streams or not.
unfoldable pub merge_partition_results : List Output → Merge
merge_partition_results os = add_outputs os nothing_merged
