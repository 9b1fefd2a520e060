-- ===== src/Integrations/Sharding/Balance.antt =====
-- What the partitions get.
use buffdata.Prelude.{
  [], none, some, suc, refl, ℕ, String, List, Option, Bool, length, ◌≡◌, select, if◌then◌else◌,
  option_beq, ◌==◌, ◌+◌, ◌∷◌, arith, Bool-cases, eq_iff, inl, string_eq, inr, [], refl, ◌<◌, nat_eq,
  ◌%◌, ap, ◌≤◌, option_beq_iff,
}
use buffdata.Integrations.Sharding.{
  Counters, seen_of, set_seen, counter, rows_of, assign, bump, group, no_counters,
}
use buffdata.Models.Item.{Item}
use buffdata.Integrations.Sharding.RoundRobin.{hits, hits_lem, share_even}

pub seen_of-set_seen :
    (l m : String) (n : ℕ) (cs : List (String × ℕ))
    → seen_of m (set_seen l n cs) ≡ (if l == m then n else seen_of m cs)
seen_of-set_seen l m n [] = ground arith
seen_of-set_seen l m n (c ∷ cs) =
    ground (arith, eq_iff c.0 l, eq_iff c.0 m, eq_iff l m, seen_of-set_seen l m n cs)

counter-bump :
    (g h : Option String) (s : Counters)
    → counter h (bump g s) ≡ (if option_beq g h then counter h s + 1 else counter h s)
counter-bump none none s = refl
counter-bump none (some m) s = refl
counter-bump (some l) none s = refl
counter-bump (some l) (some m) s =
    ground (arith, seen_of-set_seen l m (seen_of l s.labels + 1) s.labels, eq_iff l m)

counter_start : (g : Option String) → counter g no_counters ≡ 0
counter_start none = refl
counter_start (some l) = refl

-- How many rows of a group there are, in a list and in a partition.
abbrev pub group_size : Bool → Option String → List Item → ℕ
group_size stratify g xs = length (select (λ x. option_beq (group stratify x) g) xs)

group_size-cons :
    (stratify : Bool) (g : Option String) (i k : ℕ) (x : Item) (es : List (ℕ × Item))
    → group_size stratify g (rows_of i ((k, x) ∷ es))
      ≡ (if k == i then (if option_beq (group stratify x) g then 1 else 0) else 0)
        + group_size stratify g (rows_of i es)
group_size-cons stratify g i k x es = ground arith

group_size-rows_of :
    (n i : ℕ) (stratify : Bool) (g : Option String) (s : Counters) (xs : List Item)
    → group_size stratify g (rows_of i (assign n stratify s xs))
      ≡ hits n i (counter g s) (group_size stratify g xs)
group_size-rows_of n i stratify g s [] = refl
group_size-rows_of n i stratify g s (x ∷ xs) =
    let h = group stratify x in
    let ih = group_size-rows_of n i stratify g (bump h s) xs in
    let step = counter-bump h g s in
    let front =
      group_size-cons stratify g i (counter h s % n) x (assign n stratify (bump h s) xs) in
    elim (Bool-cases (option_beq h g)) [
      | inl same ↦
          let here : counter h s ≡ counter g s =
            ap (λ k. counter k s) ((option_beq_iff h g).0 same) in
          let next : counter g (bump h s) ≡ suc (counter g s) = ground (arith, step, same) in
          rw same (
            ground (
              arith,
              front,
              same,
              ap (λ c. c % n) here,
              ih,
              ap (λ c. hits n i c (group_size stratify g xs)) next,
            ))
      | inr other ↦
          let next : counter g (bump h s) ≡ counter g s = ground (arith, step, other) in
          rw other
            (ground (arith, front, other, ih, ap (λ c. hits n i c (group_size stratify g xs)) next))
    ]

-- In the partitions of a dataset, the rows of a label, or those that have no counter of their own,
-- are spread as evenly as can be: two partitions differ by one such row at most.
pub partition_balance :
    (n i j : ℕ) (stratify : Bool) (g : Option String) (rows : List Item)
    → i < n
    → j < n
    → group_size stratify g (rows_of i (assign n stratify no_counters rows))
      ≤ group_size stratify g (rows_of j (assign n stratify no_counters rows)) + 1
partition_balance n i j stratify g rows hi hj =
    let k = group_size stratify g rows in
    let start = counter_start g in
    omega (
      arith,
      group_size-rows_of n i stratify g no_counters rows,
      group_size-rows_of n j stratify g no_counters rows,
      ap (λ c. hits n i c k) start,
      ap (λ c. hits n j c k) start,
      hits_lem n i k hi,
      hits_lem n j k hj,
      share_even n i j k,
    )
