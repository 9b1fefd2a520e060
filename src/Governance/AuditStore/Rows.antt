-- ===== src/Governance/AuditStore/Rows.antt =====
-- The rows of the audit table, after a record and in a query.
use buffdata.Prelude.{
  String, List, ◌≢◌, Unique, Bool, All, first, select, not, select-All, ◌==◌, ◌∷◌, ◌≡◌, ◌++◌,
  Bool-cases, some, [], inl, arith, inr, Unique-append, string_eq, eq_iff,
}
use buffdata.Governance.AuditStore.{AuditRecord, insert_or_replace}

fresh_left :
    (k : String) (rows : List AuditRecord)
    → All (λ (r : AuditRecord). r.run_id ≢ k) (select (λ r. not (r.run_id == k)) rows)
fresh_left k [] = tt
fresh_left k (r ∷ rows) = elim (Bool-cases (r.run_id == k)) [
  | inl e ↦ rw e (fresh_left k rows)
  | inr e ↦ rw e (ground (arith, eq_iff r.run_id k, e), fresh_left k rows)
]

fresh-select :
    (k : String) (p : AuditRecord → Bool) (rows : List AuditRecord)
    → All (λ (r : AuditRecord). r.run_id ≢ k) rows
    → All (λ (r : AuditRecord). r.run_id ≢ k) (select p rows)
fresh-select k p rows h = select-All (λ (r : AuditRecord). r.run_id ≢ k) p rows h

Unique-select :
    (p : AuditRecord → Bool) (rows : List AuditRecord)
    → Unique (λ (r : AuditRecord). r.run_id) rows
    → Unique (λ (r : AuditRecord). r.run_id) (select p rows)
Unique-select p [] h = tt
Unique-select p (r ∷ rows) h = elim (Bool-cases (p r)) [
  | inl e ↦ rw e (fresh-select r.run_id p rows h.0, Unique-select p rows h.1)
  | inr e ↦ rw e (Unique-select p rows h.1)
]

first_new :
    (e : AuditRecord) (rows : List AuditRecord)
    → All (λ (r : AuditRecord). r.run_id ≢ e.run_id) rows
    → first (λ r. r.run_id == e.run_id) (rows ++ e ∷ []) ≡ some e
first_new e [] h = ground (arith, eq_iff e.run_id e.run_id)
first_new e (r ∷ rows) h = ground (arith, h.0, eq_iff r.run_id e.run_id, first_new e rows h.1)

first_other :
    (k : String) (e : AuditRecord) (rows : List AuditRecord)
    → k ≢ e.run_id
    → first (λ r. r.run_id == k) (select (λ r. not (r.run_id == e.run_id)) rows ++ e ∷ [])
      ≡ first (λ r. r.run_id == k) rows
first_other k e [] ne = ground (arith, eq_iff e.run_id k)
first_other k e (r ∷ rows) ne =
    ground (arith, eq_iff r.run_id k, eq_iff r.run_id e.run_id, first_other k e rows ne)

-- A record in a table whose run ids are unique replaces the row of its run: the ids stay unique, the
-- row is found under its id, and what is found under any other id is as before.
pub insert_or_replace_lem :
    (e : AuditRecord) (rows : List AuditRecord)
    → Unique (λ (r : AuditRecord). r.run_id) rows
    → Unique (λ (r : AuditRecord). r.run_id) (insert_or_replace e rows)
      × (first (λ r. r.run_id == e.run_id) (insert_or_replace e rows) ≡ some e)
      × ((k : String)
          → k ≢ e.run_id
          → first (λ r. r.run_id == k) (insert_or_replace e rows) ≡ first (λ r. r.run_id == k) rows)
unfolding insert_or_replace
insert_or_replace_lem e rows h =
    let others = select (λ (r : AuditRecord). not (r.run_id == e.run_id)) rows in
    (
      Unique-append (λ (r : AuditRecord). r.run_id) others e (Unique-select _ rows h)
          (fresh_left e.run_id rows),
      first_new e others (fresh_left e.run_id rows),
      (λ k ne. first_other k e rows ne),
    )
