-- ===== src/Optimizers/Dedup/Kept.antt =====
-- What deduplication keeps and drops.
use buffdata.Prelude.{
  ℕ, String, Bool, List, map, ◌∷◌, leb, ◌≡◌, [], All, ◌+◌, ◌==◌, any, false, true, refl, ◌||◌, ap,
  arith, contains, Bool-cases, nat_eq, inl, sym, inr, ◌∙◌, All-imp, if◌then◌else◌,
}
use buffdata.Optimizers.Dedup.{
  deduplicate_semantic_local, deduplicate_minhash, Texts, deduplicate_exact, get_shingles,
  fingerprint, semantic_dup, content, near_dup, separate, marked, best, semantic_reason, placed,
}
use buffdata.Models.Item.{
  get_prompt_and_response, PyText, Item, DatasetFormat, get_classification_text, prompt_of,
  classification_text_of, alpaca, chat, raw, dpo, custom,
}
use buffdata.Engine.Pipeline.Conservation.{count}
use mathlib.Core.Path.{subst}

module _ {F : Type 0} (feature : Item → F) (duplicate : F → List F → Bool)
    (reason : F → List F → String) where
  count-separate :
      (i : String) (seen : List F) (xs : List Item)
      → count i (separate feature duplicate reason seen xs).0
          + count i (separate feature duplicate reason seen xs).1
        ≡ count i xs
  count-separate i seen [] = omega arith
  count-separate i seen (x ∷ xs) = elim (Bool-cases (duplicate (feature x) seen)) [
    | inl e ↦ rw e (omega (arith, count-separate i seen xs))
    | inr e ↦ rw e (omega (arith, count-separate i (feature x ∷ seen) xs))
  ]

  separate_step :
      (seen : List F) (x : Item) (xs : List Item) (b : Bool)
      → duplicate (feature x) seen ≡ b
      → separate feature duplicate reason seen (x ∷ xs)
        ≡ placed b
            (reason (feature x) seen)
            x
            (separate feature duplicate reason (if b then seen else feature x ∷ seen) xs)
  separate_step seen x xs b e = rw e refl

-- No feature resembles one before it.
abbrev pub Apart : {F : Type 0} → (F → F → Bool) → List F → Type 0
Apart near [] = Unit
Apart near (a ∷ rest) = All (λ b. near b a ≡ false) rest × Apart near rest

-- The records kept resemble none kept before them, by `near` on their features, and each record
-- dropped resembles one kept.
abbrev pub Separated : {F : Type 0} → (Item → F) → (F → F → Bool) → List Item × List Item → Type 0
Separated feature near (kept, dropped) =
    Apart near (map feature kept)
    × All (λ d. any (near (feature d)) (map feature kept) ≡ true) dropped

module _ {F : Type 0} (feature : Item → F) (duplicate : F → List F → Bool)
    (reason : F → List F → String) (near : F → F → Bool)
    (agree : (f : F) (seen : List F) → duplicate f seen ≡ any (near f) seen)
    (same : (r : String) (x : Item) → feature (marked r x) ≡ feature x) where
  abbrev kept_of : List F → List Item → List Item
  kept_of seen xs = (separate feature duplicate reason seen xs).0

  fresh_tail :
      (f : F) (seen : List F) (bs : List F)
      → All (λ b. any (near b) (f ∷ seen) ≡ false) bs
      → All (λ b. near b f ≡ false) bs × All (λ b. any (near b) seen ≡ false) bs
  fresh_tail f seen [] h = (tt, tt)
  fresh_tail f seen (b ∷ bs) h =
      let rest = fresh_tail f seen bs h.1 in
      ((ground (arith, h.0), rest.0), (ground (arith, h.0), rest.1))

  abbrev IsApartFrom : List F → List Item × List Item → Type 0
  IsApartFrom seen r =
      All (λ b. any (near b) seen ≡ false) (map feature r.0) × Apart near (map feature r.0)

  apart_after :
      (seen : List F) (xs : List Item)
      → IsApartFrom seen (separate feature duplicate reason seen xs)
  apart_after seen [] = (tt, tt)
  apart_after seen (x ∷ xs) = elim (Bool-cases (duplicate (feature x) seen)) [
    | inl e ↦
        subst (IsApartFrom seen) (sym (separate_step feature duplicate reason seen x xs true e))
          (apart_after seen xs)
    | inr e ↦
        let rest = apart_after (feature x ∷ seen) xs in
        let split =
          fresh_tail (feature x) seen (map feature (kept_of (feature x ∷ seen) xs)) rest.0 in
        subst (IsApartFrom seen) (sym (separate_step feature duplicate reason seen x xs false e))
          ((sym (agree (feature x) seen) ∙ e, split.1), (split.0, rest.1))
  ]

  -- A feature seen before, or of a record kept now.
  abbrev IsCovered : List F → List Item × List Item → Type 0
  IsCovered seen r =
      All (λ d. (any (near (feature d)) seen || any (near (feature d)) (map feature r.0)) ≡ true)
        r.1

  IsCovered-after :
      (seen : List F) (xs : List Item) → IsCovered seen (separate feature duplicate reason seen xs)
  IsCovered-after seen [] = tt
  IsCovered-after seen (x ∷ xs) = elim (Bool-cases (duplicate (feature x) seen)) [
    | inl e ↦
        subst (IsCovered seen) (sym (separate_step feature duplicate reason seen x xs true e)) (
          rw (same (reason (feature x) seen) x, sym (agree (feature x) seen), e) refl,
          IsCovered-after seen xs,
        )
    | inr e ↦
        subst (IsCovered seen) (sym (separate_step feature duplicate reason seen x xs false e)) (
          All-imp _ _ (separate feature duplicate reason (feature x ∷ seen) xs).1
            (λ d h. ground (arith, h)) (IsCovered-after (feature x ∷ seen) xs))
  ]

  separate-Separated :
      (xs : List Item) → Separated feature near (separate feature duplicate reason [] xs)
  separate-Separated xs = ((apart_after [] xs).1, IsCovered-after [] xs)

prompt-marked :
    (py : PyText) (f : DatasetFormat) (r : String) (x : Item)
    → (prompt_of py f (marked r x) ≡ prompt_of py f x)
      × (classification_text_of py f (marked r x) ≡ classification_text_of py f x)
prompt-marked py alpaca r x = (refl, refl)
prompt-marked py chat r x = (refl, refl)
prompt-marked py raw r x = (refl, refl)
prompt-marked py dpo r x = (refl, refl)
prompt-marked py custom r x = (refl, refl)

content-marked : (py : PyText) (r : String) (x : Item) → content py (marked r x) ≡ content py x
unfolding get_prompt_and_response get_classification_text
content-marked py r x =
    rw ((prompt-marked py x.format r x).0, (prompt-marked py x.format r x).1) refl

-- Deduplication loses no record and makes up none, with each method and threshold: as many records
-- of each id are kept or dropped as were given.
pub count-deduplicate :
    (py : PyText) (t : Texts) (threshold size : ℕ) (i : String) (xs : List Item)
    → (count i (deduplicate_exact py t xs).0 + count i (deduplicate_exact py t xs).1 ≡ count i xs)
      × (count i (deduplicate_minhash py t threshold size xs).0
            + count i (deduplicate_minhash py t threshold size xs).1
          ≡ count i xs)
      × (count i (deduplicate_semantic_local py t threshold xs).0
            + count i (deduplicate_semantic_local py t threshold xs).1
          ≡ count i xs)
unfolding deduplicate_exact deduplicate_minhash deduplicate_semantic_local
count-deduplicate py t threshold size i xs = (
  count-separate (fingerprint py t) contains (λ _ _. "exact_duplicate") i [] xs,
  count-separate (λ x. get_shingles t size (content py x))
      (λ a seen. any (near_dup threshold a) seen) (λ _ _. "minhash_near_dup") i [] xs,
  count-separate (content py) (semantic_dup t threshold) (semantic_reason t) i [] xs,
)

-- Exact deduplication keeps no two records with one fingerprint, and drops a record only where one
-- with its fingerprint is kept.
pub deduplicate_exact-Separated :
    (py : PyText) (t : Texts) (xs : List Item)
    → Separated (fingerprint py t) (λ a b. b == a) (deduplicate_exact py t xs)
unfolding deduplicate_exact
deduplicate_exact-Separated py t xs =
    separate-Separated (fingerprint py t) contains (λ _ _. "exact_duplicate") (λ a b. b == a)
      (λ _ _. refl) (λ r x. ap (λ s. t.xxh64 (py.strip s)) (content-marked py r x)) xs

-- Lexical deduplication keeps no two records whose shingles reach the threshold, and drops a
-- record only where its shingles and those of a record kept reach it.
pub deduplicate_minhash-Separated :
    (py : PyText) (t : Texts) (threshold size : ℕ) (xs : List Item)
    → Separated
        (λ x. get_shingles t size (content py x))
        (near_dup threshold)
        (deduplicate_minhash py t threshold size xs)
unfolding deduplicate_minhash
deduplicate_minhash-Separated py t threshold size xs =
    separate-Separated (λ x. get_shingles t size (content py x))
      (λ a seen. any (near_dup threshold a) seen) (λ _ _. "minhash_near_dup") (near_dup threshold)
      (λ _ _. refl) (λ r x. ap (get_shingles t size) (content-marked py r x)) xs

best-reaches :
    (t : Texts) (threshold : ℕ) (a b : String) (bs : List String)
    → leb threshold (best t a (b ∷ bs)) ≡ any (λ c. leb threshold (t.similarity a c)) (b ∷ bs)
best-reaches t threshold a b [] = ground arith
best-reaches t threshold a b (c ∷ bs) = ground (arith, best-reaches t threshold a c bs)

semantic_dup-any :
    (t : Texts) (threshold : ℕ) (a : String) (seen : List String)
    → semantic_dup t threshold a seen ≡ any (λ c. leb threshold (t.similarity a c)) seen
semantic_dup-any t threshold a [] = refl
semantic_dup-any t threshold a (b ∷ bs) = best-reaches t threshold a b bs

-- Semantic deduplication keeps no two records whose similarity reaches the threshold, and drops a
-- record only where its similarity to a record kept reaches it.
pub deduplicate_semantic_local-Separated :
    (py : PyText) (t : Texts) (threshold : ℕ) (xs : List Item)
    → Separated
        (content py)
        (λ a b. leb threshold (t.similarity a b))
        (deduplicate_semantic_local py t threshold xs)
unfolding deduplicate_semantic_local
deduplicate_semantic_local-Separated py t threshold xs =
    separate-Separated (content py) (semantic_dup t threshold) (semantic_reason t)
      (λ a b. leb threshold (t.similarity a b)) (semantic_dup-any t threshold) (content-marked py)
      xs
