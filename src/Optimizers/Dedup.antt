-- ===== src/Optimizers/Dedup.antt =====
-- buffdata/optimizers/dedup.py: `Deduplicator`. Each method goes once over the records, keeps a
-- record that resembles none of those kept so far, and drops the others with a reason. The
-- thresholds are compared in whole numbers, where the program divides floats. The record that the
-- program drops is changed in place; here it is the changed record.
pub mod Kept
pub mod Examples
use Prim.Native.String.{◌++◌ as append}
use buffdata.Prelude.{
  ℕ, String, List, Bool, not, ltb, [], any, map, ◌∷◌, length, contains, suc, if◌then◌else◌, nat_eq,
  ◌&&◌, true, is_empty, select, ◌+◌, leb, false, take, ◌==◌, ◌-◌, drop, ◌*◌, zero, string_eq,
}
use buffdata.Models.Item.{PyText, Item, set_field, get_prompt_and_response, get_classification_text}
use buffdata.Prelude.Json.{Json}

-- What the methods take from packages: hashes, the words of a lowered text, and the similarity of
-- two embedded texts, in small units from the least similarity upwards, with its text.
pub record Texts : Type 0 where
  pub xxh64 : String → ℕ
  pub words : String → List String
  pub similarity : String → String → ℕ
  pub show : ℕ → String

-- `_content`
abbrev pub content : PyText → Item → String
content py x =
    let (prompt, response) = get_prompt_and_response py x in
    let combined = py.strip (append prompt (append " " response)) in
    if combined == "" then get_classification_text py x else combined

-- `it.metadata["dedup_reason"] = reason`
abbrev pub marked : String → Item → Item
marked reason x = record x { metadata = set_field "dedup_reason" (Json.str reason) x.metadata }

abbrev pub placed : Bool → String → Item → List Item × List Item → List Item × List Item
placed true reason x (kept, dropped) = (kept, marked reason x ∷ dropped)
placed false reason x (kept, dropped) = (x ∷ kept, dropped)

-- The loop: `duplicate` looks at a record's feature and those of the records kept so far.
module _ {F : Type 0} (feature : Item → F) (duplicate : F → List F → Bool)
    (reason : F → List F → String) where
  abbrev pub separate : List F → List Item → List Item × List Item
  separate seen [] = ([], [])
  separate seen (x ∷ xs) =
      let f = feature x in
      let dup = duplicate f seen in
      placed dup (reason f seen) x (separate (if dup then seen else f ∷ seen) xs)

abbrev pub fingerprint : PyText → Texts → Item → ℕ
fingerprint py t x = t.xxh64 (py.strip (content py x))

-- `deduplicate_exact`
unfoldable pub deduplicate_exact : PyText → Texts → List Item → List Item × List Item
deduplicate_exact py t = separate (fingerprint py t) contains (λ _ _. "exact_duplicate") []

abbrev pub join_words : List String → String
join_words [] = ""
join_words (w ∷ []) = w
join_words (w ∷ v ∷ ws) = append w (append " " (join_words (v ∷ ws)))

-- `[" ".join(words[i:i+size]) for i in range(count)]`
abbrev pub windows : ℕ → ℕ → List String → List String
windows size zero ws = []
windows size (suc count) ws = join_words (take size ws) ∷ windows size count (drop 1 ws)

-- A set: the list without its repetitions.
abbrev pub set_of : List ℕ → List ℕ
set_of [] = []
set_of (n ∷ ns) = let rest = set_of ns in if contains n rest then rest else n ∷ rest

-- `get_shingles`
abbrev pub get_shingles : Texts → ℕ → String → List ℕ
get_shingles t size text =
    let ws = t.words text in
    set_of
      (map t.xxh64 (if ltb (length ws) size then ws else windows size (length ws - size + 1) ws))

abbrev pub common : List ℕ → List ℕ → ℕ
common a b = length (select (λ n. contains n b) a)

abbrev pub union_size : List ℕ → List ℕ → ℕ
union_size a b = length a + length (select (λ n. not (contains n a)) b)

-- `union > 0` and `sim >= threshold`, with the threshold in hundredths.
abbrev pub near_dup : ℕ → List ℕ → List ℕ → Bool
near_dup threshold a b =
    ltb 0 (union_size a b) && leb (threshold * union_size a b) (100 * common a b)

-- `deduplicate_minhash`; the number in its reason is left out.
unfoldable pub deduplicate_minhash : PyText → Texts → ℕ → ℕ → List Item → List Item × List Item
deduplicate_minhash py t threshold size =
    separate (λ x. get_shingles t size (content py x)) (λ a seen. any (near_dup threshold a) seen)
      (λ _ _. "minhash_near_dup") []

-- `torch.max(similarities)`
abbrev pub best : Texts → String → List String → ℕ
best t a [] = 0
best t a (b ∷ bs) =
    let rest = best t a bs in if ltb rest (t.similarity a b) then t.similarity a b else rest

-- `deduplicate_semantic_local`: the first record is kept, and a later one by its best similarity.
abbrev pub semantic_dup : Texts → ℕ → String → List String → Bool
semantic_dup t threshold a seen = not (is_empty seen) && leb threshold (best t a seen)

abbrev pub semantic_reason : Texts → String → List String → String
semantic_reason t a seen = append "semantic_local_dup (sim: " (append (t.show (best t a seen)) ")")

unfoldable pub deduplicate_semantic_local : PyText → Texts → ℕ → List Item → List Item × List Item
deduplicate_semantic_local py t threshold =
    separate (content py) (semantic_dup t threshold) (semantic_reason t) []
