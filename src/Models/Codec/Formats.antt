-- ===== src/Models/Codec/Formats.antt =====
-- The texts of a record of each format, once it is written and read again.
use buffdata.Prelude.{
  none, some, false, refl, String, Option, List, ◌≡◌, ◌==◌, ◌&&◌, ◌||◌, string_eq, ◌∙◌, sym, ap,
}
use buffdata.Prelude.Json.{Json, Fields}
use buffdata.Models.Item.{
  Item, ChatMessage, DatasetFormat, QualityScore, Labels, get_field, set_field, or_empty, alpaca,
  chat, raw, dpo, custom,
}
use buffdata.Models.Codec.{
  Codec, to_dict, columns, detected, list_of, has, messages_json, text_json, present,
}
use buffdata.Models.Codec.Lookups.{get_field-set_field, get_field-set_other}
use buffdata.Models.Codec.Reread.{IsFaithful, IsAlike, texts_layer}
use buffdata.Models.Codec.Again.{seen, kept, again}
use buffdata.Models.Codec.Branches.{
  IsWhole, Rereads, messages-again, format_by, not_chat, chat-ne-raw, chat-ne-dpo, chat-ne-alpaca,
  as_alpaca, as_raw,
}

-- A key that is none of the record's own.
abbrev Apart : String → Type 0
Apart k =
    (("id" == k) ≡ false)
    × (("_buffdata_id" == k) ≡ false)
    × (("_buffdata_metadata" == k) ≡ false)
    × (("_buffdata_quality" == k) ≡ false)
    × (("labels" == k) ≡ false)

module _ (c : Codec) (faithful : IsFaithful c) (id : String) (l : Option Labels) (m : Fields)
    (q : Option QualityScore) (fs : Fields) where
  abbrev named_columns : Fields
  named_columns = set_field "id" (Json.str id) fs

  abbrev pub item_of :
      DatasetFormat
      → Option (List ChatMessage)
      → Option String
      → Option String
      → Option String
      → Option String
      → Option String
      → Option String
      → Option String
      → Fields
      → Item
  item_of f ms i n o p ch r t columns' = record {
    id = id;
    format = f;
    instruction = i;
    input = n;
    output = o;
    messages = ms;
    text = t;
    labels = l;
    prompt = p;
    chosen = ch;
    rejected = r;
    metadata = m;
    quality_score = q;
    raw_data = columns';
  }

  -- A column after the texts of a format are set.
  column :
      (x : Item) (k : String)
      → Apart k
      → get_field k (columns (to_dict c x)) ≡ get_field k (texts_layer c x)
  column x k (i, b, md, ql, lb) = seen c faithful x k i b md ql lb

  fs_column : (k : String) → ("id" == k) ≡ false → get_field k named_columns ≡ get_field k fs
  fs_column k n = get_field-set_other k "id" (Json.str id) fs n

  alike :
      (x : Item) (y : Item)
      → y.id ≡ x.id
      → y.format ≡ x.format
      → y.labels ≡ x.labels
      → y.metadata ≡ x.metadata
      → y.quality_score ≡ x.quality_score
      → y.messages ≡ x.messages
      → or_empty y.instruction ≡ or_empty x.instruction
      → or_empty y.input ≡ or_empty x.input
      → or_empty y.output ≡ or_empty x.output
      → or_empty y.prompt ≡ or_empty x.prompt
      → or_empty y.chosen ≡ or_empty x.chosen
      → or_empty y.rejected ≡ or_empty x.rejected
      → or_empty y.text ≡ or_empty x.text
      → y.raw_data ≡ columns (to_dict c x)
      → IsAlike x y
  alike x y a b d e f g h i j k p r t w = record {
    id = a;
    format = b;
    labels = d;
    metadata = e;
    quality = f;
    messages = g;
    instruction = h;
    input = i;
    output = j;
    prompt = k;
    chosen = p;
    rejected = r;
    text = t;
    others = λ key other. ap (get_field key) w ∙ kept c faithful x key other;
  }

  pub chat-again :
      (ms : List ChatMessage)
      → IsWhole c (item_of chat (some ms) none none none none none none none fs)
      → Rereads c (item_of chat (some ms) none none none none none none none fs)
  chat-again ms whole =
      let x : Item = item_of chat (some ms) none none none none none none none fs in
      let here : get_field "messages" (columns (to_dict c x)) ≡ some (messages_json (some ms)) =
        column x "messages" (refl, refl, refl, refl, refl)
        ∙ get_field-set_field "messages" (messages_json (some ms)) named_columns in
      let found : detected (columns (to_dict c x)) ≡ chat = rw here refl in
      (
        item_of chat (some ms) none none none none none none none (columns (to_dict c x)),
        again c faithful x whole.named whole.no_metadata whole.no_quality whole.labels found
            ∙ rw (here, messages-again ms) refl,
        alike x _ refl refl refl refl refl refl refl refl refl refl refl refl refl refl,
      )

  pub raw-again :
      (t : Option String)
      → detected fs ≡ raw
      → IsWhole c (item_of raw none none none none none none none t fs)
      → Rereads c (item_of raw none none none none none none none t fs)
  raw-again t d whole =
      let x : Item = item_of raw none none none none none none none t fs in
      let here : get_field "text" (columns (to_dict c x)) ≡ some (text_json t) =
        column x "text" (refl, refl, refl, refl, refl)
        ∙ get_field-set_field "text" (text_json t) named_columns in
      let same : (k : String)
          → Apart k
          → ("text" == k) ≡ false
          → get_field k (columns (to_dict c x)) ≡ get_field k fs =
        λ k apart n.
          column x k apart
          ∙ get_field-set_other k "text" (text_json t) named_columns n
          ∙ fs_column k apart.0 in
      let a : list_of (get_field "messages" fs) ≡ none =
        not_chat (list_of (get_field "messages" fs)) (has "chosen" fs && has "rejected" fs)
          (has "instruction" fs || has "output" fs) (has "text" fs)
          (λ k. chat-ne-raw (sym k ∙ d)) in
      let (b, p) =
        as_raw (has "chosen" fs && has "rejected" fs) (has "instruction" fs || has "output" fs)
          (has "text" fs) (format_by (sym a) refl refl refl ∙ d) in
      let found : detected (columns (to_dict c x)) ≡ raw =
        format_by (ap list_of (same "messages" (refl, refl, refl, refl, refl) refl) ∙ a)
          ((λ i.
              present (same "chosen" (refl, refl, refl, refl, refl) refl i)
              && present (same "rejected" (refl, refl, refl, refl, refl) refl i))
            ∙ b)
          ((λ i.
              present (same "instruction" (refl, refl, refl, refl, refl) refl i)
              || present (same "output" (refl, refl, refl, refl, refl) refl i))
            ∙ p)
          (ap present here) in
      (
        item_of raw none none none none none none none (some (or_empty t)) (columns (to_dict c x)),
        again c faithful x whole.named whole.no_metadata whole.no_quality whole.labels found
            ∙ rw here refl,
        alike x _ refl refl refl refl refl refl refl refl refl refl refl refl refl refl,
      )

  pub custom-again :
      detected fs ≡ custom
      → IsWhole c (item_of custom none none none none none none none none fs)
      → Rereads c (item_of custom none none none none none none none none fs)
  custom-again d whole =
      let x : Item = item_of custom none none none none none none none none fs in
      let same : (k : String) → Apart k → get_field k (columns (to_dict c x)) ≡ get_field k fs =
        λ k apart. column x k apart ∙ fs_column k apart.0 in
      let found : detected (columns (to_dict c x)) ≡ custom =
        format_by (ap list_of (same "messages" (refl, refl, refl, refl, refl)))
          (λ i.
            present (same "chosen" (refl, refl, refl, refl, refl) i)
            && present (same "rejected" (refl, refl, refl, refl, refl) i))
          (λ i.
            present (same "instruction" (refl, refl, refl, refl, refl) i)
            || present (same "output" (refl, refl, refl, refl, refl) i))
          (ap present (same "text" (refl, refl, refl, refl, refl)))
        ∙ d in
      (
        item_of custom none none none none none none none none (columns (to_dict c x)),
        again c faithful x whole.named whole.no_metadata whole.no_quality whole.labels found,
        alike x _ refl refl refl refl refl refl refl refl refl refl refl refl refl refl,
      )

  pub dpo-again :
      (p ch r : Option String)
      → detected fs ≡ dpo
      → IsWhole c (item_of dpo none none none none p ch r none fs)
      → Rereads c (item_of dpo none none none none p ch r none fs)
  dpo-again p ch r d whole =
      let x : Item = item_of dpo none none none none p ch r none fs in
      let with_prompt = set_field "prompt" (text_json p) named_columns in
      let with_chosen = set_field "chosen" (text_json ch) with_prompt in
      let rejected_there : get_field "rejected" (columns (to_dict c x)) ≡ some (text_json r) =
        column x "rejected" (refl, refl, refl, refl, refl)
        ∙ get_field-set_field "rejected" (text_json r) with_chosen in
      let chosen_there : get_field "chosen" (columns (to_dict c x)) ≡ some (text_json ch) =
        column x "chosen" (refl, refl, refl, refl, refl)
        ∙ get_field-set_other "chosen" "rejected" (text_json r) with_chosen refl
        ∙ get_field-set_field "chosen" (text_json ch) with_prompt in
      let prompt_there : get_field "prompt" (columns (to_dict c x)) ≡ some (text_json p) =
        column x "prompt" (refl, refl, refl, refl, refl)
        ∙ get_field-set_other "prompt" "rejected" (text_json r) with_chosen refl
        ∙ get_field-set_other "prompt" "chosen" (text_json ch) with_prompt refl
        ∙ get_field-set_field "prompt" (text_json p) named_columns in
      let messages_same : get_field "messages" (columns (to_dict c x)) ≡ get_field "messages" fs =
        column x "messages" (refl, refl, refl, refl, refl)
        ∙ get_field-set_other "messages" "rejected" (text_json r) with_chosen refl
        ∙ get_field-set_other "messages" "chosen" (text_json ch) with_prompt refl
        ∙ get_field-set_other "messages" "prompt" (text_json p) named_columns refl
        ∙ fs_column "messages" refl in
      let a : list_of (get_field "messages" fs) ≡ none =
        not_chat (list_of (get_field "messages" fs)) (has "chosen" fs && has "rejected" fs)
          (has "instruction" fs || has "output" fs) (has "text" fs)
          (λ k. chat-ne-dpo (sym k ∙ d)) in
      let found : detected (columns (to_dict c x)) ≡ dpo =
        format_by (ap list_of messages_same ∙ a)
          (λ i. present (chosen_there i) && present (rejected_there i)) refl refl in
      (
        item_of dpo none none none none (some (or_empty p)) (some (or_empty ch)) (some (or_empty r))
            none (columns (to_dict c x)),
        again c faithful x whole.named whole.no_metadata whole.no_quality whole.labels found
            ∙ rw (prompt_there, chosen_there, rejected_there) refl,
        alike x _ refl refl refl refl refl refl refl refl refl refl refl refl refl refl,
      )

  pub alpaca-again :
      (i n o : Option String)
      → detected fs ≡ alpaca
      → IsWhole c (item_of alpaca none i n o none none none none fs)
      → Rereads c (item_of alpaca none i n o none none none none fs)
  alpaca-again i n o d whole =
      let x : Item = item_of alpaca none i n o none none none none fs in
      let with_instruction = set_field "instruction" (text_json i) named_columns in
      let with_input = set_field "input" (text_json n) with_instruction in
      let output_there : get_field "output" (columns (to_dict c x)) ≡ some (text_json o) =
        column x "output" (refl, refl, refl, refl, refl)
        ∙ get_field-set_field "output" (text_json o) with_input in
      let input_there : get_field "input" (columns (to_dict c x)) ≡ some (text_json n) =
        column x "input" (refl, refl, refl, refl, refl)
        ∙ get_field-set_other "input" "output" (text_json o) with_input refl
        ∙ get_field-set_field "input" (text_json n) with_instruction in
      let instruction_there : get_field "instruction" (columns (to_dict c x)) ≡ some (text_json i) =
        column x "instruction" (refl, refl, refl, refl, refl)
        ∙ get_field-set_other "instruction" "output" (text_json o) with_input refl
        ∙ get_field-set_other "instruction" "input" (text_json n) with_instruction refl
        ∙ get_field-set_field "instruction" (text_json i) named_columns in
      let same : (k : String)
          → Apart k
          → ("output" == k) ≡ false
          → ("input" == k) ≡ false
          → ("instruction" == k) ≡ false
          → get_field k (columns (to_dict c x)) ≡ get_field k fs =
        λ k apart h1 h2 h3.
          column x k apart
          ∙ get_field-set_other k "output" (text_json o) with_input h1
          ∙ get_field-set_other k "input" (text_json n) with_instruction h2
          ∙ get_field-set_other k "instruction" (text_json i) named_columns h3
          ∙ fs_column k apart.0 in
      let a : list_of (get_field "messages" fs) ≡ none =
        not_chat (list_of (get_field "messages" fs)) (has "chosen" fs && has "rejected" fs)
          (has "instruction" fs || has "output" fs) (has "text" fs)
          (λ k. chat-ne-alpaca (sym k ∙ d)) in
      let (b, told) =
        as_alpaca (has "chosen" fs && has "rejected" fs) (has "instruction" fs || has "output" fs)
          (has "text" fs) (format_by (sym a) refl refl refl ∙ d) in
      let found : detected (columns (to_dict c x)) ≡ alpaca =
        format_by (ap list_of (same "messages" (refl, refl, refl, refl, refl) refl refl refl) ∙ a)
          ((λ j.
              present (same "chosen" (refl, refl, refl, refl, refl) refl refl refl j)
              && present (same "rejected" (refl, refl, refl, refl, refl) refl refl refl j))
            ∙ b)
          (λ j. present (instruction_there j) || present (output_there j)) refl in
      (
        item_of alpaca none (some (or_empty i)) (some (or_empty n)) (some (or_empty o)) none none
            none none (columns (to_dict c x)),
        again c faithful x whole.named whole.no_metadata whole.no_quality whole.labels found
            ∙ rw (instruction_there, input_there, output_there) refl,
        alike x _ refl refl refl refl refl refl refl refl refl refl refl refl refl refl,
      )
