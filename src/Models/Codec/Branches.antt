-- ===== src/Models/Codec/Branches.antt =====
-- The branch of `from_dict` that a record takes.
use buffdata.Prelude.{
  [], none, some, true, false, refl, Bool, Option, List, ◌∷◌, ◌≡◌, ◌≢◌, string_eq, arith,
}
use buffdata.Prelude.Json.{Items}
use buffdata.Models.Item.{
  Item, ChatMessage, DatasetFormat, get_field, alpaca, chat, raw, dpo, custom,
}
use buffdata.Models.Codec.{
  Codec, from_dict, to_dict, labels_column, format_of, labels_value, messages_value, messages_items,
}
use buffdata.Models.Codec.Reread.{IsAlike}

-- The record is read again, as the same one for its readers.
abbrev pub Rereads : Codec → Item → Type 0
Rereads c x = (y : Item) × (from_dict c (to_dict c x) ≡ some y) × IsAlike x y

pub messages-again : (ms : List ChatMessage) → messages_value (messages_items ms) ≡ some ms
messages-again [] = refl
messages-again (m ∷ ms) = rw (messages-again ms) refl

-- What `from_dict` found out about a record's columns.
pub record IsWhole (c : Codec) (x : Item) : Type 0 where
  pub named : x.id ≢ ""
  pub no_metadata : get_field "_buffdata_metadata" x.raw_data ≡ none
  pub no_quality : get_field "_buffdata_quality" x.raw_data ≡ none
  pub labels : labels_value c (labels_column x.raw_data) ≡ some x.labels

pub format_by :
    {a a' : Option Items} {b b' p p' t t' : Bool}
    → a ≡ a'
    → b ≡ b'
    → p ≡ p'
    → t ≡ t'
    → format_of a b p t ≡ format_of a' b' p' t'
format_by ea eb ep et = λ i. format_of (ea i) (eb i) (ep i) (et i)

pub not_chat : (a : Option Items) (b p t : Bool) → format_of a b p t ≢ chat → a ≡ none
not_chat none b p t h = refl
not_chat (some xs) b p t h = absurd (h refl)

pub chat-ne-raw : ◌≡◌ {A = DatasetFormat} chat raw → ⊥
chat-ne-raw h = cc

pub chat-ne-dpo : ◌≡◌ {A = DatasetFormat} chat dpo → ⊥
chat-ne-dpo h = cc

pub chat-ne-alpaca : ◌≡◌ {A = DatasetFormat} chat alpaca → ⊥
chat-ne-alpaca h = cc

as_dpo : (b p t : Bool) → format_of none b p t ≡ dpo → b ≡ true
as_dpo b p t h = ground (arith, h)

pub as_alpaca : (b p t : Bool) → format_of none b p t ≡ alpaca → (b ≡ false) × (p ≡ true)
as_alpaca b p t h = (ground (arith, h), ground (arith, h))

pub as_raw : (b p t : Bool) → format_of none b p t ≡ raw → (b ≡ false) × (p ≡ false)
as_raw b p t h = (ground (arith, h), ground (arith, h))

as_custom : (b p t : Bool) → format_of none b p t ≡ custom → (b ≡ false) × (p ≡ false) × (t ≡ false)
as_custom b p t h = (ground (arith, h), ground (arith, h), ground (arith, h))
