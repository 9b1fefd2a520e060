-- ===== src/Prelude/Floats.antt =====
-- Python's floats, which the gate of accuracies and the data contracts compare. A float is known by its 64
-- bits only, and what Python computes from them, rounding included, is a parameter.
use buffdata.Prelude.{ℕ, Bool, List}

abbrev pub Float : Type 0
Float = ℕ

pub record Floats : Type 0 where
  pub nought : Float
  pub one : Float
  pub less : Float → Float → Bool
  pub at_most : Float → Float → Bool
  pub plus : Float → Float → Float
  pub minus : Float → Float → Float
  pub times : Float → Float → Float
  pub divide : Float → Float → Float
  pub quotient : ℕ → ℕ → Float  -- `/` of whole numbers
  pub is_zero : Float → Bool
  pub mean : List Float → Float  -- `statistics.mean`
