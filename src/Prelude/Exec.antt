-- ===== src/Prelude/Exec.antt =====
-- Methods that change an object's state and may raise. What was written before a raise stays
-- written, so the state comes back beside the error too; a transaction takes it back.

pub data Result {ℓ} (E A : Type ℓ) : Type ℓ where
  ok : A → Result E A
  err : E → Result E A

abbrev pub Exec {ℓ} : Type ℓ → Type ℓ → Type ℓ → Type ℓ
Exec E S A = S → Result E A × S

module _ {ℓ} {E S A : Type ℓ} where
  abbrev pub pure : A → Exec E S A
  pure a s = (Result.ok a, s)

  abbrev pub raise : E → Exec E S A
  raise e s = (Result.err e, s)

  abbrev pub gets : (S → A) → Exec E S A
  gets f s = (Result.ok (f s), s)

  -- The part of a transaction after its body: commit, or roll back and raise again.
  abbrev settle : S → Result E A × S → Result E A × S
  settle s (Result.ok a, s') = (Result.ok a, s')
  settle s (Result.err e, s') = (Result.err e, s)

  abbrev pub rollback_on_raise : Exec E S A → Exec E S A
  rollback_on_raise m s = settle s (m s)

abbrev pub modify {ℓ} : {E S : Type ℓ} → (S → S) → Exec E S (Unit {ℓ})
modify f s = (Result.ok tt, f s)

module _ {ℓ} {E S A B : Type ℓ} where
  abbrev pub continue : Result E A × S → (A → Exec E S B) → Result E B × S
  continue (Result.ok a, s) f = f a s
  continue (Result.err e, s) f = (Result.err e, s)

  infixl 10 ◌>>=◌ ◌>>◌
  abbrev pub ◌>>=◌ : Exec E S A → (A → Exec E S B) → Exec E S B
  ◌>>=◌ m f s = continue (m s) f

  abbrev pub ◌>>◌ : Exec E S A → Exec E S B → Exec E S B
  ◌>>◌ m n s = continue (m s) (λ _. n)

-- A predicate on states that actions keep, whether they return or raise.
module _ {ℓ} {E S : Type ℓ} (P : S → Type ℓ) where
  settle-keeps : {A : Type ℓ} (s : S) (r : Result E A × S) → P s → P r.1 → P (settle s r).1
  settle-keeps s (Result.ok a, s') before after = after
  settle-keeps s (Result.err e, s') before after = before

  pub rollback-keeps :
      {A : Type ℓ} (m : Exec E S A) (s : S) → P s → P (m s).1 → P (rollback_on_raise m s).1
  rollback-keeps m s = settle-keeps s (m s)

  continue-keeps :
      {A B : Type ℓ} (r : Result E A × S) (f : A → Exec E S B)
      → P r.1
      → ((a : A) (t : S) → P t → P (f a t).1)
      → P (continue r f).1
  continue-keeps (Result.ok a, t) f h k = k a t h
  continue-keeps (Result.err e, t) f h k = h

  -- The rest of a block keeps what its first action kept.
  pub bind-keeps :
      {A B : Type ℓ} (m : Exec E S A) (f : A → Exec E S B) (s : S)
      → P (m s).1
      → ((a : A) (t : S) → P t → P (f a t).1)
      → P ((m >>= f) s).1
  bind-keeps m f s = continue-keeps (m s) f
