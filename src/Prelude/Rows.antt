-- ===== src/Prelude/Rows.antt =====
-- Tables as lists of rows: the queries that the program's stores make of them.
use mathlib.Core.Path.{◌≡◌, refl, sym, ◌∙◌, subst}
use mathlib.Core.Logic.{◌≢◌, inl, inr}
use mathlib.Core.Bool.{Bool, true, false}
use mathlib.Core.Option.{Option, none, some}
use mathlib.Core.List.{List, [], ◌∷◌, ◌++◌}
use native.Mathlib.Omega.{arith}
use buffdata.Prelude.Tests.{if◌then◌else◌, Bool-cases}
use buffdata.Prelude.Lists.{All, All-imp, All-append, length, select}

pub some-inj {ℓ} : {A : Type ℓ} {a b : A} → some a ≡ some b → a ≡ b
some-inj h = cc

pub none-ne-some {ℓ} : {A : Type ℓ} {a : A} → none ≡ some a → ⊥
none-ne-some h = cc

module _ {ℓ} {A : Type ℓ} where
  -- SELECT … WHERE p, first row.
  abbrev pub first : (A → Bool) → List A → Option A
  first p [] = none
  first p (x ∷ xs) = if p x then some x else first p xs

  -- UPDATE … SET f WHERE p.
  abbrev pub update : (A → Bool) → (A → A) → List A → List A
  update p f [] = []
  update p f (x ∷ xs) = (if p x then f x else x) ∷ update p f xs

  pub length-update : (p : A → Bool) (f : A → A) (xs : List A) → length (update p f xs) ≡ length xs
  length-update p f [] = refl
  length-update p f (x ∷ xs) = omega (arith, length-update p f xs)

  pub first-holds : (p : A → Bool) (xs : List A) (a : A) → first p xs ≡ some a → p a ≡ true
  first-holds p [] a h = cc
  first-holds p (x ∷ xs) a h = ground (arith, first-holds p xs a)

  pub first-All {κ} :
      (P : A → Type κ) (p : A → Bool) (xs : List A) (a : A) → All P xs → first p xs ≡ some a → P a
  first-All P p [] a al h = absurd (none-ne-some h)
  first-All P p (x ∷ xs) a al h = elim (Bool-cases (p x)) [
    | inl e ↦ subst P (some-inj (rw e at h)) al.0
    | inr e ↦ first-All P p xs a al.1 (rw e at h)
  ]

  pub All-update {κ μ} :
      (P : A → Type κ) (Q : A → Type μ) (p : A → Bool) (f : A → A) (xs : List A)
      → ((x : A) → P x → p x ≡ true → Q (f x))
      → ((x : A) → P x → p x ≡ false → Q x)
      → All P xs
      → All Q (update p f xs)
  All-update P Q p f [] ht hf al = tt
  All-update P Q p f (x ∷ xs) ht hf al = elim (Bool-cases (p x)) [
    | inl e ↦ rw e (ht x al.0 e, All-update P Q p f xs ht hf al.1)
    | inr e ↦ rw e (hf x al.0 e, All-update P Q p f xs ht hf al.1)
  ]

  -- A key that no two rows share: a primary key.
  abbrev pub Unique {κ} : {K : Type κ} → (A → K) → List A → Type κ
  Unique key [] = Unit
  Unique key (x ∷ xs) = All (λ y. key y ≢ key x) xs × Unique key xs

  abbrev pub Only {κ} : {K : Type κ} → (A → K) → List A → A → Type (ℓ ⊔ κ)
  Only key xs a = All (λ r. key r ≡ key a → r ≡ a) xs

module _ {ℓ κ} {A : Type ℓ} {K : Type κ} (key : A → K) where
  Only-head : (x : A) (xs : List A) → All (λ y. key y ≢ key x) xs → Only key (x ∷ xs) x
  Only-head x xs fresh = (
    (λ _. refl),
    All-imp (λ y. key y ≢ key x) (λ r. key r ≡ key x → r ≡ x) xs (λ r ne e. absurd (ne e)) fresh,
  )

  Only-tail :
      (x : A) (xs ys : List A)
      → All (λ y. key y ≢ key x) ys
      → All (Only key xs) ys
      → All (Only key (x ∷ xs)) ys
  Only-tail x xs [] fresh al = tt
  Only-tail x xs (y ∷ ys) fresh al =
      (((λ e. absurd (fresh.0 (sym e))), al.0), Only-tail x xs ys fresh.1 al.1)

  pub Unique-Only : (xs : List A) → Unique key xs → All (Only key xs) xs
  Unique-Only [] u = tt
  Unique-Only (x ∷ xs) u = (Only-head x xs u.0, Only-tail x xs xs u.0 (Unique-Only xs u.1))

  fresh-update :
      (p : A → Bool) (f : A → A) (k : K) (xs : List A)
      → ((x : A) → key (f x) ≡ key x)
      → All (λ y. key y ≢ k) xs
      → All (λ y. key y ≢ k) (update p f xs)
  fresh-update p f k xs same =
      All-update (λ y. key y ≢ k) (λ y. key y ≢ k) p f xs (λ x ne _ e. ne (sym (same x) ∙ e))
        (λ x ne _. ne)

  pub Unique-update :
      (p : A → Bool) (f : A → A) (xs : List A)
      → ((x : A) → key (f x) ≡ key x)
      → Unique key xs
      → Unique key (update p f xs)
  Unique-update p f [] same u = tt
  Unique-update p f (x ∷ xs) same u = elim (Bool-cases (p x)) [
    | inl e ↦
        rw e (rw (same x) (fresh-update p f (key x) xs same u.0), Unique-update p f xs same u.1)
    | inr e ↦ rw e (fresh-update p f (key x) xs same u.0, Unique-update p f xs same u.1)
  ]

  fresh-append :
      (y : A) (k : K) (xs : List A)
      → key y ≢ k
      → All (λ r. key r ≢ k) xs
      → All (λ r. key r ≢ k) (xs ++ y ∷ [])
  fresh-append y k xs ne fresh = All-append (λ r. key r ≢ k) xs (y ∷ []) fresh (ne, tt)

  pub Unique-append :
      (xs : List A) (y : A)
      → Unique key xs
      → All (λ r. key r ≢ key y) xs
      → Unique key (xs ++ y ∷ [])
  Unique-append [] y u fresh = (tt, tt)
  Unique-append (x ∷ xs) y u fresh =
      (fresh-append y (key x) xs (λ e. fresh.0 (sym e)) u.0, Unique-append xs y u.1 fresh.1)

-- ORDER BY: a stable insertion sort by a test.
module _ {ℓ} {A : Type ℓ} (before : A → A → Bool) where
  unfoldable pub insert_by : A → List A → List A
  insert_by x [] = x ∷ []
  insert_by x (y ∷ ys) = if before y x then y ∷ insert_by x ys else x ∷ y ∷ ys

  unfoldable pub sort_by : List A → List A
  unfolding insert_by
  sort_by [] = []
  sort_by (x ∷ xs) = insert_by x (sort_by xs)

  insert_by-All {κ} :
      (P : A → Type κ) (x : A) (ys : List A) → P x → All P ys → All P (insert_by x ys)
  unfolding insert_by
  insert_by-All P x [] px al = (px, tt)
  insert_by-All P x (y ∷ ys) px al = elim (Bool-cases (before y x)) [
    | inl e ↦ rw e (al.0, insert_by-All P x ys px al.1)
    | inr e ↦ rw e (px, al)
  ]

  pub sort_by-All {κ} : (P : A → Type κ) (xs : List A) → All P xs → All P (sort_by xs)
  unfolding sort_by
  sort_by-All P [] al = tt
  sort_by-All P (x ∷ xs) al = insert_by-All P x (sort_by xs) al.0 (sort_by-All P xs al.1)

module _ {ℓ κ} {A : Type ℓ} (P : A → Type κ) where
  pub select-All : (p : A → Bool) (xs : List A) → All P xs → All P (select p xs)
  select-All p [] al = tt
  select-All p (x ∷ xs) al = elim (Bool-cases (p x)) [
    | inl e ↦ rw e (al.0, select-All p xs al.1)
    | inr e ↦ rw e (select-All p xs al.1)
  ]

pub select-holds {ℓ} :
    {A : Type ℓ} (p : A → Bool) (xs : List A) → All (λ x. p x ≡ true) (select p xs)
select-holds p [] = tt
select-holds p (x ∷ xs) = elim (Bool-cases (p x)) [
  | inl e ↦ rw e (e, select-holds p xs)
  | inr e ↦ rw e (select-holds p xs)
]

module _ {ℓ} {A : Type ℓ} (p q : A → Bool) (f : A → A) where
  pub first-update-none :
      (rs : List A)
      → ((x : A) → q x ≡ true → p (f x) ≡ false)
      → ((x : A) → q x ≡ false → p x ≡ false)
      → first p (update q f rs) ≡ none
  first-update-none [] ht hf = refl
  first-update-none (x ∷ rs) ht hf = elim (Bool-cases (q x)) [
    | inl e ↦ rw (e, ht x e) (first-update-none rs ht hf)
    | inr e ↦ rw (e, hf x e) (first-update-none rs ht hf)
  ]

  pub first-update :
      (rs : List A) (r : A)
      → ((x : A) → p (f x) ≡ p x)
      → first p rs ≡ some r
      → first p (update q f rs) ≡ some (if q r then f r else r)
  first-update [] r same found = absurd (none-ne-some found)
  first-update (x ∷ rs) r same found = elim (Bool-cases (p x)) [
    | inl here ↦
        subst (λ y. first p (update q f (x ∷ rs)) ≡ some (if q y then f y else y))
          (some-inj (rw here at found))
          (elim (Bool-cases (q x)) [ inl e ↦ rw (e, same x, here) | inr e ↦ rw (e, here) ])
    | inr on ↦ elim (Bool-cases (q x)) [
      | inl e ↦ rw (e, same x, on) (first-update rs r same (rw on at found))
      | inr e ↦ rw (e, on) (first-update rs r same (rw on at found))
    ]
  ]

pub first-narrower {ℓ} :
    {A : Type ℓ} (p q : A → Bool) (rs : List A) (r : A)
    → ((x : A) → q x ≡ false → p x ≡ false)
    → first q rs ≡ some r
    → p r ≡ true
    → first p rs ≡ some r
first-narrower p q [] r wider found t = absurd (none-ne-some found)
first-narrower p q (x ∷ rs) r wider found t = elim (Bool-cases (q x)) [
  | inl here ↦
      subst (λ y. p y ≡ true → first p (x ∷ rs) ≡ some y) (some-inj (rw here at found)) (λ e. rw e)
        t
  | inr on ↦ rw (wider x on) (first-narrower p q rs r wider (rw on at found) t)
]
