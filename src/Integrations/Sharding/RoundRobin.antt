-- ===== src/Integrations/Sharding/RoundRobin.antt =====
-- Counting round robin: of `k` rows in turn, each of `n` places gets `k / n`, or one more.
use native.Mathlib.Nat.{
  div-add-mod', mod-lt, mod-eq_of_lt, mul-add-mod_self_right, mul-add-div_right, div-eq_of_lt,
  zero-div, zero-mod,
}
use buffdata.Prelude.{
  ℕ, ◌≡◌, suc, ◌/◌, ◌+◌, ◌*◌, if◌then◌else◌, ltb, ◌<◌, ◌%◌, ◌==◌, zero, nat_eq, ◌≤◌, ap, arith, sym,
  ◌∙◌, Bool-cases, inl, ltb→lt, inr,
}

-- How many of the `k` numbers from `c` on leave the remainder `i`.
abbrev pub hits : ℕ → ℕ → ℕ → ℕ → ℕ
hits n i c zero = 0
hits n i c (suc k) = (if c % n == i then 1 else 0) + hits n i (suc c) k

-- What place `i` has after `c` rows.
abbrev pub share : ℕ → ℕ → ℕ → ℕ
share n i c = c / n + (if ltb i (c % n) then 1 else 0)

add_zero : (c : ℕ) → c + 0 ≡ c
add_zero c = omega arith

add_suc : (c k : ℕ) → suc c + k ≡ c + suc k
add_suc c k = omega arith

zero_add : (k : ℕ) → 0 + k ≡ k
zero_add k = omega arith

div_mod_unique : (n a b c : ℕ) → c ≡ a * n + b → b < n → (c / n ≡ a) × (c % n ≡ b)
div_mod_unique n a b c e h = rw e (
  mul-add-div_right (omega arith) a b ∙ omega (arith, div-eq_of_lt h),
  mul-add-mod_self_right a n b ∙ mod-eq_of_lt h,
)

-- After a round the next one begins.
next_round : (n a b c : ℕ) → c ≡ a * n + b → b + 1 ≡ n → suc c ≡ (a + 1) * n + 0
next_round n a b c e h = grind arith

share-suc : (n i c : ℕ) → i < n → share n i (suc c) ≡ share n i c + (if c % n == i then 1 else 0)
share-suc n i c h =
    let e : c ≡ c / n * n + c % n = sym (div-add-mod' c n) in
    let small : c % n < n = mod-lt c (omega arith) in
    elim (Bool-cases (ltb (c % n + 1) n)) [
      | inl on ↦
          let next =
            div_mod_unique n (c / n) (c % n + 1) (suc c) (omega (arith, e))
              (ltb→lt (c % n + 1) n on) in
          rw (next.0, next.1) (ground arith)
      | inr over ↦
          let next =
            div_mod_unique n (c / n + 1) 0 (suc c)
              (next_round n (c / n) (c % n) c e (ground (arith, over, small))) (omega arith) in
          rw (next.0, next.1) (ground (arith, over, small))
    ]

hits-share : (n i c k : ℕ) → i < n → hits n i c k + share n i c ≡ share n i (c + k)
hits-share n i c zero h = omega (arith, ap (share n i) (add_zero c))
hits-share n i c (suc k) h =
    omega (arith, hits-share n i (suc c) k h, share-suc n i c h, ap (share n i) (add_suc c k))

share_zero : (n i : ℕ) → i < n → share n i 0 ≡ 0
share_zero n i h = rw (zero-div n, zero-mod n) (ground arith)

-- The share of each place, and that it is as even as can be.
pub hits_lem : (n i k : ℕ) → i < n → hits n i 0 k ≡ share n i k
hits_lem n i k h =
    omega (arith, hits-share n i 0 k h, share_zero n i h, ap (share n i) (zero_add k))

pub share_even : (n i j k : ℕ) → share n i k ≤ share n j k + 1
share_even n i j k = ground arith
