-- ===== src/Security/Frames/Exact.antt =====
-- What an exact read gives, however the bytes are cut into chunks.
use buffdata.Prelude.{
  ℕ, Option, ◌<◌, suc, ◌≤◌, is_empty, take, length, All, ◌≢◌, ◌∷◌, some, ◌++◌, ◌≡◌, drop, arith, ap,
  ◌-◌, zero, false, if_cases, sym, [], none, refl, append_assoc, Bool-cases, leb, length-append,
  ◌∙◌, inl, take-drop, leb→le, inr, ◌==◌, nat_eq,
}
use buffdata.Security.Frames.{Stream, read_loop, Bytes, read_exact, read, joined}

abbrev pub bytes_of : Stream → Bytes
bytes_of [] = []
bytes_of (c ∷ cs) = c ++ bytes_of cs

-- No chunk is empty before the stream ends.
abbrev pub IsOpen : Stream → Type 0
IsOpen s = All (λ c. is_empty c ≡ false) s

-- A read of `count` bytes of a stream: they and the rest, or, where there are fewer, nothing.
abbrev pub ReadsExactly : ℕ → Stream → Option Bytes × Stream → Type 0
ReadsExactly count s (none, s') = length (bytes_of s) < count
ReadsExactly count s (some b, s') = (length b ≡ count) × (b ++ bytes_of s' ≡ bytes_of s) × IsOpen s'

take-drop_bytes : (n : ℕ) (c rest : Bytes) → take n c ++ (drop n c ++ rest) ≡ c ++ rest
take-drop_bytes n c rest =
    sym (append_assoc (take n c) (drop n c) rest) ∙ ap (λ x. x ++ rest) (take-drop n c)

length-take : (n : ℕ) (c : Bytes) → n ≤ length c → length (take n c) ≡ n
length-take zero c h = refl
length-take (suc n) [] h = absurd (omega arith)
length-take (suc n) (x ∷ c) h = omega (arith, length-take n c)

take_all : (n : ℕ) (c : Bytes) → length c ≤ n → take n c ≡ c
take_all zero [] h = refl
take_all zero (x ∷ c) h = absurd (omega arith)
take_all (suc n) [] h = refl
take_all (suc n) (x ∷ c) h = ap (λ rest. x ∷ rest) (take_all n c (omega arith))

not_empty-drop : (n : ℕ) (c : Bytes) → n < length c → is_empty (drop n c) ≡ false
not_empty-drop zero [] h = absurd (omega arith)
not_empty-drop zero (x ∷ c) h = refl
not_empty-drop (suc n) [] h = absurd (omega arith)
not_empty-drop (suc n) (x ∷ c) h = not_empty-drop n c (omega arith)

not_empty-take : (n : ℕ) (c : Bytes) → is_empty c ≡ false → n ≢ 0 → is_empty (take n c) ≡ false
not_empty-take zero c h ne = absurd (ne refl)
not_empty-take (suc n) [] h ne = cc
not_empty-take (suc n) (x ∷ c) h ne = refl

length_positive : (c : Bytes) → is_empty c ≡ false → 0 < length c
length_positive [] h = cc
length_positive (x ∷ c) h = omega arith

-- A read that is not at the end: some bytes, no more than asked for, and the rest.
read_some :
    (n : ℕ) (c : Bytes) (cs : Stream)
    → n ≢ 0
    → IsOpen (c ∷ cs)
    → let (chunk, s') = read n (c ∷ cs) in
      (is_empty chunk ≡ false)
      × (length chunk ≤ n)
      × (chunk ++ bytes_of s' ≡ c ++ bytes_of cs)
      × IsOpen s'
read_some n c cs ne open' = elim (Bool-cases (leb (length c) n)) [
  | inl whole ↦
      let e = take_all n c (leb→le (length c) n whole) in
      rw whole (not_empty-take n c open'.0 ne, rw e (leb→le (length c) n whole), rw e refl, open'.1)
  | inr part ↦
      let short : n < length c = ground (arith, part) in
      rw part (
        not_empty-take n c open'.0 ne,
        omega (arith, length-take n c),
        take-drop_bytes n c (bytes_of cs),
        (not_empty-drop n c short, open'.1),
      )
]

joined-ReadsExactly :
    (n : ℕ) (s s' : Stream) (chunk : Bytes) (r : Option Bytes × Stream)
    → length chunk ≤ n
    → chunk ++ bytes_of s' ≡ bytes_of s
    → ReadsExactly (n - length chunk) s' r
    → ReadsExactly n s (joined chunk r)
joined-ReadsExactly n s s' chunk (none, s'') le e h =
    omega (arith, ap length e, length-append chunk (bytes_of s'), h)
joined-ReadsExactly n s s' chunk (some b, s'') le e h = (
  omega (arith, h.0, length-append chunk b),
  append_assoc chunk b (bytes_of s'') ∙ ap (λ x. chunk ++ x) h.1 ∙ e,
  h.2,
)

read_loop-ReadsExactly :
    (fuel n : ℕ) (s : Stream) → n < fuel → IsOpen s → ReadsExactly n s (read_loop fuel n s)
unfolding read_loop
read_loop-ReadsExactly zero n s lt open' = absurd (omega arith)
read_loop-ReadsExactly (suc fuel) zero s lt open' = (refl, refl, open')
read_loop-ReadsExactly (suc fuel) (suc n) [] lt open' = ground arith
read_loop-ReadsExactly (suc fuel) (suc n) (c ∷ cs) lt open' =
    let h = read_some (suc n) c cs (omega arith) open' in
    let chunk = (read (suc n) (c ∷ cs)).0 in
    let s' = (read (suc n) (c ∷ cs)).1 in
    if_cases (ReadsExactly (suc n) (c ∷ cs)) (suc n == 0) _ _ (λ e. absurd (ground (arith, e)))
      (λ _.
        if_cases (ReadsExactly (suc n) (c ∷ cs)) (is_empty chunk) _ _
          (λ e. absurd (ground (arith, e, h.0)))
          (λ _.
            joined-ReadsExactly (suc n) (c ∷ cs) s' chunk (read_loop fuel (suc n - length chunk) s')
              h.1 h.2
              (read_loop-ReadsExactly fuel (suc n - length chunk) s'
                (omega (arith, length_positive chunk h.0)) h.3)))

-- An exact read of a stream gives as many bytes as asked for, in their order, and leaves the rest,
-- however they are cut into chunks; only where there are too few bytes it gives none. It always ends.
pub read_exact-ReadsExactly : (n : ℕ) (s : Stream) → IsOpen s → ReadsExactly n s (read_exact n s)
unfolding read_exact
read_exact-ReadsExactly n s open' = read_loop-ReadsExactly (suc n) n s (omega arith) open'
