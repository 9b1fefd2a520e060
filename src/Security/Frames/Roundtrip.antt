-- ===== src/Security/Frames/Roundtrip.antt =====
-- A frame that one side writes is the value that the other side reads.
use buffdata.Prelude.{
  [], refl, ℕ, ◌<◌, length, Option, ◌^◌, ◌≡◌, ◌++◌, some, arith, ap, length-append, ◌≤◌, ◌∙◌,
  append_assoc, sym, none, refl, ◌∷◌, ltb, false,
}
use buffdata.Security.Frames.{
  Codec, Stream, Bytes, unpack, pack, write_frame, read_exact, read_frame, max_frame_bytes,
}
use buffdata.Security.Frames.Exact.{IsOpen, bytes_of, ReadsExactly, read_exact-ReadsExactly}
use buffdata.Prelude.Json.{Json}
use buffdata.Prelude.Exec.{ok}

unpack-pack : (n : ℕ) → n < 2 ^ 32 → unpack (pack n) ≡ n
unpack-pack n h = omega arith

same_front : (a b x y : Bytes) → length a ≡ length b → a ++ x ≡ b ++ y → (a ≡ b) × (x ≡ y)
same_front [] [] x y l e = (refl, e)
same_front [] (c ∷ b) x y l e = absurd (omega arith)
same_front (c ∷ a) [] x y l e = absurd (omega arith)
same_front (c ∷ a) (d ∷ b) x y l e =
    let rest = same_front a b x y (omega arith) (cc) in (cc (rest.0), rest.1)

-- A stream that starts with the wanted bytes gives these, and leaves what follows.
exact_front :
    (n : ℕ) (s : Stream) (front rest : Bytes) (r : Option Bytes × Stream)
    → length front ≡ n
    → bytes_of s ≡ front ++ rest
    → ReadsExactly n s r
    → (r.0 ≡ some front) × (bytes_of r.1 ≡ rest) × IsOpen r.1
exact_front n s front rest (none, s') l e h =
    absurd (omega (arith, ap length e, length-append front rest, h))
exact_front n s front rest (some b, s') l e h =
    let same = same_front b front (bytes_of s') rest (h.0 ∙ sym l) (h.1 ∙ e) in
    (ap some same.0, same.1, h.2)

read_front :
    (n : ℕ) (s : Stream) (front rest : Bytes)
    → IsOpen s
    → length front ≡ n
    → bytes_of s ≡ front ++ rest
    → (s' : Stream) × (read_exact n s ≡ (some front, s')) × (bytes_of s' ≡ rest) × IsOpen s'
read_front n s front rest open' l e =
    let h = exact_front n s front rest (read_exact n s) l e (read_exact-ReadsExactly n s open') in
    ((read_exact n s).1, cc (h.0), h.1, h.2)

module _ (codec : Codec) (value : Json) (frame : Bytes) (rest : Bytes) (s : Stream)
    (loads_dumps : codec.loads (codec.dumps value) ≡ some value)
    (written : write_frame codec value ≡ ok frame) (open' : IsOpen s)
    (arrives : bytes_of s ≡ frame ++ rest) where
  fits :
      (length (codec.dumps value) ≤ max_frame_bytes)
      × (frame ≡ pack (length (codec.dumps value)) ++ codec.dumps value)
  unfolding write_frame
  fits = ground arith

  -- A written frame that arrives, in any chunks, with more bytes after it, is read as the value it was
  -- written from, and what comes after it is left for the next read. `json` must read what it writes.
  pub read_frame-write_frame :
      (s' : Stream) × (read_frame codec s ≡ (ok value, s')) × (bytes_of s' ≡ rest) × IsOpen s'
  unfolding read_frame
  read_frame-write_frame =
      let body = codec.dumps value in
      let n = length body in
      let small : ltb max_frame_bytes n ≡ false = ground (arith, fits.0) in
      let size = unpack-pack n (omega (arith, fits.0)) in
      let (s1, r1, b1, o1) =
        read_front 4 s (pack n) (body ++ rest) open' refl
          (arrives ∙ ap (λ f. f ++ rest) fits.1 ∙ append_assoc (pack n) body rest) in
      let (s2, r2, b2, o2) = read_front n s1 body rest o1 refl b1 in
      (s2, rw (r1, size, r2, small, loads_dumps), b2, o2)
