-- ===== src/Security/Frames/Examples.antt =====
-- Tests of frames that arrive in pieces.
use buffdata.Prelude.{◌≡◌, ◌∷◌, [], if◌then◌else◌, refl, length, ◌==◌, some, none, nat_eq}
use buffdata.Security.Frames.Exact.{ReadsExactly, read_exact-ReadsExactly, bytes_of, IsOpen}
use buffdata.Security.Frames.{Stream, read_frame, Codec, write_frame, read_exact, closed_mid_frame}
use buffdata.Prelude.Json.{Json}
use buffdata.Prelude.Exec.{ok, err}
use buffdata.Security.Frames.Roundtrip.{read_frame-write_frame}

-- A codec that knows two values.
abbrev codec : Codec
codec = record {
  dumps = λ v. elim v [ Json.null ↦ 110 ∷ 117 ∷ 108 ∷ 108 ∷ [] | _ ↦ 63 ∷ [] ];
  loads = λ b. if length b == 4 then some Json.null else none;
}

abbrev pieces : Stream
pieces = (0 ∷ 0 ∷ []) ∷ (0 ∷ 4 ∷ 110 ∷ []) ∷ (117 ∷ 108 ∷ 108 ∷ 7 ∷ []) ∷ []

cut_short : (read_frame codec ((0 ∷ 0 ∷ 0 ∷ 4 ∷ []) ∷ (110 ∷ []) ∷ [])).0 ≡ err closed_mid_frame
unfolding read_frame read_exact
cut_short = refl

read_exact-ReadsExactly_example : ReadsExactly 4 pieces (read_exact 4 pieces)
read_exact-ReadsExactly_example = read_exact-ReadsExactly 4 pieces (refl, (refl, (refl, tt)))

read_frame-write_frame_example :
    (s' : Stream) × (read_frame codec pieces ≡ (ok Json.null, s'))
    × (bytes_of s' ≡ 7 ∷ [])
    × IsOpen s'
unfolding write_frame
read_frame-write_frame_example =
    read_frame-write_frame codec Json.null (0 ∷ 0 ∷ 0 ∷ 4 ∷ 110 ∷ 117 ∷ 108 ∷ 108 ∷ []) (7 ∷ [])
      pieces refl refl (refl, (refl, (refl, tt))) refl
