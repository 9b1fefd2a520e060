-- ===== src/Security/Frames.antt =====
-- buffdata/security/sandbox_protocol.py: length-prefixed frames between the sandbox's parent and its
-- child. A stream is the list of the chunks that will arrive; a read gives bytes of the first chunk
-- only, as a pipe does. An empty chunk is the end of the stream.
pub mod Exact
pub mod Roundtrip
pub mod Examples
use buffdata.Prelude.{
  ℕ, String, Option, ◌/◌, List, ◌*◌, ◌∷◌, some, suc, ◌+◌, ◌^◌, none, ◌%◌, take, if◌then◌else◌, ◌-◌,
  ◌++◌, ltb, leb, [], length, drop, ◌==◌, is_empty, zero, nat_eq,
}
use buffdata.Prelude.Json.{Json, obj}
use buffdata.Prelude.Exec.{Result, err, ok}

abbrev pub Bytes : Type 0
Bytes = List ℕ

abbrev pub Stream : Type 0
Stream = List Bytes

-- MAX_FRAME_BYTES
abbrev pub max_frame_bytes : ℕ
max_frame_bytes = 64 * 1024 ^ 2

pub data FrameError : Type 0 where
  frame_too_large closed_before_header closed_mid_frame not_json : FrameError

-- `json.dumps(obj).encode()` and `json.loads(body.decode())`, which raises on what is no JSON.
pub record Codec : Type 0 where
  pub dumps : Json → Bytes
  pub loads : Bytes → Option Json

-- `_LENGTH.pack` and `_LENGTH.unpack`, of ">I": four bytes, the highest first.
abbrev pub pack : ℕ → Bytes
pack n = (n / 16777216 % 256) ∷ (n / 65536 % 256) ∷ (n / 256 % 256) ∷ (n % 256) ∷ []

abbrev pub unpack : Bytes → ℕ
unpack (a ∷ b ∷ c ∷ d ∷ []) = a * 16777216 + b * 65536 + c * 256 + d
unpack _ = 0

-- `write_frame`: what is written to the stream.
unfoldable pub write_frame : Codec → Json → Result FrameError Bytes
write_frame codec value =
    let body = codec.dumps value in
    if ltb max_frame_bytes (length body)
    then err frame_too_large
    else ok (pack (length body) ++ body)

-- `stream.read(count)`
abbrev pub read : ℕ → Stream → Bytes × Stream
read n [] = ([], [])
read n (c ∷ cs) = (take n c, if leb (length c) n then cs else drop n c ∷ cs)

abbrev pub joined : Bytes → Option Bytes × Stream → Option Bytes × Stream
joined chunk (none, s) = (none, s)
joined chunk (some rest, s) = (some (chunk ++ rest), s)

-- The loop of `_read_exact`, on fuel: each turn reads one byte at least, or ends.
pub read_loop : ℕ → ℕ → Stream → Option Bytes × Stream
read_loop zero remaining s = (none, s)
read_loop (suc fuel) remaining s =
    let (chunk, s') = read remaining s in
    let rest = read_loop fuel (remaining - length chunk) s' in
    if remaining == 0
    then (some [], s)
    else if is_empty chunk
    then (none, s')
    else joined chunk rest

unfoldable pub read_exact : ℕ → Stream → Option Bytes × Stream
unfolding read_loop
read_exact count s = read_loop (suc count) count s

abbrev pub decoded : Option Json → Result FrameError Json
decoded none = err not_json
decoded (some value) = ok value

abbrev pub body_read : Codec → Option Bytes × Stream → Result FrameError Json × Stream
body_read codec (none, s) = (err closed_mid_frame, s)
body_read codec (some body, s) = (decoded (codec.loads body), s)

abbrev pub header_read : Codec → Option Bytes × Stream → Result FrameError Json × Stream
header_read codec (none, s) = (err closed_before_header, s)
header_read codec (some header, s) =
    if ltb max_frame_bytes (unpack header)
    then (err frame_too_large, s)
    else body_read codec (read_exact (unpack header) s)

-- `read_frame`
unfoldable pub read_frame : Codec → Stream → Result FrameError Json × Stream
read_frame codec s = header_read codec (read_exact 4 s)
