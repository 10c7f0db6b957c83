-- ===== src/Signal/Proto.antt =====
-- pkg/signal/proto.go: a frame is the length of a JSON text in 32 bits, and the text. The codec is
-- encoding/json, a parameter; a stream is the bytes that are still to come.
use servers.Base.{
  ℕ, ◌≤◌, ◌<◌, ◌≡◌, ap, ◌∙◌, subst, ◌∷◌, ◌++◌, Option, none, some, Text, length, take, drop, ltb,
  ◌==◌, if◌then◌else◌, be32, read_be32, read_be32-be32, take-length_append, drop-length_append,
  length-append, arith, Result, ok, err, Option-cases, inl, inr,
}
use servers.Tunnel.Message.{RendezvousMsg}

pub record Codec : Type 0 where
  pub marshal : RendezvousMsg → Option Text
  pub unmarshal : Text → Option RendezvousMsg

pub data FrameError : Type 0 where
  no_json frame_too_large short_read zero_length : FrameError

abbrev pub max_frame_size : ℕ
max_frame_size = 0x100000

-- The bytes that are written; a failing writer is not modelled.
unfoldable pub write_frame : Codec → RendezvousMsg → Result FrameError Text
write_frame k msg = elim (k.marshal msg) [
  | none ↦ err no_json
  | some json ↦
      if ltb max_frame_size (length json)
      then err frame_too_large
      else ok (be32 (length json) ++ json)
]

-- Behind the length: `io.ReadFull` of that many bytes.
unfoldable pub read_body : Codec → ℕ → Text → Result FrameError (RendezvousMsg × Text)
read_body k n stream =
    if n == 0
    then err zero_length
    else if ltb max_frame_size n
    then err frame_too_large
    else if ltb (length stream) n
    then err short_read
    else elim (k.unmarshal (take n stream)) [
      | none ↦ err no_json
      | some msg ↦ ok (msg, drop n stream)
    ]

unfoldable pub read_frame : Codec → Text → Result FrameError (RendezvousMsg × Text)
unfolding read_body
read_frame k (a ∷ b ∷ c ∷ d ∷ stream) = read_body k (read_be32 a b c d) stream
read_frame k _ = err short_read

-- What encoding/json documents of a struct of texts, numbers and lists: its text is not empty, and
-- reads back as the value.
pub record Decodes (k : Codec) (msg : RendezvousMsg) : Type 0 where
  pub filled : (json : Text) → k.marshal msg ≡ some json → 0 < length json
  pub decoded : (json : Text) → k.marshal msg ≡ some json → k.unmarshal json ≡ some msg

read_body-append :
    (k : Codec) (json rest : Text) (msg : RendezvousMsg)
    → 0 < length json
    → length json ≤ max_frame_size
    → k.unmarshal json ≡ some msg
    → read_body k (length json) (json ++ rest) ≡ ok (msg, rest)
unfolding read_body
read_body-append k json rest msg n m u =
    ground (
      arith,
      length-append json rest,
      take-length_append json rest,
      drop-length_append json rest,
      u,
    )

-- A frame that is written is read back as the message that it was made of, and the reader is left
-- with what follows it in the stream, if the codec decodes what it encodes of the message.
pub read_frame-write_frame :
    (k : Codec) (msg : RendezvousMsg) (bytes rest : Text)
    → Decodes k msg
    → write_frame k msg ≡ ok bytes
    → read_frame k (bytes ++ rest) ≡ ok (msg, rest)
unfolding write_frame read_frame be32
read_frame-write_frame k msg bytes rest d h = elim (Option-cases (k.marshal msg)) [
  | inl e ↦ absurd (ground arith)
  | inr (json, e) ↦
      let small : length json ≤ max_frame_size = ground arith in
      let sent : be32 (length json) ++ json ≡ bytes = ground arith in
      subst (λ b. read_frame k (b ++ rest) ≡ ok (msg, rest)) sent
        (ap (λ n. read_body k n (json ++ rest)) (read_be32-be32 (length json) (omega arith))
          ∙ read_body-append k json rest msg (d.filled json e) small (d.decoded json e))
]

-- A body that is read has the length that was stated, which is neither 0 nor more than 1 MiB; the
-- message is what those bytes decode to, and the bytes after them are left.
read_body_bounds :
    (k : Codec) (n : ℕ) (stream : Text) (msg : RendezvousMsg) (rest : Text)
    → read_body k n stream ≡ ok (msg, rest)
    → (0 < n)
      × (n ≤ max_frame_size)
      × (n ≤ length stream)
      × (k.unmarshal (take n stream) ≡ some msg)
      × (rest ≡ drop n stream)
unfolding read_body
read_body_bounds k n stream msg rest h = elim (Option-cases (k.unmarshal (take n stream))) [
  | inl e ↦ absurd (ground arith)
  | inr (m, e) ↦ (ground arith, ground arith, ground arith, ground arith, ground arith)
]
