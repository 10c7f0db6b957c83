-- ===== src/Tunnel/Client/Stream.antt =====
-- pkg/tunnel/isannd_client.go and pkg/signal/proto.go: the bytes of a connection, and what is read of
-- frames in a row and of a frame that breaks off.
use servers.Base.{
  take, be32, length, zero, suc, ◌≤◌, ◌<◌, append-nil, ℕ, ◌≡◌, refl, sym, ap, ◌∙◌, subst, inl, inr,
  List, [], ◌∷◌, ◌++◌, append_assoc, Text, All, ◌==◌, Result, ok, err, Option-cases, if◌then◌else◌,
  arith, read_be32-be32,
}
use servers.Tunnel.Message.{RendezvousMsg}
use servers.Signal.Proto.{
  Codec, FrameError, short_read, Decodes, write_frame, read_body, read_frame, max_frame_size,
  read_frame-write_frame,
}
use servers.Tunnel.Client.{Network, encode_frame}
use servers.Tunnel.Client.Delivery.{Fits}

-- The bytes that the sockets took of a connection, in order.
unfoldable pub sent_on : ℕ → List (ℕ × Text) → Text
sent_on k [] = []
sent_on k ((j, bytes) ∷ sent) = (if j == k then bytes else []) ++ sent_on k sent

-- Frame by frame, the messages are read from the stream, which then ends, if not at the end of the
-- last of them then within a frame.
abbrev pub Reads : Codec → Text → List RendezvousMsg → Type 0
Reads k stream [] = read_frame k stream ≡ err short_read
Reads k stream (msg ∷ ms) = (rest : Text) × (read_frame k stream ≡ ok (msg, rest)) × Reads k rest ms

abbrev pub framed : Text → Text
framed json = be32 (length json) ++ json

abbrev pub bytes_of : Result FrameError Text → Text
bytes_of r = elim r [ ok json ↦ framed json | err _ ↦ [] ]

unfoldable pub stream_of : Codec → List RendezvousMsg → Text
stream_of k [] = []
stream_of k (msg ∷ ms) = bytes_of (encode_frame k msg) ++ stream_of k ms

pub write_frame-encode_frame :
    (k : Codec) (msg : RendezvousMsg) (json : Text)
    → encode_frame k msg ≡ ok json
    → (write_frame k msg ≡ ok (framed json)) × (length json ≤ max_frame_size)
unfolding encode_frame write_frame
write_frame-encode_frame k msg json h = elim (Option-cases (k.marshal msg)) [
  | inl e ↦ absurd (ground arith)
  | inr (body, e) ↦ (ground arith, ground arith)
]

-- A length that is cut short, and a body.
pub read_frame-head :
    (k : Codec) (n m : ℕ) → m < length (be32 n) → read_frame k (take m (be32 n)) ≡ err short_read
unfolding read_frame be32
read_frame-head k n zero h = refl
read_frame-head k n (suc zero) h = refl
read_frame-head k n (suc (suc zero)) h = refl
read_frame-head k n (suc (suc (suc zero))) h = refl
read_frame-head k n (suc (suc (suc (suc m)))) h = absurd (omega arith)

length-take : (m : ℕ) (s : Text) → length (take m s) ≤ m
length-take zero s = omega arith
length-take (suc m) [] = omega arith
length-take (suc m) (x ∷ s) = omega (arith, length-take m s)

pub read_frame-body :
    (k : Codec) (json : Text) (m : ℕ)
    → m < length json
    → length json ≤ max_frame_size
    → read_frame k (be32 (length json) ++ take m json) ≡ err short_read
unfolding read_frame be32 read_body
read_frame-body k json m h small =
    ap (λ n. read_body k n (take m json)) (read_be32-be32 (length json) (omega arith))
    ∙ ground (arith, length-take m json)

pub stream_of-append :
    (k : Codec) (msg : RendezvousMsg) (ms : List RendezvousMsg)
    → stream_of k (ms ++ (msg ∷ [])) ≡ stream_of k ms ++ bytes_of (encode_frame k msg)
unfolding stream_of
stream_of-append k msg [] = append-nil (bytes_of (encode_frame k msg))
stream_of-append k msg (m ∷ ms) =
    ap (λ s. bytes_of (encode_frame k m) ++ s) (stream_of-append k msg ms)
    ∙ sym (
        append_assoc (bytes_of (encode_frame k m)) (stream_of k ms) (bytes_of (encode_frame k msg)))

pub sent_on-append :
    (k j : ℕ) (bytes : Text) (sent : List (ℕ × Text))
    → sent_on k (sent ++ ((j, bytes) ∷ [])) ≡ sent_on k sent ++ (if j == k then bytes else [])
unfolding sent_on
sent_on-append k j bytes [] = append-nil (if j == k then bytes else [])
sent_on-append k j bytes ((i, b) ∷ sent) =
    ap (λ s. (if i == k then b else []) ++ s) (sent_on-append k j bytes sent)
    ∙ sym (append_assoc (if i == k then b else []) (sent_on k sent) (if j == k then bytes else []))

pub nothing_read : (k : Codec) → read_frame k [] ≡ err short_read
unfolding read_frame
nothing_read k = refl

pub stream_of-Reads :
    (net : Network) (ms : List RendezvousMsg) (tail : Text)
    → All (Fits net) ms
    → All (Decodes net.codec) ms
    → read_frame net.codec tail ≡ err short_read
    → Reads net.codec (stream_of net.codec ms ++ tail) ms
unfolding stream_of
stream_of-Reads net [] tail f d short = short
stream_of-Reads net (msg ∷ ms) tail ((json, f), fs) (d, ds) short =
    let rest = stream_of net.codec ms ++ tail in
    let first : stream_of net.codec (msg ∷ ms) ++ tail ≡ framed json ++ rest =
      append_assoc (bytes_of (encode_frame net.codec msg)) (stream_of net.codec ms) tail
      ∙ ap (λ r. bytes_of r ++ rest) f in
    (
      rest,
      subst (λ s. read_frame net.codec s ≡ ok (msg, rest)) (sym first)
          (read_frame-write_frame net.codec msg (framed json) rest d
            (write_frame-encode_frame net.codec msg json f).0),
      stream_of-Reads net ms tail fs ds short,
    )
