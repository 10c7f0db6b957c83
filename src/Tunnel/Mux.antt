-- ===== src/Tunnel/Mux.antt =====
-- pkg/tunnel/mux.go: the packets of one UDP socket, spread over three channels by their first byte.
-- A channel is the list of what it holds; a packet that finds it full is dropped.
use servers.Base.{
  ℕ, ◌≤◌, ◌≡◌, refl, ap, ◌∙◌, List, [], ◌∷◌, ◌++◌, Option, none, some, Text, length, take, ltb,
  ◌==◌, if◌then◌else◌, arith, Bool-cases, inl, inr, length-append, take-long, take-length_append,
  append-nil, append_assoc, sym,
}

-- `A` is the type of source addresses.
module _ (A : Type 0) where
  pub record Packet : Type 0 where
    pub data_of : Text
    pub addr : A

  pub record Channels : Type 0 where
    pub signal : List Packet
    pub punch : List Packet
    pub quic : List Packet

  -- A send that does not wait.
  unfoldable pub offer : ℕ → Packet → List Packet → List Packet
  offer size p queue = if ltb (length queue) size then queue ++ (p ∷ []) else queue

  abbrev behind : Text → A → Packet
  behind rest addr = record { data_of = rest; addr = addr }

  -- The packet `p` by its bytes.
  unfoldable pub dispatch_data : Text → Packet → Channels → Channels
  unfolding offer
  dispatch_data [] p m = record m { quic = offer 512 p m.quic }
  dispatch_data (c ∷ rest) p m =
      if c == 0
      then record m { signal = offer 64 (behind rest p.addr) m.signal }
      else if c == 1
      then record m { punch = offer 64 (behind rest p.addr) m.punch }
      else record m { quic = offer 512 p m.quic }

  unfoldable pub dispatch_all : Channels → List Packet → Channels
  unfolding dispatch_data
  dispatch_all m [] = m
  dispatch_all m (p ∷ ps) = dispatch_all (dispatch_data p.data_of p m) ps

  -- `ReadFrom`: the packet that the QUIC side gets, if one is there.
  unfoldable pub read_quic : Channels → Channels × Option Packet
  read_quic m = elim m.quic [ [] ↦ (m, none) | p ∷ ps ↦ (record m { quic = ps }, some p) ]

  -- The packets for each channel, among those that arrive.
  abbrev pub for_signal : Text → Packet → List Packet
  for_signal [] p = []
  for_signal (c ∷ rest) p = if c == 0 then behind rest p.addr ∷ [] else []

  abbrev pub for_punch : Text → Packet → List Packet
  for_punch [] p = []
  for_punch (c ∷ rest) p = if c == 0 then [] else if c == 1 then behind rest p.addr ∷ [] else []

  abbrev pub for_quic : Text → Packet → List Packet
  for_quic [] p = p ∷ []
  for_quic (c ∷ rest) p = if c == 0 then [] else if c == 1 then [] else p ∷ []

  abbrev pub all_for : (Text → Packet → List Packet) → List Packet → List Packet
  all_for pick [] = []
  all_for pick (p ∷ ps) = pick p.data_of p ++ all_for pick ps

  offers : ℕ → List Packet → List Packet → List Packet
  offers size queue [] = queue
  offers size queue (p ∷ ps) = offers size (offer size p queue) ps

  length-offer :
      (size : ℕ) (p : Packet) (queue : List Packet)
      → length queue ≤ size
      → length (offer size p queue) ≤ size
  unfolding offer
  length-offer size p queue h = ground (arith, length-append queue (p ∷ []))

  take-full :
      (size : ℕ) (queue ps : List Packet) → length queue ≡ size → take size (queue ++ ps) ≡ queue
  take-full size queue ps h = ap (λ n. take n (queue ++ ps)) (sym h) ∙ take-length_append queue ps

  offers-take :
      (size : ℕ) (queue ps : List Packet)
      → length queue ≤ size
      → offers size queue ps ≡ take size (queue ++ ps)
  unfolding offers offer
  offers-take size queue [] h = sym (ap (take size) (append-nil queue) ∙ take-long size queue h)
  offers-take size queue (p ∷ ps) h = elim (Bool-cases (ltb (length queue) size)) [
    | inl room ↦
        rw (room, offers)
          (offers-take size (queue ++ (p ∷ [])) ps (ground (arith, length-append queue (p ∷ [])))
            ∙ ap (take size) (append_assoc queue (p ∷ []) ps))
    | inr full ↦
        rw (full, offers)
          (offers-take size queue ps h
            ∙ take-full size queue ps (ground arith)
            ∙ sym (take-full size queue (p ∷ ps) (ground arith)))
  ]

  offers-append :
      (size : ℕ) (queue xs ys : List Packet)
      → offers size queue (xs ++ ys) ≡ offers size (offers size queue xs) ys
  unfolding offers
  offers-append size queue [] ys = refl
  offers-append size queue (x ∷ xs) ys = offers-append size (offer size x queue) xs ys

  abbrev spread : Text → Packet → Channels → Channels
  spread d p m = record {
    signal = offers 64 m.signal (for_signal d p);
    punch = offers 64 m.punch (for_punch d p);
    quic = offers 512 m.quic (for_quic d p);
  }

  dispatch_data_lem : (d : Text) (p : Packet) (m : Channels) → dispatch_data d p m ≡ spread d p m
  unfolding dispatch_data offers
  dispatch_data_lem [] p m = refl
  dispatch_data_lem (c ∷ rest) p m = elim (Bool-cases (c == 0)) [
    | inl e ↦ rw e refl
    | inr e ↦ elim (Bool-cases (c == 1)) [ inl o ↦ rw e (rw o refl) | inr o ↦ rw e (rw o refl) ]
  ]

  dispatch_all-offers :
      (m : Channels) (ps : List Packet)
      → dispatch_all m ps ≡ record {
        signal = offers 64 m.signal (all_for for_signal ps);
        punch = offers 64 m.punch (all_for for_punch ps);
        quic = offers 512 m.quic (all_for for_quic ps);
      }
  unfolding dispatch_all offers
  dispatch_all-offers m [] = refl
  dispatch_all-offers m (p ∷ ps) =
      rw (dispatch_data_lem p.data_of p m, dispatch_all)
        (dispatch_all-offers (spread p.data_of p m) ps
          ∙ rw (offers-append 64 m.signal (for_signal p.data_of p) (all_for for_signal ps)) (
              rw (offers-append 64 m.punch (for_punch p.data_of p) (all_for for_punch ps))
                (rw (offers-append 512 m.quic (for_quic p.data_of p) (all_for for_quic ps)) refl)))

  -- Until something is read from them, the channels hold, each in the order of arrival, what they held
  -- and then the packets whose first byte is theirs, without that byte for the first two; what finds its
  -- channel full is dropped, and takes no room from the others.
  pub dispatch_all_lem :
      (m : Channels) (ps : List Packet)
      → length m.signal ≤ 64
      → length m.punch ≤ 64
      → length m.quic ≤ 512
      → dispatch_all m ps ≡ record {
        signal = take 64 (m.signal ++ all_for for_signal ps);
        punch = take 64 (m.punch ++ all_for for_punch ps);
        quic = take 512 (m.quic ++ all_for for_quic ps);
      }
  dispatch_all_lem m ps a b c =
      dispatch_all-offers m ps
      ∙ rw (offers-take 64 m.signal (all_for for_signal ps) a) (
          rw (offers-take 64 m.punch (all_for for_punch ps) b)
            (rw (offers-take 512 m.quic (all_for for_quic ps) c) refl))
