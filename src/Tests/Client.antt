-- ===== src/Tests/Client.antt =====
-- Runs of a node's client over a network that is up, or that takes nothing at times.
use servers.Base.{
  All, ◌<◌, ap, sym, subst, length, arith, ℕ, ◌≡◌, refl, Bool, true, false, List, [], ◌∷◌, ◌++◌,
  Option, none, some, Text, codes, any, ok, err, ◌==◌, if◌then◌else◌, not, is_empty, eqt, be32,
}
use servers.Tunnel.Message.{RendezvousMsg}
use servers.Signal.Proto.{Codec, Decodes, short_read, read_frame, read_body}
use servers.Tunnel.Client.{
  Network, IsanndClient, HeartbeatPing, Action, new_client, bare_msg, encode_frame, write_bytes,
  write_on, dial_and_hello, mark_conn_dead, ensure_conn, claim, send_on, write_msg, connect,
  ping_frame, send_heartbeat, send_frame, close, receive, act, act_all, connected, beat, framed,
  received, dropped,
}
use servers.Tunnel.Client.Identity.{frames, IsFaithful}
use servers.Tunnel.Client.Received.{act_all-Reads}
use servers.Tunnel.Client.Stream.{Reads, sent_on}
use servers.Tunnel.Client.Faithful.{act_all-IsFaithful}
use servers.Tunnel.Client.Wanted.{is_need, send_heartbeat_reports}
use servers.Tunnel.Client.Delivery.{IsUp, channel, preamble, write_msg_delivers}

abbrev kinds : Codec
kinds = record {
  marshal = λ msg. some msg.kind;
  unmarshal = λ json. some (bare_msg json (codes "P:1") (codes "provider"));
}

abbrev up : Network
up = record { answers = λ n. true; takes = λ n bytes. length bytes; codec = kinds }

-- Of the ping, which is the fifth attempt, one byte goes out.
abbrev shaky : Network
shaky = record {
  answers = λ n. true;
  takes = λ n bytes. if n == 4 then 1 else length bytes;
  codec = kinds;
}

abbrev ping : HeartbeatPing
ping = record { node_id = codes "P:1"; role = codes "provider"; timestamp_ms = 7; signature = [] }

abbrev asks : Action
asks = received (bare_msg (codes "need_register") [] [])

abbrev some_actions : List Action
some_actions =
    connected (codes "P:1") (codes "provider")
    ∷ asks
    ∷ beat (some ping)
    ∷ framed (some (bare_msg (codes "register") (codes "P:2") (codes "provider")))
    ∷ framed (some (bare_msg (codes "register") (codes "P:1") (codes "provider")))
    ∷ []

act_all-IsFaithful_example :
    IsFaithful
      (act_all shaky new_client some_actions).hello_id
      (frames 5 (act_all shaky new_client some_actions).wire)
act_all-IsFaithful_example = act_all-IsFaithful shaky some_actions 5

-- The ping is lost with its connection, the frame of another node is refused, and the last frame goes
-- out behind a second hello.
second_connection :
    frames 5 (act_all shaky new_client some_actions).wire
    ≡ bare_msg (codes "hello") (codes "P:1") (codes "provider")
      ∷ bare_msg (codes "register") (codes "P:1") (codes "provider")
      ∷ []
unfolding act_all frames act send_frame is_empty bare_msg write_msg claim send_heartbeat receive eqt
    connect dial_and_hello write_on encode_frame write_bytes ping_frame send_on ensure_conn be32
    close mark_conn_dead
second_connection = refl

abbrev joined : IsanndClient
joined = act up new_client (connected (codes "P:1") (codes "provider"))

abbrev quiet_actions : List Action
quiet_actions = asks ∷ dropped 0 ∷ []

send_heartbeat_reports_example :
    (any is_need quiet_actions ≡ any is_need quiet_actions)
    × ((send_heartbeat up (some ping) (act_all up joined quiet_actions)).0.need_register ≡ false)
unfolding act_all act send_frame is_empty bare_msg write_msg claim send_heartbeat receive eqt
    connect dial_and_hello write_on encode_frame write_bytes ping_frame send_on ensure_conn be32
    close mark_conn_dead
send_heartbeat_reports_example =
    send_heartbeat_reports up joined
      (send_heartbeat up (some ping) (act_all up joined quiet_actions)).0 quiet_actions (some ping)
      true refl tt refl

network-IsUp : IsUp up
network-IsUp = record { answered = λ n. refl; taken = λ n bytes. omega arith }

abbrev ready : RendezvousMsg
ready = bare_msg (codes "service_event") (codes "P:1") (codes "provider")

-- A client that was closed dials again for the next frame.
write_msg_delivers_example :
    ((write_msg up ready (close joined)).1 ≡ ok tt)
    × ((write_msg up ready (close joined)).0.conn ≡ some (channel (close joined)))
    × ((write_msg up ready (close joined)).0.wire
        ≡ (close joined).wire
          ++ (preamble (close joined) ++ ((channel (close joined), ready) ∷ [])))
unfolding close encode_frame write_bytes bare_msg servers.Base.is_empty act connect dial_and_hello
    write_on be32
write_msg_delivers_example =
    write_msg_delivers up ready (close joined) network-IsUp (_, refl) (_, refl) refl refl

reopened :
    ((write_msg up ready (close joined)).0.closed ≡ true)
    × ((write_msg up ready (close joined)).0.conn ≡ some 3)
unfolding close write_msg claim servers.Base.is_empty act connect dial_and_hello write_on
    encode_frame write_bytes bare_msg servers.Base.eqt send_on ensure_conn be32
reopened = (refl, refl)

kinds-Decodes :
    (kind : Text) → 0 < length kind → Decodes kinds (bare_msg kind (codes "P:1") (codes "provider"))
unfolding bare_msg
kinds-Decodes kind filled = record {
  filled = λ json h. subst (λ s. 0 < length s) (some-inj json h) filled;
  decoded = λ json h.
      ap (λ s. some (bare_msg s (codes "P:1") (codes "provider"))) (sym (some-inj json h));
}
  where
    some-inj : (json : Text) → some kind ≡ some json → kind ≡ json
    some-inj json h = ground arith

act_all-Reads_example :
    Reads kinds
      (sent_on 5 (act_all shaky new_client some_actions).sent)
      (frames 5 (act_all shaky new_client some_actions).wire)
act_all-Reads_example = act_all-Reads shaky some_actions 5 (
    subst (All (Decodes kinds)) (sym second_connection) (
      kinds-Decodes (codes "hello") (omega arith),
      (kinds-Decodes (codes "register") (omega arith), tt),
    ))

-- The first connection ends within the ping.
cut_off :
    (read_frame kinds (sent_on 0 (act_all shaky new_client some_actions).sent)
      ≡ ok (bare_msg (codes "hello") (codes "P:1") (codes "provider"), be32 4 ++ codes "p"))
    × (read_frame kinds (be32 4 ++ codes "p") ≡ err short_read)
unfolding act_all sent_on act send_frame is_empty bare_msg write_msg claim send_heartbeat receive
    eqt connect dial_and_hello write_on encode_frame write_bytes ping_frame send_on ensure_conn be32
    close mark_conn_dead read_frame read_body servers.Base.read_be32
cut_off = (refl, refl)
