-- ===== src/Tunnel/Client/Faithful.antt =====
-- pkg/tunnel/isannd_client.go: every operation of a client, and every event of its reader, keeps it
-- loyal to one node.
use servers.Base.{
  ◌&&◌, Bool, ℕ, ◌≡◌, ◌⊎◌, refl, sym, subst, inl, inr, true, false, not, List, [], none, Text, eqt,
  eqt_iff, is_empty, Bool-cases, Option-cases, arith,
}
use servers.Tunnel.Client.{
  Network, IsanndClient, Action, new_client, dial_and_hello, connect, close, act_all,
}
use servers.Tunnel.Client.Identity.{frames, IsFaithful, IsLoyal}
use servers.Tunnel.Client.Rule.{act_all-rule}
use servers.Tunnel.Client.Sending.{
  idle-IsLoyal, named_as, named_as-IsLoyal, write_msg-IsLoyal, dial_and_hello-IsLoyal,
  mark_conn_dead-IsLoyal, is_empty→nil,
}

pub connect-cases :
    (net : Network) (id role : Text) (c : IsanndClient)
    → ((connect net id role c).0 ≡ c)
      ⊎ (((c.hello_id ≡ []) ⊎ (c.hello_id ≡ id))
          × (((connect net id role c).0 ≡ named_as c id role)
              ⊎ ((connect net id role c).0 ≡ (dial_and_hello net (named_as c id role)).0)))
unfolding connect
connect-cases net id role c = elim (Bool-cases c.closed) [
  | inl z ↦ inl (ground arith)
  | inr z ↦ elim (Bool-cases (not (is_empty c.hello_id) && not (eqt c.hello_id id))) [
    | inl b ↦ inl (ground arith)
    | inr b ↦ inr (
      free_or_same b,
      elim (Option-cases c.conn) [ inl h ↦ inr (ground arith) | inr (k, h) ↦ inl (ground arith) ],
    )
  ]
]
  where
    free_or_same :
        (not (is_empty c.hello_id) && not (eqt c.hello_id id)) ≡ false
        → (c.hello_id ≡ []) ⊎ (c.hello_id ≡ id)
    free_or_same b = elim (Bool-cases (is_empty c.hello_id)) [
      | inl e ↦ inl (is_empty→nil c.hello_id e)
      | inr e ↦ inr (ground (arith, eqt_iff c.hello_id id))
    ]

connect-IsLoyal :
    (net : Network) (id role : Text) (c : IsanndClient)
    → IsLoyal c
    → IsLoyal (connect net id role c).0
connect-IsLoyal net id role c i = elim (connect-cases net id role c) [
  | inl same ↦ subst IsLoyal (sym same) i
  | inr (own, inl h) ↦ subst IsLoyal (sym h) (named_as-IsLoyal c id role own i)
  | inr (own, inr h) ↦
      subst IsLoyal (sym h)
        (dial_and_hello-IsLoyal net (named_as c id role) (named_as-IsLoyal c id role own i))
]

flagged-IsLoyal :
    (c : IsanndClient) (b : Bool) → IsLoyal c → IsLoyal (record c { need_register = b })
flagged-IsLoyal c b i = record {
  faithful = i.faithful;
  greeted = i.greeted;
  fresh = i.fresh;
  named = i.named;
}

close-IsLoyal : (c : IsanndClient) → IsLoyal c → IsLoyal (close c)
unfolding close
close-IsLoyal c i = elim (Bool-cases c.closed) [
  | inl z ↦ simp (z) i
  | inr z ↦ rw z (shut (idle-IsLoyal c c.attempts c.sent i (omega arith)))
]
  where
    shut : IsLoyal (record c { conn = none }) → IsLoyal (record c { closed = true; conn = none })
    shut j = record { faithful = j.faithful; greeted = j.greeted; fresh = j.fresh; named = j.named }

new_client-IsLoyal : IsLoyal new_client
unfolding frames IsFaithful
new_client-IsLoyal = record {
  faithful = λ k. tt;
  greeted = λ k h. absurd (ground arith);
  fresh = λ k h. refl;
  named = λ h. (refl, refl);
}

-- Whatever a new client is asked and whichever dials and writes fail, what it has written on each
-- connection that it made is a hello for the node that it speaks for, and then frames that carry the
-- id of that node or none: no connection carries the frames of two nodes.
pub act_all-IsFaithful :
    (net : Network) (actions : List Action) (k : ℕ)
    → IsFaithful
        (act_all net new_client actions).hello_id
        (frames k (act_all net new_client actions).wire)
act_all-IsFaithful net actions k =
    (act_all-rule net IsLoyal (write_msg-IsLoyal net) (connect-IsLoyal net) mark_conn_dead-IsLoyal
        flagged-IsLoyal close-IsLoyal new_client actions new_client-IsLoyal).faithful
      k
