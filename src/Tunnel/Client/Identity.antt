-- ===== src/Tunnel/Client/Identity.antt =====
-- pkg/tunnel/isannd_client.go: a client speaks for one node, and greets on each connection.
use servers.Base.{
  ℕ, ◌≢◌, ◌<◌, ◌≤◌, ◌≡◌, ◌⊎◌, refl, sym, ap, ◌∙◌, subst, inl, inr, false, List, [], ◌∷◌, ◌++◌, none,
  some, Text, codes, is_empty, All, All-append, ◌==◌, ==_iff, if◌then◌else◌, Bool-cases, arith,
}
use servers.Tunnel.Message.{RendezvousMsg}
use servers.Tunnel.Client.{IsanndClient, bare_msg}

-- What was written on a connection, in order.
unfoldable pub frames : ℕ → List (ℕ × RendezvousMsg) → List RendezvousMsg
frames k [] = []
frames k ((j, msg) ∷ wire) = if j == k then msg ∷ frames k wire else frames k wire

abbrev pub IsOwn : Text → RendezvousMsg → Type 0
IsOwn id msg = (msg.id ≡ []) ⊎ (msg.id ≡ id)

-- A hello for the node, and then frames of that node or of none.
unfoldable pub IsFaithful : Text → List RendezvousMsg → Type 0
IsFaithful id [] = Unit
IsFaithful id (msg ∷ more) =
    ((role : Text) × (msg ≡ bare_msg (codes "hello") id role)) × All (IsOwn id) more

pub record IsLoyal (c : IsanndClient) : Type 0 where
  pub faithful : (k : ℕ) → IsFaithful c.hello_id (frames k c.wire)
  pub greeted : (k : ℕ) → c.conn ≡ some k → is_empty (frames k c.wire) ≡ false
  pub fresh : (k : ℕ) → c.attempts ≤ k → frames k c.wire ≡ []
  pub named : c.hello_id ≡ [] → (c.wire ≡ []) × (c.conn ≡ none)

pub frames-append :
    (k j : ℕ) (msg : RendezvousMsg) (wire : List (ℕ × RendezvousMsg))
    → frames k (wire ++ ((j, msg) ∷ []))
      ≡ (if j == k then frames k wire ++ (msg ∷ []) else frames k wire)
unfolding frames
frames-append k j msg [] = ground arith
frames-append k j msg ((i, m) ∷ wire) = ground (arith, frames-append k j msg wire)

IsFaithful-append :
    (id : Text) (msg : RendezvousMsg) (ms : List RendezvousMsg)
    → IsFaithful id ms
    → is_empty ms ≡ false
    → IsOwn id msg
    → IsFaithful id (ms ++ (msg ∷ []))
unfolding IsFaithful is_empty
IsFaithful-append id msg [] f e own = absurd (ground arith)
IsFaithful-append id msg (m ∷ ms) (h, rest) e own =
    (h, All-append (IsOwn id) ms (msg ∷ []) rest (own, tt))

is_empty-append :
    (ms : List RendezvousMsg) (msg : RendezvousMsg) → is_empty (ms ++ (msg ∷ [])) ≡ false
unfolding is_empty
is_empty-append [] msg = refl
is_empty-append (m ∷ ms) msg = refl

-- What holds of the frames of each connection before, and where the new frame is added, holds after.
frames-append-rule {ℓ} :
    (P : List RendezvousMsg → Type ℓ) (k j : ℕ) (msg : RendezvousMsg)
    (wire : List (ℕ × RendezvousMsg))
    → (k ≢ j → P (frames j wire))
    → (k ≡ j → P (frames j wire ++ (msg ∷ [])))
    → P (frames j (wire ++ ((k, msg) ∷ [])))
frames-append-rule P k j msg wire old new = elim (Bool-cases (k == j)) [
  | inl e ↦
      subst P
        (sym (
          frames-append j k msg wire
          ∙ ap (λ b. if b then frames j wire ++ (msg ∷ []) else frames j wire) e))
        (new ((==_iff k j).0 e))
  | inr e ↦
      subst P
        (sym (
          frames-append j k msg wire
          ∙ ap (λ b. if b then frames j wire ++ (msg ∷ []) else frames j wire) e))
        (old (λ same. absurd (ground (arith, ==_iff k j))))
]

-- A frame on a connection that was greeted, of the client's node or of none.
pub appended-IsLoyal :
    (c : IsanndClient) (k n : ℕ) (t : List (ℕ × Text)) (msg : RendezvousMsg)
    → IsLoyal c
    → is_empty (frames k c.wire) ≡ false
    → IsOwn c.hello_id msg
    → c.attempts ≤ n
    → IsLoyal (record c { attempts = n; sent = t; wire = c.wire ++ ((k, msg) ∷ []) })
unfolding is_empty frames
appended-IsLoyal c k n t msg i e own le = record {
  faithful = λ j.
      frames-append-rule (IsFaithful c.hello_id) k j msg c.wire (λ _. i.faithful j)
        (λ same.
          IsFaithful-append c.hello_id msg (frames j c.wire) (i.faithful j)
            (subst (λ x. is_empty (frames x c.wire) ≡ false) same e) own);
  greeted = λ j h.
      frames-append-rule (λ ms. is_empty ms ≡ false) k j msg c.wire (λ _. i.greeted j h)
        (λ _. is_empty-append (frames j c.wire) msg);
  fresh = λ j h.
      frames-append-rule (λ ms. ms ≡ []) k j msg c.wire (λ _. i.fresh j (omega arith))
        (λ same.
          let none_there : frames k c.wire ≡ [] = i.fresh k (ground arith) in
          absurd (ground arith));
  named = λ h.
      let no_wire : c.wire ≡ [] = (i.named h).0 in
      let none_there : frames k c.wire ≡ [] = ap (frames k) no_wire in absurd (ground arith);
}

-- A dial greets on a connection that nothing was written on.
pub greeting-IsLoyal :
    (c : IsanndClient) (k n : ℕ) (t : List (ℕ × Text)) (role : Text)
    → IsLoyal c
    → c.hello_id ≢ []
    → c.attempts ≤ k
    → k < n
    → IsLoyal (record c {
      conn = some k;
      attempts = n;
      sent = t;
      wire = c.wire ++ ((k, bare_msg (codes "hello") c.hello_id role) ∷ []);
    })
unfolding IsFaithful frames
greeting-IsLoyal c k n t role i known le lt =
    let hello = bare_msg (codes "hello") c.hello_id role in
    let clear : frames k c.wire ≡ [] = i.fresh k le in
    record {
      faithful = λ j.
          frames-append-rule (IsFaithful c.hello_id) k j hello c.wire (λ _. i.faithful j)
            (λ same.
              subst (λ ms. IsFaithful c.hello_id (ms ++ (hello ∷ [])))
                (sym clear ∙ ap (λ x. frames x c.wire) same) ((role, refl), tt));
      greeted = λ j h.
          frames-append-rule (λ ms. is_empty ms ≡ false) k j hello c.wire
            (λ differ. absurd (differ (ground arith)))
            (λ _. is_empty-append (frames j c.wire) hello);
      fresh = λ j h.
          frames-append-rule (λ ms. ms ≡ []) k j hello c.wire (λ _. i.fresh j (omega arith))
            (λ same. absurd (omega arith));
      named = λ h. absurd (known h);
    }
