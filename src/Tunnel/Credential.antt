-- ===== src/Tunnel/Credential.antt =====
-- pkg/tunnel/access.go and rendezvous.go: the two strings that issuers sign, one to admit a node to a
-- rendezvous server and one to let a buyer use a node, and how they are read.
use servers.Base.{
  ℕ, ◌<◌, ◌≡◌, ◌≢◌, ◌∙◌, refl, ap, Bool, true, List, [], ◌∷◌, ◌++◌, Option, none, some, Text, codes,
  to_lower, has_prefix, cut_prefix, trim_prefix, trim_space, split_byte, format_int, parse_int,
  if◌then◌else◌, All, arith, two64, is_neg, parse_int-format_int, format_nat-IsDigit, IsDigit,
  Bool-cases, inl, inr, ◌-◌,
}

abbrev credential_prefix : Text
credential_prefix = codes "ISANN-CREDENTIAL:"

abbrev access_prefix : Text
access_prefix = codes "ISANN-ACCESS:"

grant : Text → Text → ℕ → ℕ → Text
grant prefix who issued_ms expire_ms =
    prefix ++ (to_lower who ++ (b':' ∷ (format_int issued_ms ++ (b':' ∷ format_int expire_ms))))

unfoldable pub credential_message : Text → ℕ → ℕ → Text
unfolding grant
credential_message node issued_ms expire_ms = grant credential_prefix node issued_ms expire_ms

unfoldable pub access_message : Text → ℕ → ℕ → Text
unfolding grant
access_message buyer issued_ms expire_ms = grant access_prefix buyer issued_ms expire_ms

unfoldable pub is_access_message : Text → Bool
is_access_message msg = has_prefix msg access_prefix

pub record Grant : Type 0 where
  pub who : Text
  pub issued_ms : ℕ
  pub expire_ms : ℕ

times : Text → Option ℕ → Option ℕ → Option Grant
times who (some issued) (some expire) =
    some (record { who = who; issued_ms = issued; expire_ms = expire })
times who _ _ = none

parse_parts : List Text → Option Grant
unfolding times
parse_parts (who ∷ issued ∷ expire ∷ []) =
    times (to_lower (trim_space who)) (parse_int issued) (parse_int expire)
parse_parts _ = none

parse_grant : Text → Text → Option Grant
unfolding parse_parts
parse_grant prefix msg =
    if has_prefix msg prefix then parse_parts (split_byte b':' (trim_prefix msg prefix)) else none

unfoldable pub parse_credential_message : Text → Option Grant
unfolding parse_grant
parse_credential_message = parse_grant credential_prefix

unfoldable pub parse_access_message : Text → Option Grant
unfolding parse_grant
parse_access_message = parse_grant access_prefix

-- No byte of the text is `b`.
abbrev pub Lacks : ℕ → Text → Type 0
Lacks b = All (λ c. c ≢ b)

split_byte-append :
    (b : ℕ) (x y : Text) → Lacks b x → split_byte b (x ++ (b ∷ y)) ≡ x ∷ split_byte b y
unfolding split_byte
split_byte-append b [] y h = ground arith
split_byte-append b (c ∷ x) y h = ground (arith, split_byte-append b x y h.1)

split_byte-Lacks : (b : ℕ) (x : Text) → Lacks b x → split_byte b x ≡ x ∷ []
unfolding split_byte
split_byte-Lacks b [] h = refl
split_byte-Lacks b (c ∷ x) h = ground (arith, split_byte-Lacks b x h.1)

IsDigit-Lacks : (s : Text) → All IsDigit s → Lacks b':' s
IsDigit-Lacks [] d = tt
IsDigit-Lacks (c ∷ s) d = (omega arith, IsDigit-Lacks s d.1)

format_int-Lacks : (w : ℕ) → w < two64 → Lacks b':' (format_int w)
unfolding format_int
format_int-Lacks w h = elim (Bool-cases (is_neg w)) [
  | inl n ↦ rw n (omega arith, IsDigit-Lacks _ (format_nat-IsDigit (two64 - w) (omega arith)).0)
  | inr p ↦ rw p (IsDigit-Lacks _ (format_nat-IsDigit w (omega arith)).0)
]

to_lower-Lacks : (s : Text) → Lacks b':' s → Lacks b':' (to_lower s)
unfolding to_lower
to_lower-Lacks [] h = tt
to_lower-Lacks (c ∷ s) h = (ground arith, to_lower-Lacks s h.1)

cut_prefix-append : (p s : Text) → cut_prefix p (p ++ s) ≡ some s
unfolding cut_prefix
cut_prefix-append [] s = refl
cut_prefix-append (c ∷ p) s = ground (arith, cut_prefix-append p s)

has_prefix-append : (p s : Text) → has_prefix (p ++ s) p ≡ true
unfolding has_prefix
has_prefix-append p s = ground (arith, cut_prefix-append p s)

trim_prefix-append : (p s : Text) → trim_prefix (p ++ s) p ≡ s
unfolding trim_prefix
trim_prefix-append p s = ground (arith, cut_prefix-append p s)

parse_grant-prefix :
    (prefix s : Text) → parse_grant prefix (prefix ++ s) ≡ parse_parts (split_byte b':' s)
unfolding parse_grant
parse_grant-prefix prefix s = rw (has_prefix-append prefix s, trim_prefix-append prefix s)

-- A name that can stand in a grant: without a colon, in lower case and without outer blanks.
pub record IsName (who : Text) : Type 0 where
  pub plain : Lacks b':' who
  pub lowered : to_lower who ≡ who
  pub trimmed : trim_space who ≡ who

parse_grant-grant :
    (prefix who : Text) (issued_ms expire_ms : ℕ)
    → IsName who
    → issued_ms < two64
    → expire_ms < two64
    → parse_grant prefix (grant prefix who issued_ms expire_ms)
      ≡ some (record { who = who; issued_ms = issued_ms; expire_ms = expire_ms })
unfolding grant
parse_grant-grant prefix who issued expire n hi he =
    parse_grant-prefix prefix _
    ∙ ap parse_parts split
    ∙ unfold parse_parts in
      rw (
        parse_int-format_int issued hi,
        parse_int-format_int expire he,
        n.lowered,
        n.trimmed,
        n.lowered,
      )
  where
    split :
        split_byte b':' (to_lower who ++ (b':' ∷ (format_int issued ++ (b':' ∷ format_int expire))))
        ≡ to_lower who ∷ format_int issued ∷ format_int expire ∷ []
    split = rw (
      n.lowered,
      split_byte-append b':' who _ n.plain,
      split_byte-append b':' (format_int issued) _ (format_int-Lacks issued hi),
      split_byte-Lacks b':' (format_int expire) (format_int-Lacks expire he),
    )

-- A grant that is signed for a name, at any two int64 times, is read back as it was written, by the
-- door that it was made for; the other door reads none.
pub parse_access_message-access_message :
    (who : Text) (issued_ms expire_ms : ℕ)
    → IsName who
    → issued_ms < two64
    → expire_ms < two64
    → let g : Grant = record { who = who; issued_ms = issued_ms; expire_ms = expire_ms } in
      (parse_access_message (access_message who issued_ms expire_ms) ≡ some g)
      × (parse_credential_message (credential_message who issued_ms expire_ms) ≡ some g)
      × (parse_access_message (credential_message who issued_ms expire_ms) ≡ none)
      × (parse_credential_message (access_message who issued_ms expire_ms) ≡ none)
unfolding parse_access_message access_message parse_credential_message credential_message
parse_access_message-access_message who issued expire n hi he = (
  parse_grant-grant access_prefix who issued expire n hi he,
  parse_grant-grant credential_prefix who issued expire n hi he,
  unfold has_prefix in refl,
  unfold has_prefix in refl,
)
