-- ===== src/Rendezvous/Limiter/Fair.antt =====
-- How many requests of one address are let through.
use servers.Base.{
  ℕ, ◌+◌, ◌*◌, ◌/◌, ◌<◌, ◌≡◌, refl, Bool, true, false, ◌&&◌, List, [], ◌∷◌, Text, Map, eqt, eqt_iff,
  insert, lookup, lookup-insert, if◌then◌else◌, min, arith, All, ltb, leb,
}
use servers.Rendezvous.State.{second}
use servers.Rendezvous.Cadence.{at_zero}
use servers.Rendezvous.Limiter.{Limiter, truncated, roll, allow}

-- Requests: their times and addresses.
abbrev pub Requests : Type 0
Requests = List (ℕ × Text)

abbrev pub asked : Text → Requests → ℕ
asked ip [] = 0
asked ip ((t, j) ∷ rs) = (if eqt j ip then 1 else 0) + asked ip rs

-- The requests of an address that are let through.
unfoldable pub passed : Limiter → Text → Requests → ℕ
passed h ip [] = 0
passed h ip ((t, j) ∷ rs) =
    (if eqt j ip && (allow h j t).1 then 1 else 0) + passed (allow h j t).0 ip rs

abbrev pub IsWithin : ℕ → Requests → Type 0
IsWithin s rs = All (λ (t, j). t / second ≡ s) rs

truncated-within : (t s : ℕ) → t / second ≡ s → truncated t ≡ s * second
truncated-within t s h = omega arith

at_zero-insert :
    (j ip : Text) (n : ℕ) (m : Map ℕ)
    → at_zero (insert j n m) ip ≡ (if eqt j ip then n else at_zero m ip)
at_zero-insert j ip n m = ground (arith, lookup-insert j ip n m)

allow-window :
    (h : Limiter) (j : Text) (t s : ℕ)
    → t / second ≡ s
    → h.window ≡ s * second
    → allow h j t ≡ (
      record h { hits = insert j (at_zero h.hits j + 1) h.hits },
      leb (at_zero h.hits j + 1) h.limit,
    )
unfolding allow roll
allow-window h j t s e w =
    let stays : ltb h.window (truncated t) ≡ false = ground (arith, truncated-within t s e) in
    rw stays refl

passed-allow :
    (h h' : Limiter) (fine : Bool) (ip : Text) (t : ℕ) (j : Text) (rs : Requests)
    → allow h j t ≡ (h', fine)
    → passed h ip ((t, j) ∷ rs) ≡ (if eqt j ip && fine then 1 else 0) + passed h' ip rs
unfolding passed
passed-allow h h' fine ip t j rs e = rw e refl

passed-window :
    (h : Limiter) (ip : Text) (s : ℕ) (rs : Requests)
    → h.window ≡ s * second
    → IsWithin s rs
    → passed h ip rs + min h.limit (at_zero h.hits ip)
      ≡ min h.limit (at_zero h.hits ip + asked ip rs)
passed-window h ip s [] w i = unfold passed in ground arith
passed-window h ip s ((t, j) ∷ rs) w i =
    let n = at_zero h.hits j + 1 in
    let h' : Limiter = record h { hits = insert j n h.hits } in
    ground (
      arith,
      passed-allow h h' (leb n h.limit) ip t j rs (allow-window h j t s i.0 w),
      passed-window h' ip s rs w i.1,
      at_zero-insert j ip n h.hits,
      eqt_iff j ip,
    )

-- In a new window the limiter counts as if it had counted nothing.
allow-roll :
    (h : Limiter) (j : Text) (t s : ℕ)
    → t / second ≡ s
    → h.window < s * second
    → allow h j t ≡ allow (record h { window = s * second; hits = [] }) j t
unfolding allow roll
allow-roll h j t s e w =
    let begins : ltb h.window (truncated t) ≡ true = ground (arith, truncated-within t s e) in
    let stays : ltb (s * second) (truncated t) ≡ false = ground (arith, truncated-within t s e) in
    rw begins (rw stays (rw (truncated-within t s e) refl))

-- A second in which the first request is made: of the requests of an address, as many as the limit
-- says are let through, or all of them if they are fewer, however many requests there are of other
-- addresses, and in whichever order.
pub allow_fair :
    (h : Limiter) (ip : Text) (s : ℕ) (rs : Requests)
    → h.window < s * second
    → IsWithin s rs
    → passed h ip rs ≡ min h.limit (asked ip rs)
unfolding lookup
allow_fair h ip s [] w i = unfold passed in ground arith
allow_fair h ip s ((t, j) ∷ rs) w i =
    let fresh : Limiter = record h { window = s * second; hits = [] } in
    let done = allow fresh j t in
    ground (
      arith,
      passed-allow h done.0 done.1 ip t j rs (allow-roll h j t s i.0 w),
      passed-allow fresh done.0 done.1 ip t j rs refl,
      passed-window fresh ip s ((t, j) ∷ rs) refl i,
    )
