-- ===== src/Glog/Ring/Recent.antt =====
-- What the ring buffer holds are the last lines written.
use servers.Base.{
  ℕ, zero, suc, ◌+◌, ◌-◌, ◌%◌, ◌≤◌, ◌<◌, ◌≡◌, ◌≢◌, ◌⊎◌, refl, sym, ap, ◌∙◌, subst, List, [], ◌∷◌,
  ◌++◌, some, Text, length, get_elem?, set, replicate, drop, ltb, append_assoc, if◌then◌else◌,
  arith, Bool-cases, inl, inr, length-set, length-append, get_elem?-set_self, append-nil, min,
  ltb→lt, get_elem?-some,
}
use native.Mathlib.Nat.{mod-eq_of_lt, mod-eq-sub-mod}
use servers.Glog.Ring.{RingBuffer, new_ring_buffer, write, line_at, copy_lines, recent, write_all}

mod_wrap : (a c : ℕ) → c ≤ a → a < c + c → a % c ≡ a - c
mod_wrap a c h k = mod-eq-sub-mod h ∙ mod-eq_of_lt (omega arith)

-- The place of the line that was written `i` lines ago.
abbrev back : ℕ → ℕ → ℕ → ℕ
back pos cap i = if ltb i pos then pos - 1 - i else pos + cap - 1 - i

-- The buffer holds the end of a history, whose last line came last.
record Holds (ws : List Text) (b : RingBuffer) : Type 0 where
  roomy : 0 < length b.lines
  placed : b.pos < length b.lines
  counted :
      ((b.count ≡ length ws) × (length ws ≤ length b.lines))
      ⊎ ((b.count ≡ length b.lines) × (length b.lines ≤ length ws))
  held :
      (i : ℕ)
      → i < b.count
      → get_elem? b.lines (back b.pos (length b.lines) i) ≡ get_elem? ws (length ws - 1 - i)

get_elem?-set_other {ℓ} :
    {A : Type ℓ} (xs : List A) (i j : ℕ) (v : A) → i ≢ j → get_elem? (set xs i v) j ≡ get_elem? xs j
get_elem?-set_other [] i j v n = refl
get_elem?-set_other (x ∷ xs) zero zero v n = absurd (n refl)
get_elem?-set_other (x ∷ xs) zero (suc j) v n = refl
get_elem?-set_other (x ∷ xs) (suc i) zero v n = refl
get_elem?-set_other (x ∷ xs) (suc i) (suc j) v n = get_elem?-set_other xs i j v (λ e. n (ap suc e))

get_elem?-append_left {ℓ} :
    {A : Type ℓ} (xs ys : List A) (i : ℕ) → i < length xs → get_elem? (xs ++ ys) i ≡ get_elem? xs i
get_elem?-append_left [] ys i h = absurd (omega arith)
get_elem?-append_left (x ∷ xs) ys zero h = refl
get_elem?-append_left (x ∷ xs) ys (suc i) h = get_elem?-append_left xs ys i (omega arith)

get_elem?-append_last {ℓ} :
    {A : Type ℓ} (xs : List A) (y : A) → get_elem? (xs ++ (y ∷ [])) (length xs) ≡ some y
get_elem?-append_last [] y = refl
get_elem?-append_last (x ∷ xs) y = get_elem?-append_last xs y

next_pos : (pos cap : ℕ) → pos < cap → (pos + 1) % cap ≡ (if ltb (pos + 1) cap then pos + 1 else 0)
next_pos pos cap h = elim (Bool-cases (ltb (pos + 1) cap)) [
  | inl e ↦ rw e (mod-eq_of_lt (ground arith))
  | inr e ↦ rw e (mod_wrap (pos + 1) cap (ground arith) (omega arith) ∙ ground arith)
]

abbrev grown : RingBuffer → ℕ
grown b = if ltb b.count (length b.lines) then suc b.count else b.count

held_last :
    (ws : List Text) (b : RingBuffer) (t : Text)
    → Holds ws b
    → get_elem?
        (set b.lines b.pos t)
        (back ((b.pos + 1) % length b.lines) (length (set b.lines b.pos t)) 0)
      ≡ get_elem? (ws ++ (t ∷ [])) (length (ws ++ (t ∷ [])) - 1 - 0)
held_last ws b t h =
    let size = length-set b.lines b.pos t in
    let next = next_pos b.pos (length b.lines) h.placed in
    let place : back ((b.pos + 1) % length b.lines) (length (set b.lines b.pos t)) 0 ≡ b.pos =
      ground (arith, size, next, h.placed) in
    let last : length (ws ++ (t ∷ [])) - 1 - 0 ≡ length ws =
      omega (arith, length-append ws (t ∷ [])) in
    ap (get_elem? (set b.lines b.pos t)) place
    ∙ (get_elem?-set_self b.lines b.pos t h.placed
        ∙ (sym (get_elem?-append_last ws t) ∙ ap (get_elem? (ws ++ (t ∷ []))) (sym last)))

held_before :
    (ws : List Text) (b : RingBuffer) (t : Text) (j : ℕ)
    → Holds ws b
    → suc j < grown b
    → get_elem?
        (set b.lines b.pos t)
        (back ((b.pos + 1) % length b.lines) (length (set b.lines b.pos t)) (suc j))
      ≡ get_elem? (ws ++ (t ∷ [])) (length (ws ++ (t ∷ [])) - 1 - suc j)
held_before ws b t j h g =
    let cap = length b.lines in
    let size = length-set b.lines b.pos t in
    let next = next_pos b.pos cap h.placed in
    let full : suc j < cap = ground (arith, h.counted) in
    let older : j < b.count = ground (arith, h.counted) in
    let inside : length ws - 1 - j < length ws = ground (arith, h.counted) in
    let place : back ((b.pos + 1) % cap) (length (set b.lines b.pos t)) (suc j) ≡ back b.pos cap j =
      ground (arith, size, next, h.placed) in
    let apart : b.pos ≢ back b.pos cap j = (λ e. ground (arith, h.placed)) in
    let index : length (ws ++ (t ∷ [])) - 1 - suc j ≡ length ws - 1 - j =
      omega (arith, length-append ws (t ∷ [])) in
    ap (get_elem? (set b.lines b.pos t)) place
    ∙ (get_elem?-set_other b.lines b.pos (back b.pos cap j) t apart
        ∙ (h.held j older
            ∙ (sym (get_elem?-append_left ws (t ∷ []) (length ws - 1 - j) inside)
                ∙ ap (get_elem? (ws ++ (t ∷ []))) (sym index))))

write-Holds :
    (ws : List Text) (b : RingBuffer) (t : Text) → Holds ws b → Holds (ws ++ (t ∷ [])) (write b t)
unfolding write
write-Holds ws b t h =
    let size = length-set b.lines b.pos t in
    let longer = length-append ws (t ∷ []) in
    let next = next_pos b.pos (length b.lines) h.placed in
    record {
      roomy = omega (arith, size, h.roomy);
      placed = ground (arith, size, next, h.placed);
      counted = ground (arith, size, longer, h.counted);
      held = held;
    }
  where
    held :
        (i : ℕ)
        → i < grown b
        → get_elem?
            (set b.lines b.pos t)
            (back ((b.pos + 1) % length b.lines) (length (set b.lines b.pos t)) i)
          ≡ get_elem? (ws ++ (t ∷ [])) (length (ws ++ (t ∷ [])) - 1 - i)
    held zero g = held_last ws b t h
    held (suc j) g = held_before ws b t j h g

write_all-Holds :
    (ts ws : List Text) (b : RingBuffer) → Holds ws b → Holds (ws ++ ts) (write_all b ts)
unfolding write_all
write_all-Holds [] ws b h = subst (λ l. Holds l b) (sym (append-nil ws)) h
write_all-Holds (t ∷ ts) ws b h =
    subst (λ l. Holds l (write_all (write b t) ts)) (append_assoc ws (t ∷ []) ts)
      (write_all-Holds ts (ws ++ (t ∷ [])) (write b t) (write-Holds ws b t h))

length-replicate {ℓ} : {A : Type ℓ} (n : ℕ) (x : A) → length (replicate n x) ≡ n
length-replicate zero x = refl
length-replicate (suc n) x = ap suc (length-replicate n x)

new_ring_buffer-Holds : (capacity : ℕ) → 0 < capacity → Holds [] (new_ring_buffer capacity)
unfolding new_ring_buffer
new_ring_buffer-Holds capacity h =
    let size = length-replicate {A = Text} capacity [] in
    record {
      roomy = omega (arith, size);
      placed = omega (arith, size);
      counted = inl (refl, omega arith);
      held = λ i g. absurd (omega arith);
    }

drop_here {ℓ} :
    {A : Type ℓ} (ws : List A) (i : ℕ) (t : A)
    → get_elem? ws i ≡ some t
    → drop i ws ≡ t ∷ drop (suc i) ws
drop_here [] i t h = absurd (ground arith)
drop_here (x ∷ ws) zero t h = ground arith
drop_here (x ∷ ws) (suc i) t h = drop_here ws i t h

drop_all {ℓ} : {A : Type ℓ} (ws : List A) → drop (length ws) ws ≡ []
drop_all [] = refl
drop_all (x ∷ ws) = drop_all ws

start_at :
    (pos cap n : ℕ)
    → pos < cap
    → n ≤ cap
    → (pos + cap - n) % cap ≡ (if ltb pos n then pos + cap - n else pos - n)
start_at pos cap n h k = elim (Bool-cases (ltb pos n)) [
  | inl e ↦ rw e (mod-eq_of_lt (ground arith))
  | inr e ↦ rw e (mod_wrap (pos + cap - n) cap (ground arith) (omega arith) ∙ ground arith)
]

-- The i-th line copied, of n, is the one written n - 1 - i lines ago.
copied_from :
    (pos cap n i m : ℕ)
    → pos < cap
    → n ≤ cap
    → i + suc m ≡ n
    → ((pos + cap - n) % cap + i) % cap ≡ back pos cap m
copied_from pos cap n i m h k e =
    let s : ℕ = if ltb pos n then pos + cap - n else pos - n in
    let start = start_at pos cap n h k in
    ap (λ x. (x + i) % cap) start ∙ elim (Bool-cases (ltb (s + i) cap)) [
      | inl f ↦ mod-eq_of_lt (ltb→lt (s + i) cap f) ∙ ground arith
      | inr f ↦ mod_wrap (s + i) cap (ground arith) (ground arith) ∙ ground arith
    ]

copy_lines-drop :
    (ws : List Text) (b : RingBuffer) (n i m : ℕ)
    → Holds ws b
    → n ≤ b.count
    → i + m ≡ n
    → copy_lines b ((b.pos + length b.lines - n) % length b.lines) i m ≡ drop (length ws - m) ws
unfolding copy_lines
copy_lines-drop ws b n i zero h k e =
    let whole : length ws ≡ length ws - 0 = omega arith in
    sym (drop_all ws) ∙ ap (λ x. drop x ws) whole
copy_lines-drop ws b n i (suc m) h k e =
    let cap = length b.lines in
    let start = (b.pos + cap - n) % cap in
    let room : n ≤ cap = ground (arith, h.counted) in
    let place = copied_from b.pos cap n i m h.placed room e in
    let rest = copy_lines-drop ws b n (suc i) m h k (omega arith) in
    let known : length ws - 1 - m < length ws = ground (arith, h.counted) in
    let (t, there) = get_elem?-some ws (length ws - 1 - m) known in
    let read : get_elem? b.lines ((start + i) % cap) ≡ some t =
      ap (get_elem? b.lines) place ∙ (h.held m (omega arith) ∙ there) in
    let first : line_at b ((start + i) % cap) ≡ t = ground (arith, read) in
    let index : length ws - suc m ≡ length ws - 1 - m = omega arith in
    let next : suc (length ws - 1 - m) ≡ length ws - m = ground (arith, h.counted) in
    let split : drop (length ws - suc m) ws ≡ t ∷ drop (length ws - m) ws =
      ap (λ x. drop x ws) index
      ∙ (drop_here ws (length ws - 1 - m) t there ∙ ap (λ x. t ∷ drop x ws) next) in
    ap (λ x. x ∷ copy_lines b start (suc i) m) first ∙ (ap (λ x. t ∷ x) rest ∙ sym split)

write_all-length :
    (b : RingBuffer) (ts : List Text) → length (write_all b ts).lines ≡ length b.lines
unfolding write_all write
write_all-length b [] = refl
write_all-length b (t ∷ ts) = write_all-length (write b t) ts ∙ length-set b.lines b.pos t

new_ring_buffer-length : (capacity : ℕ) → length (new_ring_buffer capacity).lines ≡ capacity
unfolding new_ring_buffer
new_ring_buffer-length capacity = length-replicate capacity []

-- Whatever is written into a buffer with room, `Recent` gives the last lines that were written, in
-- order: as many as are asked for, or as there are, or as the buffer has room for.
pub recent-write_all :
    (capacity n : ℕ) (ws : List Text)
    → 0 < capacity
    → recent (write_all (new_ring_buffer capacity) ws) n ≡ drop (length ws - min n capacity) ws
unfolding recent
recent-write_all capacity n ws h =
    let b = write_all (new_ring_buffer capacity) ws in
    let holds =
      write_all-Holds ws [] (new_ring_buffer capacity) (new_ring_buffer-Holds capacity h) in
    let size = write_all-length (new_ring_buffer capacity) ws ∙ new_ring_buffer-length capacity in
    let m : ℕ = if ltb b.count n then b.count else n in
    let below : m ≤ b.count = ground arith in
    let amount : length ws - m ≡ length ws - min n capacity = ground (arith, holds.counted, size) in
    copy_lines-drop ws b m 0 m holds below (omega arith) ∙ ap (λ x. drop x ws) amount
