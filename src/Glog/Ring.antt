-- ===== src/Glog/Ring.antt =====
-- pkg/glog/ringbuffer.go: the last lines that were logged. A buffer without room, which panics at the
-- first write, is not modelled by a value: its `write` leaves it as it is. Subscribers are not modelled.
pub mod Recent
use servers.Base.{
  ℕ, zero, suc, ◌+◌, ◌-◌, ◌%◌, ◌≤◌, ◌<◌, ◌≡◌, refl, sym, ap, ◌∙◌, Bool, true, false, List, [], ◌∷◌,
  Option, none, some, Text, length, get_elem?, set, replicate, take, reverse, ltb, if◌then◌else◌,
  arith, Bool-cases, inl, inr, length-set, get_elem?-set_self,
}

pub record RingBuffer : Type 0 where
  pub lines : List Text
  pub pos : ℕ
  pub count : ℕ

unfoldable pub new_ring_buffer : ℕ → RingBuffer
new_ring_buffer capacity = record { lines = replicate capacity []; pos = 0; count = 0 }

unfoldable pub write : RingBuffer → Text → RingBuffer
write b line = record {
  lines = set b.lines b.pos line;
  pos = (b.pos + 1) % length b.lines;
  count = if ltb b.count (length b.lines) then suc b.count else b.count;
}

-- `b.lines[i]`, with an index that the code keeps in range.
abbrev pub line_at : RingBuffer → ℕ → Text
line_at b i = elim (get_elem? b.lines i) [ none ↦ [] | some t ↦ t ]

-- The copying loop, from the i-th line of the result on.
unfoldable pub copy_lines : RingBuffer → ℕ → ℕ → ℕ → List Text
copy_lines b start i zero = []
copy_lines b start i (suc n) =
    line_at b ((start + i) % length b.lines) ∷ copy_lines b start (suc i) n

unfoldable pub recent : RingBuffer → ℕ → List Text
unfolding copy_lines
recent b n =
    let n' = if ltb b.count n then b.count else n in
    copy_lines b ((b.pos + length b.lines - n') % length b.lines) 0 n'

unfoldable pub write_all : RingBuffer → List Text → RingBuffer
unfolding write
write_all b [] = b
write_all b (t ∷ ts) = write_all (write b t) ts
