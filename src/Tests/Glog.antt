-- ===== src/Tests/Glog.antt =====
-- A run of the ring buffer.
use servers.Base.{◌≡◌, ◌∷◌, [], Text, List, codes, drop, length, min, ◌-◌, arith, refl}
use servers.Glog.Ring.{recent, write_all, new_ring_buffer}
use servers.Glog.Ring.Recent.{recent-write_all}

abbrev logged : List Text
logged = codes "a" ∷ codes "b" ∷ codes "c" ∷ []

-- The third line took the place of the first.
last_two : recent (write_all (new_ring_buffer 2) logged) 5 ≡ codes "b" ∷ codes "c" ∷ []
unfolding recent write_all new_ring_buffer
last_two = refl

recent-write_all_example :
    recent (write_all (new_ring_buffer 2) logged) 5 ≡ drop (length logged - min 5 2) logged
recent-write_all_example = recent-write_all 2 5 logged (omega arith)
