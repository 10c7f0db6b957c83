-- ===== src/Rendezvous/Counters.antt =====
-- pkg/rendezvous/server.go: the discovery counters, which are kept at each insert and delete in
-- place of a scan of the registry.
use servers.Base.{ℕ, Bool, [], ◌∷◌, Text, codes, one_of, to_lower, equal_fold, if◌then◌else◌, add64}
use servers.Rendezvous.State.{Counts}

pub data Bucket : Type 0 where
  station control passenger unknown : Bucket

unfoldable pub role_bucket : Text → Bucket
role_bucket role =
    let r = to_lower role in
    if one_of r (codes "provider" ∷ codes "station" ∷ [])
    then station
    else if one_of r (codes "broker" ∷ codes "control" ∷ [])
    then control
    else if one_of r (codes "consumer" ∷ codes "passenger" ∷ [])
    then passenger
    else unknown

-- The delta is an `int`: 1, or the word of -1.
unfoldable pub count_in : Bucket → Bool → ℕ → Counts → Counts
count_in station free delta c =
    let c' : Counts = record c { station = add64 c.station delta } in
    if free then record c' { public = add64 c.public delta } else c'
count_in control free delta c = record c { control = add64 c.control delta }
count_in passenger free delta c = record c { passenger = add64 c.passenger delta }
count_in unknown free delta c = c

unfoldable pub count_delta : Text → Text → ℕ → Counts → Counts
unfolding count_in
count_delta role auth_mode = count_in (role_bucket role) (equal_fold auth_mode (codes "public"))
