-- ===== src/Auth/Routes.antt =====
-- pkg/auth/routes.go: the permission that a route of a broker asks for.
use servers.Base.{
  ◌≡◌, refl, Bool, false, not, ◌&&◌, ◌||◌, List, [], ◌∷◌, ◌++◌, none, some, Text, codes, eqt,
  one_of, to_upper, has_prefix, trim_prefix, cut_prefix, cut_byte, if◌then◌else◌,
}
use servers.Recipe.Expand.Template.{Without, cut_byte-append}

pub data Level : Type 0 where
  open_level user_level admin_level : Level

abbrev public_paths : List Text
public_paths =
    codes "/"
    ∷ codes "/health"
    ∷ codes "/info"
    ∷ codes "/node-id"
    ∷ codes "/v1/nodes"
    ∷ codes "/v1/auth/verify"
    ∷ []

abbrev served_prefixes : List Text
served_prefixes =
    codes "/v1/" ∷ codes "/node/" ∷ codes "/gate/" ∷ codes "/rendezvous/" ∷ codes "/auth" ∷ []

abbrev profile_paths : List Text
profile_paths =
    codes "provider/emblem"
    ∷ codes "provider/about"
    ∷ codes "provider/file"
    ∷ codes "provider/gallery"
    ∷ []

unfoldable has_one_prefix : Text → List Text → Bool
has_one_prefix path [] = false
has_one_prefix path (p ∷ ps) = has_prefix path p || has_one_prefix path ps

-- What follows `/node/{id}/`.
unfoldable pub classify_sub : Text → Text → Level
classify_sub method sub =
    if has_prefix sub (codes "svc/")
    then user_level
    else if eqt method (codes "GET") && one_of sub profile_paths
    then open_level
    else admin_level

unfoldable pub classify_node : Text → Text → Level
unfolding classify_sub
classify_node method rest = elim (cut_byte b'/' rest) [
  | none ↦ admin_level
  | some (id, sub) ↦ classify_sub method sub
]

-- `/v1/my-nodes/` and `/v1/admin/` have branches of their own, which give what all others give.
unfoldable pub classify_route : Text → Text → Level
unfolding classify_node has_one_prefix
classify_route method path =
    if one_of path public_paths
    then open_level
    else if not (has_one_prefix path served_prefixes)
    then open_level
    else if has_prefix path (codes "/gate/") || has_prefix path (codes "/rendezvous/")
    then open_level
    else if has_prefix path (codes "/node/")
    then classify_node (to_upper method) (trim_prefix path (codes "/node/"))
    else admin_level

classify_node_lem :
    (method id sub : Text)
    → Without b'/' id
    → classify_node method (id ++ (b'/' ∷ sub)) ≡ classify_sub method sub
unfolding classify_node
classify_node_lem method id sub w = rw (cut_byte-append b'/' id sub w, classify_node) refl

-- A route of a node asks for what the part behind the node's id says, whichever id that is: a service
-- for a user, the public parts of a profile for nothing if they are read, and all else for an
-- administrator.
classify_route-node :
    (method id sub : Text)
    → Without b'/' id
    → classify_route method (codes "/node/" ++ (id ++ (b'/' ∷ sub)))
      ≡ classify_sub (to_upper method) sub
unfolding classify_route has_one_prefix has_prefix trim_prefix one_of eqt cut_prefix
classify_route-node method id sub w = classify_node_lem (to_upper method) id sub w
