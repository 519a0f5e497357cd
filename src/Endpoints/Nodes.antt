-- ===== src/Endpoints/Nodes.antt =====
-- removeEndointsAssociatedWithNode of internal/control_plane/helpers.go, for one service. `none` is
-- the panic of an endpoint that has no node.
use dirigent.Prelude.{
  ◌≡◌, inl, inr, Option-cases, String, List, [], ◌∷◌, Option, some, none, length, arith, ite,
}
use dirigent.Prelude.Int.{pos, ◌-ℤ◌}
use dirigent.Prelude.Names.{string_discrete}
use dirigent.Endpoints.{Endpoint, Service, has, add_to, exclude_endpoints}
use dirigent.Endpoints.Pointers.{
  IsDistinct, IsAmong, exclude_endpoints-IsDistinct, length-exclude_endpoints,
}
use dirigent.Endpoints.Balance.{IsBalanced, IsFound, add_to-IsFound, sub_pos}

-- The loop over the endpoints: those on the node.
unfoldable pub collect_on_node : String → List Endpoint → List Endpoint → Option (List Endpoint)
collect_on_node name [] found = some found
collect_on_node name (e ∷ es) found = elim e.node [
  | none ↦ none
  | some n ↦ collect_on_node name es (ite (string_discrete n name) (add_to e found) found)
]

unfoldable pub remove_endpoints_associated_with_node : String → Service → Option Service
unfolding collect_on_node
remove_endpoints_associated_with_node name s = elim (collect_on_node name s.endpoints []) [
  | none ↦ none
  | some found ↦ some (record s {
    actual_scale = s.actual_scale -ℤ pos (length found);
    endpoints = exclude_endpoints found s.endpoints;
  })
]

IsAmong-cons : (e : Endpoint) (vs es : List Endpoint) → IsAmong vs es → IsAmong vs (e ∷ es)
unfolding has
IsAmong-cons e [] es a = tt
IsAmong-cons e (v ∷ vs) es a = (ground arith, IsAmong-cons e vs es a.1)

IsAmong-refl : (es : List Endpoint) → IsAmong es es
unfolding has
IsAmong-refl [] = tt
IsAmong-refl (e ∷ es) = (ground arith, IsAmong-cons e es es (IsAmong-refl es))

collect_on_node-IsFound :
    (name : String) (es all found found' : List Endpoint)
    → IsAmong es all
    → IsFound all found
    → collect_on_node name es found ≡ some found'
    → IsFound all found'
unfolding collect_on_node
collect_on_node-IsFound name [] all found found' a f q = ground arith
collect_on_node-IsFound name (e ∷ es) all found found' a f q = ground (
  arith,
  collect_on_node-IsFound name es all (add_to e found) found',
  collect_on_node-IsFound name es all found found',
  add_to-IsFound e all found,
)

-- When a node goes away and every endpoint of a service has a node, the service's actual scale still
-- counts its endpoints, which are distinct, once those of the node are removed.
pub remove_endpoints_associated_with_node-IsBalanced :
    (name : String) (s t : Service)
    → IsDistinct s.endpoints
    → IsBalanced s
    → remove_endpoints_associated_with_node name s ≡ some t
    → IsBalanced t × IsDistinct t.endpoints
unfolding remove_endpoints_associated_with_node
remove_endpoints_associated_with_node-IsBalanced name s t d b q =
    elim (Option-cases (collect_on_node name s.endpoints [])) [
      | inl n ↦ ground arith
      | inr (found, p) ↦
          let f =
            collect_on_node-IsFound name s.endpoints s.endpoints [] found (IsAmong-refl s.endpoints)
              (record { distinct = tt; among = tt }) p in
          let l = length-exclude_endpoints found s.endpoints f.distinct d f.among in
          let g = sub_pos (length s.endpoints) (length found) (omega arith) in
          let k = exclude_endpoints-IsDistinct found s.endpoints d in
          (ground (arith, g, l, p), ground (arith, p, k))
    ]
