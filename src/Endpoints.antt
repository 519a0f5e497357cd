-- ===== src/Endpoints.antt =====
-- The endpoints of a service on the control plane: internal/control_plane/scaling_loop.go,
-- eviction_policy/eviction_policy.go, failure.go and helpers.go. `addr` is the identity of an
-- endpoint's pointer, and `node` the name of its worker node. A draw of rand.Intn is an argument.
pub mod Pointers
pub mod Evict
pub mod Balance
pub mod Nodes
mod Tests
use dirigent.Prelude.{
  ℕ, zero, suc, ◌+◌, ◌-◌, ◌==◌, Bool, true, false, String, List, [], ◌∷◌, ◌++◌, Option, none, some,
  length, get_elem?, erase_idx, ltb, leb, not_b, map, if◌then◌else◌, ite,
}
use dirigent.Prelude.Int.{ℤ, pos, negsuc, ◌+ℤ◌, ◌-ℤ◌, ltb_ℤ, pos_part, sub_ℕ}
use dirigent.Prelude.Names.{string_discrete}

pub record Endpoint : Type 0 where
  pub addr : ℕ
  pub sandbox_id : String
  pub url : String
  pub node : Option String
  pub host_port : ℕ

-- proto.EndpointInfo
pub record EndpointInfo : Type 0 where
  pub id : String
  pub url : String

-- A set of endpoint pointers, as the keys of a Go map.
unfoldable pub has : ℕ → List Endpoint → Bool
has a [] = false
has a (e ∷ es) = if e.addr == a then true else has a es

unfoldable pub add_to : Endpoint → List Endpoint → List Endpoint
unfolding has
add_to e es = if has e.addr es then es else e ∷ es

-- EvictionPolicy, for the index that it draws below len(endpoint).
unfoldable pub eviction_policy : ℕ → List Endpoint → Option Endpoint × List Endpoint
eviction_policy index [] = (none, [])
eviction_policy index (e ∷ es) = (get_elem? (e ∷ es) index, erase_idx (e ∷ es) index)

-- The loop of doDownscaling, with the rounds left: the victims, and the list that is left over.
-- A round with nothing to evict goes on with the next.
unfoldable pub pick_victims :
    ℕ → (ℕ → ℕ) → List Endpoint → List Endpoint → List Endpoint × List Endpoint
pick_victims zero draw current victims = (victims, current)
pick_victims (suc rounds) draw current victims =
    let (victim, rest) = eviction_policy (draw (length current)) current in
    elim victim [
      | none ↦ pick_victims rounds draw current victims
      | some e ↦ pick_victims rounds draw rest (add_to e victims)
    ]

-- excludeEndpoints
unfoldable pub exclude_endpoints : List Endpoint → List Endpoint → List Endpoint
exclude_endpoints out [] = []
exclude_endpoints out (e ∷ es) =
    if has e.addr out then exclude_endpoints out es else e ∷ exclude_endpoints out es

-- searchEndpointByContainerName
unfoldable pub search_endpoint_by_container_name : List Endpoint → String → Option Endpoint
search_endpoint_by_container_name [] cid = none
search_endpoint_by_container_name (e ∷ es) cid =
    ite (string_discrete e.sandbox_id cid) (some e) (search_endpoint_by_container_name es cid)

-- prepareEndpointInfo
unfoldable pub prepare_endpoint_info : List Endpoint → List EndpointInfo
prepare_endpoint_info [] = []
prepare_endpoint_info (e ∷ es) =
    record { id = e.sandbox_id; url = e.url } ∷ prepare_endpoint_info es

-- GetAllURLs
unfoldable pub get_all_urls : List Endpoint → List String
get_all_urls [] = []
get_all_urls (e ∷ es) = e.url ∷ get_all_urls es

-- What the control plane sends to the data planes and the worker nodes.
pub data Message : Type 0 where
  update_endpoint_list : List EndpointInfo → Message
  drain_sandbox : List EndpointInfo → Message
  delete_sandbox : String → String → ℕ → Message

-- The part of ServiceInfoStorage that scaling changes. `sent` are the messages to the data planes
-- and worker nodes, oldest first.
pub record Service : Type 0 where
  pub actual_scale : ℤ
  pub endpoints : List Endpoint
  pub sent : List Message

-- deleteSandbox for the victims, in the order of the Go map that holds them.
unfoldable pub deletions : List Endpoint → List Message
deletions [] = []
deletions (e ∷ es) = elim e.node [
  | none ↦ deletions es
  | some node ↦ delete_sandbox node e.sandbox_id e.host_port ∷ deletions es
]

-- doDownscaling, the draining and killing in its goroutine included.
unfoldable pub do_downscaling : (ℕ → ℕ) → ℤ → ℤ → Service → Service
unfolding pick_victims
do_downscaling draw actual desired s =
    let victims = (pick_victims (pos_part (actual -ℤ desired)) draw s.endpoints []).0 in
    record s {
      endpoints = exclude_endpoints victims s.endpoints;
      sent = s.sent ++ drain_sandbox (prepare_endpoint_info victims) ∷ deletions victims;
    }

-- The outcome of one goroutine of doUpscaling: no node, a failed creation, or a new endpoint.
pub data Creation : Type 0 where
  no_node creation_failed : Creation
  created : Endpoint → Creation

unfoldable pub create_one : Creation → Service → Service
create_one no_node s = record s { actual_scale = s.actual_scale -ℤ pos 1 }
create_one creation_failed s = record s { actual_scale = s.actual_scale -ℤ pos 1 }
create_one (created e) s = record s {
  endpoints = s.endpoints ++ e ∷ [];
  sent = s.sent ++ update_endpoint_list (prepare_endpoint_info (e ∷ [])) ∷ [];
}

-- doUpscaling: the outcomes in the order in which the goroutines end.
unfoldable pub do_upscaling : List Creation → Service → Service
do_upscaling [] s = s
do_upscaling (c ∷ cs) s = do_upscaling cs (create_one c s)

-- The scale that ScalingControllerLoop acts on: the last value that is ready in the channel.
unfoldable pub last_desired : ℤ → List ℤ → ℤ
last_desired d [] = d
last_desired d (e ∷ es) = last_desired e es

-- One round of ScalingControllerLoop with an open channel. `make` gives the outcomes of a number of
-- creations, `disabled` is isDownScalingDisabled().
unfoldable pub scaling_round : (ℕ → List Creation) → (ℕ → ℕ) → Bool → ℤ → List ℤ → Service → Service
unfolding do_upscaling do_downscaling
scaling_round make draw disabled first more s =
    let desired = last_desired first more in
    let actual = s.actual_scale in
    let s' = record s { actual_scale = desired } in
    if ltb_ℤ actual desired
    then do_upscaling (make (pos_part (desired -ℤ actual))) s'
    else if not_b disabled
    then (if ltb_ℤ desired actual then do_downscaling draw actual desired s' else s')
    else s'

-- The last round, once the channel is closed: the zero value that it gives is the desired scale.
unfoldable pub scaling_end : (ℕ → ℕ) → Service → Service
unfolding do_downscaling
scaling_end draw s = do_downscaling draw s.actual_scale (pos 0) (record s { actual_scale = pos 0 })

-- The loop of removeEndpoints in failure.go that collects the endpoints of the failed sandboxes.
unfoldable pub collect_failed : List String → List Endpoint → List Endpoint → List Endpoint
unfolding search_endpoint_by_container_name
collect_failed [] es found = found
collect_failed (cid ∷ cids) es found = elim (search_endpoint_by_container_name es cid) [
  | none ↦ collect_failed cids es found
  | some e ↦ collect_failed cids es (add_to e found)
]

-- removeEndpoints in failure.go
unfoldable pub remove_endpoints : List String → Service → Service
remove_endpoints cids s =
    let failed = collect_failed cids s.endpoints [] in
    let left = exclude_endpoints failed s.endpoints in
    record s {
      actual_scale = s.actual_scale -ℤ pos (length failed);
      endpoints = left;
      sent = s.sent ++ update_endpoint_list (prepare_endpoint_info left) ∷ [];
    }
