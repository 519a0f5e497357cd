-- ===== src/DataPlane.antt =====
-- internal/data_plane/data_plane.go and function_metadata/deployment.go: the deployments of a data
-- plane, and the calls of the control plane that change them. Each takes the lock of the
-- deployments and gives it back before it goes on.
pub mod Follows
pub mod Victims
pub mod Messages
mod Tests
use dirigent.Prelude.{
  ℕ, Bool, true, false, String, List, [], ◌∷◌, Option, none, some, if◌then◌else◌, ite,
}
use dirigent.Prelude.Maps.{lookup, insert, remove, values}
use dirigent.Prelude.Names.{string_discrete}
use dirigent.Functions.{
  FunctionMetadata, EndpointInfo, new_function_metadata, add_endpoints, drain_endpoints,
  remove_all_endpoints,
}

pub record Deployments : Type 0 where
  pub metadata : List (String × FunctionMetadata)

unfoldable pub new_deployment_list : Deployments
new_deployment_list = record { metadata = [] }

unfoldable pub add_deployment : String → Deployments → Deployments × Bool
add_deployment name d = elim (lookup string_discrete name d.metadata) [
  | some m ↦ (d, false)
  | none ↦
      (record { metadata = insert string_discrete name new_function_metadata d.metadata }, true)
]

unfoldable pub get_deployment : String → Deployments → Option FunctionMetadata
get_deployment name d = lookup string_discrete name d.metadata

unfoldable pub delete_deployment : String → Deployments → Deployments × Bool
delete_deployment name d = elim (lookup string_discrete name d.metadata) [
  | some m ↦ (record { metadata = remove string_discrete name d.metadata }, true)
  | none ↦ (d, false)
]

unfoldable pub list_deployments : Deployments → List FunctionMetadata
list_deployments d = values d.metadata

-- proto.DeploymentEndpointPatch; a list without endpoints arrives as nil.
pub record Patch : Type 0 where
  pub service : Option String
  pub endpoints : List EndpointInfo

abbrev pub service_name : Patch → String
service_name p = elim p.service [ none ↦ "" | some name ↦ name ]

unfoldable pub clean : List (String × FunctionMetadata) → List (String × FunctionMetadata)
clean [] = []
clean ((name, m) ∷ ms) = (name, remove_all_endpoints m) ∷ clean ms

-- cleanCache
unfoldable pub clean_cache : Deployments → Deployments
unfolding clean
clean_cache d = record { metadata = clean d.metadata }

abbrev pub is_nil : Patch → Bool
is_nil p = elim p.service [
  | some name ↦ false
  | none ↦ elim p.endpoints [ [] ↦ true | (e ∷ es) ↦ false ]
]

-- UpdateEndpointList, and whether it succeeds.
unfoldable pub update_endpoint_list : Patch → Deployments → Deployments × Bool
unfolding clean_cache get_deployment
update_endpoint_list p d =
    if is_nil p then (clean_cache d, true) else elim (get_deployment (service_name p) d) [
      | none ↦ (d, false)
      | some m ↦ (
        record {
          metadata =
              insert string_discrete (service_name p) (add_endpoints p.endpoints m) d.metadata;
        },
        true,
      )
    ]

-- DrainSandbox, up to its wait for the requests in flight.
unfoldable pub drain_sandbox : Patch → Deployments → Deployments × Bool
unfolding get_deployment
drain_sandbox p d = elim (get_deployment (service_name p) d) [
  | none ↦ (d, false)
  | some m ↦ (
    record {
      metadata = insert string_discrete (service_name p) (drain_endpoints p.endpoints m) d.metadata;
    },
    true,
  )
]

-- The loop of syncDeploymentCache.
unfoldable pub sync_deployment_cache : List String → Deployments → Deployments
unfolding add_deployment
sync_deployment_cache [] d = d
sync_deployment_cache (name ∷ names) d = sync_deployment_cache names (add_deployment name d).0

pub data LoadBalancingPolicy : Type 0 where
  random round_robin least_processed knative : LoadBalancingPolicy

unfoldable pub parse_load_balancing_policy : String → LoadBalancingPolicy
parse_load_balancing_policy name = ite (string_discrete name "random") LoadBalancingPolicy.random (
    ite (string_discrete name "round-robin") LoadBalancingPolicy.round_robin (
      ite (string_discrete name "least-processed") LoadBalancingPolicy.least_processed (
        ite (string_discrete name "knative") LoadBalancingPolicy.knative
          LoadBalancingPolicy.random)))
