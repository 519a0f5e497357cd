-- ===== src/Registry/Nodes.antt =====
-- Worker nodes at the control plane (internal/control_plane/control_plane.go).
use dirigent.Prelude.{ℕ, true, String, List, [], ◌∷◌, none, some, if◌then◌else◌}
use dirigent.Prelude.Results.{Result, returns, ◌>>=◌, or_panic}
use dirigent.Sync.{lock, unlock, set, get, remove_key, present, atomic_remove}
use dirigent.Workers.{
  WorkerNodeConfiguration, new_worker_node, set_schedulability, update_last_heartbeat,
  set_cpu_usage, set_memory_usage,
}
use dirigent.Endpoints.Nodes.{remove_endpoints_associated_with_node}
use dirigent.Registry.{
  ControlPlane, ServiceInfoStorage, ActionStatus, success, failure, failed_with_error, Write,
  is_confirmed, store, delete,
}

-- proto.NodeHeartbeatMessage
pub record NodeHeartbeatMessage : Type 0 where
  pub node_id : String
  pub cpu_usage : ℕ
  pub memory_usage : ℕ

module _ {F : Type 0} where
  -- RegisterNode; a node's configuration is what its NodeInfo says.
  unfoldable pub register_node :
      Write → ℕ → WorkerNodeConfiguration → ControlPlane F → Result (ControlPlane F × ActionStatus)
  unfolding lock present store atomic_remove set unlock new_worker_node set_schedulability
  register_node w now info c = do
    ni ← lock c.ni_storage
    let stored = store w info.name info c.workers
    let node = set_schedulability true (new_worker_node now info)
    if present info.name ni
        then returns (record c { ni_storage = unlock ni }, failure)
        else if is_confirmed w
        then returns
            (record c { workers = stored; ni_storage = unlock (set info.name node ni) }, success)
        else (do
          ni' ← atomic_remove info.name ni
          returns (record c { workers = stored; ni_storage = unlock ni' }, failed_with_error))

  -- The loop of removeEndointsAssociatedWithNode.
  unfoldable pub remove_node_endpoints :
      String → List (String × ServiceInfoStorage F) → Result (List (String × ServiceInfoStorage F))
  remove_node_endpoints name [] = returns []
  remove_node_endpoints name ((key, ss) ∷ rest) = do
    service ← or_panic (remove_endpoints_associated_with_node name ss.service)
    rest' ← remove_node_endpoints name rest
    returns ((key, record ss { service = service }) ∷ rest')

  -- DeregisterNode
  unfoldable pub deregister_node :
      Write → String → ControlPlane F → Result (ControlPlane F × ActionStatus)
  unfolding lock present delete remove_node_endpoints unlock remove_key
  deregister_node w name c = do
    ni ← lock c.ni_storage
    let deleted = delete w name c.workers
    if present name ni
        then (if is_confirmed w
            then (do
              si ← lock c.si_storage
              services ← remove_node_endpoints name si.internal_map
              returns (
                record c {
                  workers = deleted;
                  si_storage = unlock (record si { internal_map = services });
                  ni_storage = unlock (remove_key name ni);
                },
                success,
              ))
            else returns
                (record c { workers = deleted; ni_storage = unlock ni }, failed_with_error))
        else returns (record c { ni_storage = unlock ni }, failure)

  -- NodeHeartbeat, which takes no lock.
  unfoldable pub node_heartbeat :
      ℕ → NodeHeartbeatMessage → ControlPlane F → ControlPlane F × ActionStatus
  unfolding get set update_last_heartbeat set_cpu_usage set_memory_usage set_schedulability
  node_heartbeat now m c = elim (get m.node_id c.ni_storage) [
    | none ↦ (c, failure)
    | some node ↦
        let node' = set_schedulability true (
          set_memory_usage m.memory_usage
            (set_cpu_usage m.cpu_usage (update_last_heartbeat now node))) in
        (record c { ni_storage = set m.node_id node' c.ni_storage }, success)
  ]
