-- ===== src/Registry/Locks.antt =====
-- The locks of the control plane over its handlers (internal/control_plane/control_plane.go).
use dirigent.Prelude.{ℕ, ◌≡◌, Bool, true, false, String, ◌&&◌, ◌||◌, arith, not_b}
use dirigent.Prelude.Results.{Result, returns, waits, panics}
use dirigent.Sync.{lock, unlock, set, get, remove_key, present, atomic_remove}
use dirigent.Workers.{WorkerNodeConfiguration}
use dirigent.Registry.{
  ControlPlane, ServiceInfo, failed_with_error, Write, is_confirmed, DataplaneInformation, IsFree,
}
use dirigent.Registry.Nodes.{register_node}
use dirigent.Registry.DataPlanes.{register_dataplane, Answers}
use dirigent.Registry.Services.{
  register_service, deregister_service, remove_service_from_dataplane,
  notify_dataplanes_and_start_scaling_loop, precreate,
}

abbrev pub is_waiting {ℓ} : {A : Type ℓ} → Result A → Bool
is_waiting (returns a) = false
is_waiting waits = true
is_waiting panics = false

module _ {F : Type 0} where
  -- A node's registration waits for ever, on a lock that it holds itself, exactly when the node is
  -- new and its write is not confirmed.
  pub register_node_waiting :
      (w : Write) (now : ℕ) (info : WorkerNodeConfiguration) (c : ControlPlane F)
      → IsFree c
      → is_waiting (register_node w now info c)
        ≡ (not_b (present info.name c.ni_storage) && not_b (is_confirmed w))
  unfolding register_node lock present get atomic_remove
  register_node_waiting w now info c free = ground (arith, free)

  -- A service's registration waits for ever exactly when the service is new and either its write is
  -- not confirmed or snapshots are to be created first.
  pub register_service_waiting :
      (w : Write) (info : ServiceInfo F) (c : ControlPlane F)
      → IsFree c
      → is_waiting (register_service w info c) ≡ (
          not_b (present info.name c.si_storage)
          && (not_b (is_confirmed w) || c.precreate_snapshots))
  unfolding register_service lock present get atomic_remove precreate set
      notify_dataplanes_and_start_scaling_loop
  register_service_waiting w info c free = ground (arith, free)

  -- When a data plane answers the removal of a known service with an error, the lock of the data
  -- planes stays held: the next registration or heartbeat of any data plane waits for ever.
  pub register_dataplane-deregister_service :
      (w v : Write) (answers : String → Bool) (name : String) (c c' : ControlPlane F) (a : Answers)
      (now : ℕ) (info : DataplaneInformation)
      → IsFree c
      → present name c.si_storage ≡ true
      → is_confirmed w ≡ true
      → deregister_service w answers name c ≡ returns (c', failed_with_error)
      → register_dataplane v a now info c' ≡ waits
  unfolding deregister_service remove_service_from_dataplane register_dataplane lock unlock present
      get remove_key
  register_dataplane-deregister_service w v answers name c c' a now info free p q e =
      ground (arith, free)
