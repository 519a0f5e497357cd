-- ===== src/Registry/Sweeps.antt =====
-- When fault detection comes to its end (internal/control_plane/control_plane.go).
use dirigent.Prelude.{ℕ, ◌≡◌, refl, Bool, true, false, String, List, [], ◌∷◌, ◌&&◌, ◌||◌, arith}
use dirigent.Prelude.Results.{Result, returns, waits, panics}
use dirigent.Sync.{lock, atomic_get}
use dirigent.Workers.{WorkerNode}
use dirigent.Registry.{ControlPlane, ServiceInfoStorage, DataPlane, IsFree}
use dirigent.Registry.DataPlanes.{deregister_dataplane}
use dirigent.Registry.Locks.{is_waiting}
use dirigent.Registry.Monitoring.{
  Failure, is_stale, get_services_on_worker_node, failures_of, create_worker_node_failure_events,
  sweep, handle_failure, check_worker_nodes, sweep_dataplanes, check_dataplanes,
}

-- Some node, or some data plane, has missed its heartbeats.
abbrev pub is_some_node_stale : ℕ → List (String × WorkerNode) → Bool
is_some_node_stale now [] = false
is_some_node_stale now ((key, wn) ∷ nodes) =
    is_stale now wn.last_heartbeat || is_some_node_stale now nodes

abbrev pub is_some_data_plane_stale : ℕ → List (String × DataPlane) → Bool
is_some_data_plane_stale now [] = false
is_some_data_plane_stale now ((key, dp) ∷ dps) =
    is_stale now dp.last_heartbeat || is_some_data_plane_stale now dps

abbrev pub is_nonempty {ℓ} : {A : Type ℓ} → List A → Bool
is_nonempty [] = false
is_nonempty (x ∷ xs) = true

-- The loop over the nodes waits when `b`, and reports nothing otherwise.
abbrev SweepOutcome : Bool → Result (List (String × WorkerNode) × List Failure) → Type 0
SweepOutcome b (returns r) = (b ≡ false) × (r.1 ≡ [])
SweepOutcome b waits = b ≡ true
SweepOutcome b panics = ⊥

module _ {F : Type 0} (now : ℕ) where
  failures_of_waiting :
      (wn : WorkerNode) (c : ControlPlane F) (services : List (String × ServiceInfoStorage F))
      → c.ni_storage.locked ≡ true
      → is_waiting (failures_of wn c services) ≡ is_nonempty services
  unfolding failures_of get_services_on_worker_node atomic_get lock
  failures_of_waiting wn c [] h = refl
  failures_of_waiting wn c (s ∷ services) h = ground (arith, h)

  -- The whole loop, which has nothing to report when it ends.
  sweep_outcome :
      (c : ControlPlane F) (nodes : List (String × WorkerNode))
      → c.ni_storage.locked ≡ true
      → c.si_storage.locked ≡ false
      → SweepOutcome
          (is_some_node_stale now nodes && is_nonempty c.si_storage.internal_map)
          (sweep now c nodes)
  unfolding sweep create_worker_node_failure_events lock
  sweep_outcome c [] h k = (refl, refl)
  sweep_outcome c ((key, wn) ∷ nodes) h k = ground (
    arith,
    h,
    k,
    sweep_outcome c nodes h k,
    failures_of_waiting wn (record c { si_storage = record c.si_storage { locked = true } })
        c.si_storage.internal_map h,
  )

  sweep_dataplanes_waiting :
      (c : ControlPlane F) (dps : List (String × DataPlane))
      → c.data_plane_connections.locked ≡ true
      → c.si_storage.locked ≡ false
      → is_waiting (sweep_dataplanes now dps c) ≡ is_some_data_plane_stale now dps
  unfolding sweep_dataplanes deregister_dataplane lock
  sweep_dataplanes_waiting c [] h k = refl
  sweep_dataplanes_waiting c ((key, dp) ∷ dps) h k =
      ground (arith, h, k, sweep_dataplanes_waiting c dps h k)

  -- A round of fault detection for the data planes comes to its end exactly when no data plane has
  -- missed its heartbeats; otherwise it waits for ever on a lock that it holds itself.
  pub check_dataplanes_waiting :
      (c : ControlPlane F)
      → IsFree c
      → is_waiting (check_dataplanes now c)
        ≡ is_some_data_plane_stale now c.data_plane_connections.internal_map
  unfolding check_dataplanes lock
  check_dataplanes_waiting c free =
      let dps = record c.data_plane_connections { locked = true } in
      let loop =
        sweep_dataplanes_waiting (record c { data_plane_connections = dps })
          c.data_plane_connections.internal_map refl free.2 in
      ground (arith, free, loop)

  -- A round of fault detection for the worker nodes comes to its end exactly when no node has missed
  -- its heartbeats or there is no service; otherwise it waits for ever on a lock that it holds itself.
  pub check_worker_nodes_waiting :
      (c : ControlPlane F)
      → IsFree c
      → is_waiting (check_worker_nodes now c) ≡ (
          is_some_node_stale now c.ni_storage.internal_map && is_nonempty c.si_storage.internal_map)
  unfolding check_worker_nodes lock handle_failure
  check_worker_nodes_waiting c free =
      let ni = record c.ni_storage { locked = true } in
      let loop =
        sweep_outcome (record c { ni_storage = ni }) c.ni_storage.internal_map refl free.2 in
      ground (arith, free, loop)
