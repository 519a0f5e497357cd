-- ===== src/Registry/Synced.antt =====
-- The nodes that the control plane knows and those that it has persisted
-- (internal/control_plane/control_plane.go, reconstruction.go).
use mathlib.Core.Option
use dirigent.Prelude.{subst, ℕ, ◌≡◌, ◌≢◌, inl, inr, Option-cases, true, String, Option, some, arith}
use dirigent.Prelude.Maps.{lookup, IsMap, lookup-insert, lookup-remove, insert-IsMap, remove-IsMap}
use dirigent.Prelude.Names.{string_discrete}
use dirigent.Prelude.Results.{Result, returns}
use dirigent.Sync.{lock, unlock, set, get, remove_key, present, atomic_remove}
use dirigent.Workers.{
  WorkerNodeConfiguration, new_worker_node, set_schedulability, update_last_heartbeat,
  set_cpu_usage, set_memory_usage, get_worker_node_configuration,
}
use dirigent.Registry.{ControlPlane, ActionStatus, Write, unconfirmed, store, delete}
use dirigent.Registry.Nodes.{register_node, deregister_node, node_heartbeat, NodeHeartbeatMessage}

-- A call of a worker node.
pub data NodeCall : Type 0 where
  joins : Write → ℕ → WorkerNodeConfiguration → NodeCall
  leaves : Write → String → NodeCall
  beats : ℕ → NodeHeartbeatMessage → NodeCall

-- The write of a call is done or refused, and not lost between the two.
abbrev pub IsSettled : NodeCall → Type 0
IsSettled (joins w now info) = w ≢ unconfirmed
IsSettled (leaves w name) = w ≢ unconfirmed
IsSettled (beats now m) = Unit

module _ {F : Type 0} where
  -- The configuration of a node, as the control plane knows it.
  abbrev pub known : String → ControlPlane F → Option WorkerNodeConfiguration
  known name c =
      Option.map get_worker_node_configuration
        (lookup string_discrete name c.ni_storage.internal_map)

  -- The persistence layer holds the configuration of every known node under its name, and no other.
  pub record IsSynced (c : ControlPlane F) : Type 0 where
    pub agrees : (name : String) → known name c ≡ lookup string_discrete name c.workers
    pub is_map : IsMap string_discrete c.workers
    pub named :
        (name : String) (info : WorkerNodeConfiguration)
        → lookup string_discrete name c.workers ≡ some info
        → info.name ≡ name

  register_node-IsSynced :
      (w : Write) (now : ℕ) (info : WorkerNodeConfiguration) (c c' : ControlPlane F)
      (a : ActionStatus)
      → w ≢ unconfirmed
      → register_node w now info c ≡ returns (c', a)
      → IsSynced c
      → IsSynced c'
  unfolding register_node lock present get store atomic_remove set unlock new_worker_node
      set_schedulability get_worker_node_configuration
  register_node-IsSynced w now info c c' a u e s =
      let node = set_schedulability true (new_worker_node now info) in
      record {
        agrees = λ name. ground (
          arith,
          lookup-insert string_discrete info.name name node c.ni_storage.internal_map,
          lookup-insert string_discrete info.name name info c.workers,
          lookup-remove string_discrete info.name name c.ni_storage.internal_map,
          s.agrees name,
          s.agrees info.name,
        );
        is_map =
            ground
              (arith, insert-IsMap string_discrete info.name info c.workers s.is_map, s.is_map);
        named = λ name i l.
            ground (
              arith,
              lookup-insert string_discrete info.name name info c.workers,
              s.named name i,
              l,
            );
      }

  deregister_node-IsSynced :
      (w : Write) (gone : String) (c c' : ControlPlane F) (a : ActionStatus)
      → w ≢ unconfirmed
      → deregister_node w gone c ≡ returns (c', a)
      → IsSynced c
      → IsSynced c'
  unfolding deregister_node lock present get delete unlock remove_key get_worker_node_configuration
  deregister_node-IsSynced w gone c c' a u e s = record {
    agrees = λ name. ground (
      arith,
      lookup-remove string_discrete gone name c.ni_storage.internal_map,
      lookup-remove string_discrete gone name c.workers,
      s.agrees name,
      s.agrees gone,
    );
    is_map = ground (arith, remove-IsMap string_discrete gone c.workers s.is_map, s.is_map);
    named = λ name i l.
        ground (arith, lookup-remove string_discrete gone name c.workers, s.named name i, l);
  }

  node_heartbeat-IsSynced :
      (now : ℕ) (m : NodeHeartbeatMessage) (c : ControlPlane F)
      → IsSynced c
      → IsSynced (node_heartbeat now m c).0
  unfolding node_heartbeat get set update_last_heartbeat set_cpu_usage set_memory_usage
      set_schedulability get_worker_node_configuration
  node_heartbeat-IsSynced now m c s =
      elim (Option-cases (lookup string_discrete m.node_id c.ni_storage.internal_map)) [
        | inl n ↦ rw (node_heartbeat, get, n) s
        | inr (node, n) ↦ record {
          agrees = λ name. ground (
            arith,
            n,
            lookup-insert string_discrete m.node_id name
                (set_schedulability true (
                  set_memory_usage m.memory_usage
                    (set_cpu_usage m.cpu_usage (update_last_heartbeat now node))))
                c.ni_storage.internal_map,
            s.agrees name,
          );
          is_map = ground (arith, n, s.is_map);
          named = λ name i l. s.named name i (ground (arith, n, l));
        }
      ]

  unfoldable pub call : NodeCall → ControlPlane F → Result (ControlPlane F × ActionStatus)
  call (joins w now info) c = register_node w now info c
  call (leaves w name) c = deregister_node w name c
  call (beats now m) c = returns (node_heartbeat now m c)

  returned :
      {x : ControlPlane F × ActionStatus} {c : ControlPlane F} {a : ActionStatus}
      → returns x ≡ returns (c, a)
      → x.0 ≡ c
  returned e = cc

  -- Every call of a worker node that returns leaves the persisted nodes equal to the known ones, the
  -- failed calls included, as long as no write is left unconfirmed.
  pub call-IsSynced :
      (o : NodeCall) (c c' : ControlPlane F) (a : ActionStatus)
      → IsSettled o
      → call o c ≡ returns (c', a)
      → IsSynced c
      → IsSynced c'
  unfolding call
  call-IsSynced (joins w now info) c c' a u e s = register_node-IsSynced w now info c c' a u e s
  call-IsSynced (leaves w name) c c' a u e s = deregister_node-IsSynced w name c c' a u e s
  call-IsSynced (beats now m) c c' a u e s =
      subst IsSynced (returned e) (node_heartbeat-IsSynced now m c s)
