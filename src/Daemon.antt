-- ===== src/Daemon.antt =====
-- internal/worker_node/worker_node.go, and the heartbeat of internal/data_plane/data_plane.go: how a
-- worker node and a data plane keep in touch with the control plane, and how a worker node stops. The
-- answers of the control plane are those of a function on a state of its own, and the tries are as
-- many as fit into the time of wait.PollUntilContextCancel. `panics` ends the process.
pub mod Cleaning
use dirigent.Prelude.{
  ℕ, zero, suc, Bool, true, false, String, List, [], ◌∷◌, Option, none, some, if◌then◌else◌,
}
use dirigent.Prelude.Results.{Result, returns, panics, ◌>>=◌}

-- sandbox.RuntimeInterface, with the sandbox manager's keys: whether a deletion returns an error, and
-- the new state.
pub record RuntimeInterface : Type 1 where
  pub State : Type 0
  pub keys : State → List String
  pub delete_sandbox : String → State → Bool × State

-- An answer to a call: an error, or whether its status is a success; a nil status is `no_status`.
pub data Answer : Type 0 where
  error no_status : Answer
  status : Bool → Answer

-- What the function of a poll returns: go on, stop with success, or stop with an error.
pub data Poll : Type 0 where
  again done aborted : Poll

-- wait.PollUntilContextCancel, with the tries that are left: whether it ends with success.
unfoldable pub poll_until : {S : Type 0} → ℕ → (S → Poll × S) → S → Bool × S
poll_until zero f s = (false, s)
poll_until (suc tries) f s =
    let (p, s') = f s in
    let rest = poll_until tries f s' in
    elim p [ again ↦ rest | done ↦ (true, s') | aborted ↦ (false, s') ]

-- The function of sendInstructionToControlPlane, and that of sendHeartbeatLoop.
unfoldable pub after_instruction : Answer → Poll
after_instruction error = again
after_instruction no_status = again
after_instruction (status success) = if success then done else again

unfoldable pub after_heartbeat : Answer → Poll
after_heartbeat error = aborted
after_heartbeat no_status = again
after_heartbeat (status success) = if success then done else again

module _ {S : Type 0} (call : S → Answer × S) where
  -- sendInstructionToControlPlane; without success the process ends.
  unfoldable pub send_instruction_to_control_plane : ℕ → S → Result S
  unfolding poll_until after_instruction
  send_instruction_to_control_plane tries s =
      let (ok, s') =
        poll_until tries (λ (x : S). let (a, y) = call x in (after_instruction a, y)) s in
      if ok then returns s' else panics

  -- sendHeartbeatLoop: after a failure, the control plane that a new connection reaches, if one can be
  -- established.
  unfoldable pub send_heartbeat_loop : ℕ → Option S → S → Result S
  unfolding poll_until after_heartbeat
  send_heartbeat_loop tries connection s =
      let (ok, s') =
        poll_until tries (λ (x : S). let (a, y) = call x in (after_heartbeat a, y)) s in
      let other : Result S = elim connection [ none ↦ panics | some c ↦ returns c ] in
      if ok then returns s' else other

-- sendHeartbeatLoop of a data plane, whose proxy holds the connection: whether the data plane is
-- registered by it, and the connections that the next tries get. A connection that cannot be
-- established is nil, and the next call on it panics.
unfoldable pub register_data_plane_loop :
    ℕ → (ℕ → Bool) → (ℕ → Option ℕ) → Option ℕ → Result (Bool × Option ℕ)
register_data_plane_loop zero answers connections c = returns (false, c)
register_data_plane_loop (suc tries) answers connections none = panics
register_data_plane_loop (suc tries) answers connections (some c) =
    let next = connections 0 in
    let rest = register_data_plane_loop tries answers (λ n. connections (suc n)) next in
    if answers c then returns (true, some c) else rest

module _ (rt : RuntimeInterface) where
  -- The loop of CleanResources: an error is logged only.
  unfoldable pub delete_each : List String → rt.State → rt.State
  delete_each [] s = s
  delete_each (k ∷ ks) s = delete_each ks (rt.delete_sandbox k s).1

  unfoldable pub clean_resources : rt.State → rt.State
  unfolding delete_each
  clean_resources s = delete_each (rt.keys s) s

  -- StopWorkerNode
  unfoldable pub stop_worker_node :
      {S : Type 0} → (S → Answer × S) → ℕ → rt.State → S → Result (rt.State × S)
  unfolding clean_resources send_instruction_to_control_plane
  stop_worker_node call tries s c =
      let s' = clean_resources s in
      send_instruction_to_control_plane call tries c >>= (λ (c' : _). returns (s', c'))
