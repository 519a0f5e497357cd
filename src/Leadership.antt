-- ===== src/Leadership.antt =====
-- cmd/master_node/state_management/election_management.go: what the control plane does with the
-- announcements of its election module. Whether LeaderElectionServer.IsLeader() holds when the
-- monitoring starts is an argument.
pub mod Follows
mod Tests
use dirigent.Prelude.{
  ℕ, ◌+◌, ◌-◌, Bool, true, false, List, [], ◌∷◌, ◌++◌, ◌&&◌, not_b, if◌then◌else◌,
}
use dirigent.Election.{AnnounceLeadership}

-- What the control plane did: data cleaned, state reconstructed, cold-start tracing started.
pub data Action : Type 0 where
  cleaned reconstructed traced : Action

-- `stop_node_monitoring` says whether the channel is there, `monitors` is the number of monitoring
-- loops that run, `actions` what was done, oldest first.
pub record CurrentState : Type 0 where
  pub stop_node_monitoring : Bool
  pub was_leader_before : Bool
  pub monitors : ℕ
  pub actions : List Action

-- NewElectionState
unfoldable pub new_election_state : CurrentState
new_election_state = record {
  stop_node_monitoring = false;
  was_leader_before = false;
  monitors = 0;
  actions = [];
}

-- destroyStateFromPreviousElectionTerm; the message ends the monitoring loop.
unfoldable pub destroy_state_from_previous_election_term : CurrentState → CurrentState
destroy_state_from_previous_election_term s = record s {
  monitors = if s.stop_node_monitoring then s.monitors - 1 else s.monitors;
  actions = s.actions ++ Action.cleaned ∷ [];
}

-- SetCurrentControlPlaneLeader, with StartNodeMonitoringLoop, which gives no channel to a node that
-- does not lead any more.
unfoldable pub set_current_control_plane_leader : Bool → CurrentState → CurrentState
unfolding destroy_state_from_previous_election_term
set_current_control_plane_leader leads s =
    let s' = destroy_state_from_previous_election_term s in
    record s' {
      stop_node_monitoring = leads;
      was_leader_before = true;
      monitors = if leads then s'.monitors + 1 else s'.monitors;
      actions = s'.actions ++ Action.reconstructed ∷ [];
    }

unfoldable pub update_leadership : Bool → AnnounceLeadership → CurrentState → CurrentState
unfolding set_current_control_plane_leader destroy_state_from_previous_election_term
update_leadership leads a s =
    if a.is_leader && not_b s.was_leader_before
    then (let s' = set_current_control_plane_leader leads s in
        record s' { actions = s'.actions ++ Action.traced ∷ [] })
    else (let s' =
          if s.was_leader_before
          then record (destroy_state_from_previous_election_term s) { stop_node_monitoring = false }
          else s in
        record s' { was_leader_before = false })
