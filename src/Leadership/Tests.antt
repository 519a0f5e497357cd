-- ===== src/Leadership/Tests.antt =====
-- A node of three that is elected, and its control plane.
use dirigent.Prelude.{◌≡◌, ◌⊎◌, refl, Bool, true, false, List, [], ◌∷◌}
use dirigent.Prelude.Int.{pos, ◌+ℤ◌, wrap32, residue32, signed32}
use dirigent.Election.{
  AnnounceLeadership, CmState, new_consensus_module, election_timer_tick, vote_reply,
}
use dirigent.Election.Votes.{Event, ticks, answers, step}
use dirigent.Leadership.{CurrentState, new_election_state}
use dirigent.Leadership.Follows.{lead, live, live-was_leader}

abbrev still_leads : AnnounceLeadership → Bool
still_leads a = true

abbrev monitoring : CurrentState
monitoring = record {
  stop_node_monitoring = true;
  was_leader_before = true;
  monitors = 1;
  actions = [];
}

abbrev loss : AnnounceLeadership
loss = record { is_leader = false; term = pos 1 }

abbrev elected : List Event
elected =
    ticks (pos 0) 150 200
    ∷ answers (record { term = pos 1; vote_granted = true }) 201
        (record { saved_current_term = pos 1; votes_received = 1 })
    ∷ []

elected-leads :
    (live elected (new_consensus_module (pos 1) (pos 2 ∷ pos 3 ∷ []))).state ≡ CmState.leader
unfolding live step new_consensus_module election_timer_tick vote_reply ◌+ℤ◌ wrap32 residue32
    signed32
elected-leads = refl

live-was_leader_example :
    (let cm = live elected (new_consensus_module (pos 1) (pos 2 ∷ pos 3 ∷ [])) in
      let s = lead still_leads cm.announced new_election_state in
      (cm.state ≡ CmState.leader → s.was_leader_before ≡ true)
      × ((cm.state ≡ CmState.follower) ⊎ (cm.state ≡ CmState.candidate)
          → s.was_leader_before ≡ false))
live-was_leader_example = live-was_leader still_leads (pos 1) (pos 2 ∷ pos 3 ∷ []) elected
