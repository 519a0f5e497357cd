-- ===== src/Leadership/Follows.antt =====
-- The control plane follows its election module (cmd/master_node/state_management and
-- internal/control_plane/leader_election).
use dirigent.Prelude.{
  ◌≡◌, ◌⊎◌, inr, refl, Bool, true, false, List, [], ◌∷◌, ◌++◌, ◌&&◌, not_b, arith, if◌then◌else◌,
}
use dirigent.Prelude.Int.{ℤ}
use dirigent.Election.{
  AnnounceLeadership, ConsensusModule, CmState, new_consensus_module, request_vote, append_entries,
  vote_reply, heartbeat_reply, election_timer_tick, stop,
}
use dirigent.Election.Votes.{Event, asks, beats, ticks, answers, acks, stops, step}
use dirigent.Election.Replies.{
  IsAnnounced, last?, last?-append, claims_leadership, new_consensus_module-IsAnnounced,
  step-IsAnnounced,
}
use dirigent.Leadership.{
  CurrentState, new_election_state, update_leadership, set_current_control_plane_leader,
  destroy_state_from_previous_election_term,
}

-- A monitoring loop runs exactly while its channel is kept, and only a leader keeps one.
pub record IsMonitored (s : CurrentState) : Type 0 where
  pub counts : s.monitors ≡ (if s.stop_node_monitoring then 1 else 0)
  pub leads : s.stop_node_monitoring ≡ true → s.was_leader_before ≡ true

-- No announcement leaves a second monitoring loop behind, or one on a control plane that follows.
pub update_leadership-IsMonitored :
    (leads : Bool) (a : AnnounceLeadership) (s : CurrentState)
    → IsMonitored s
    → IsMonitored (update_leadership leads a s)
unfolding update_leadership set_current_control_plane_leader
    destroy_state_from_previous_election_term
update_leadership-IsMonitored leads a s m = ground arith

-- The control plane after a list of announcements.
unfoldable pub lead :
    (AnnounceLeadership → Bool) → List AnnounceLeadership → CurrentState → CurrentState
lead leads [] s = s
lead leads (a ∷ rest) s = lead leads rest (update_leadership (leads a) a s)

lead-append :
    (leads : AnnounceLeadership → Bool) (xs : List AnnounceLeadership) (a : AnnounceLeadership)
    (s : CurrentState)
    → lead leads (xs ++ a ∷ []) s ≡ update_leadership (leads a) a (lead leads xs s)
unfolding lead
lead-append leads [] a s = refl
lead-append leads (x ∷ xs) a s = lead-append leads xs a _

was_leader-update_leadership :
    (leads : Bool) (a : AnnounceLeadership) (s : CurrentState)
    → (update_leadership leads a s).was_leader_before ≡ (a.is_leader && not_b s.was_leader_before)
unfolding update_leadership set_current_control_plane_leader
    destroy_state_from_previous_election_term
was_leader-update_leadership leads a s = ground arith

-- The control plane acts as a leader when the last announcement says so.
abbrev pub Follows : (AnnounceLeadership → Bool) → List AnnounceLeadership → Type 0
Follows leads xs =
    (lead leads xs new_election_state).was_leader_before ≡ claims_leadership (last? xs)

Follows-append :
    (leads : AnnounceLeadership → Bool) (xs : List AnnounceLeadership) (a : AnnounceLeadership)
    → Follows leads xs
    → (a.is_leader ≡ true → claims_leadership (last? xs) ≡ false)
    → Follows leads (xs ++ a ∷ [])
Follows-append leads xs a f n = ground (
  arith,
  lead-append leads xs a new_election_state,
  last?-append xs a,
  was_leader-update_leadership (leads a) a (lead leads xs new_election_state),
)

-- An announcement that the module withdraws or claims its leadership.
abbrev told : Bool → ConsensusModule → AnnounceLeadership
told b cm = record { is_leader = b; term = cm.current_term }

withdraws :
    (leads : AnnounceLeadership → Bool) (cm : ConsensusModule)
    → Follows leads cm.announced
    → Follows leads (cm.announced ++ told false cm ∷ [])
withdraws leads cm f = Follows-append leads cm.announced (told false cm) f (λ e. ground arith)

claims :
    (leads : AnnounceLeadership → Bool) (cm : ConsensusModule)
    → IsAnnounced cm
    → cm.state ≡ CmState.candidate
    → Follows leads cm.announced
    → Follows leads (cm.announced ++ told true cm ∷ [])
claims leads cm i c f = Follows-append leads cm.announced (told true cm) f (λ e. i.follows (inr c))

step-Follows :
    (leads : AnnounceLeadership → Bool) (ev : Event) (cm : ConsensusModule)
    → IsAnnounced cm
    → Follows leads cm.announced
    → Follows leads (step ev cm).announced
unfolding step request_vote append_entries vote_reply heartbeat_reply election_timer_tick stop
step-Follows leads (asks args now) cm i f = ground (arith, withdraws leads cm f)
step-Follows leads (beats args now) cm i f = ground (arith, withdraws leads cm f)
step-Follows leads (ticks started timeout now) cm i f = ground arith
step-Follows leads (answers reply now e) cm i f =
    ground
      (arith, withdraws leads cm f, (λ (c : cm.state ≡ CmState.candidate). claims leads cm i c f))
step-Follows leads (acks reply now saved) cm i f = ground (arith, withdraws leads cm f)
step-Follows leads stops cm i f = f

-- A node's module after a history of events.
unfoldable pub live : List Event → ConsensusModule → ConsensusModule
live [] cm = cm
live (ev ∷ evs) cm = live evs (step ev cm)

live-Follows :
    (leads : AnnounceLeadership → Bool) (evs : List Event) (cm : ConsensusModule)
    → IsAnnounced cm
    → Follows leads cm.announced
    → IsAnnounced (live evs cm) × Follows leads (live evs cm).announced
unfolding live
live-Follows leads [] cm i f = (i, f)
live-Follows leads (ev ∷ evs) cm i f =
    live-Follows leads evs (step ev cm) (step-IsAnnounced ev cm i) (step-Follows leads ev cm i f)

new-Follows :
    (leads : AnnounceLeadership → Bool) (id : ℤ) (peers : List ℤ)
    → Follows leads (new_consensus_module id peers).announced
unfolding new_consensus_module lead update_leadership set_current_control_plane_leader
    destroy_state_from_previous_election_term new_election_state last?
new-Follows leads id [] = refl
new-Follows leads id (p ∷ ps) = refl

-- Whatever its election module is sent, a control plane that has handled all announcements acts as
-- the leader when the module is the leader, and as a follower when it is a follower or a candidate.
pub live-was_leader :
    (leads : AnnounceLeadership → Bool) (id : ℤ) (peers : List ℤ) (evs : List Event)
    → (let cm = live evs (new_consensus_module id peers) in
        let s = lead leads cm.announced new_election_state in
        (cm.state ≡ CmState.leader → s.was_leader_before ≡ true)
        × ((cm.state ≡ CmState.follower) ⊎ (cm.state ≡ CmState.candidate)
            → s.was_leader_before ≡ false))
live-was_leader leads id peers evs =
    let (i, f) =
      live-Follows leads evs (new_consensus_module id peers)
        (new_consensus_module-IsAnnounced id peers) (new-Follows leads id peers) in
    ((λ l. ground (arith, i.leads l)), (λ l. ground (arith, i.follows l)))
