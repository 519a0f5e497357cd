-- ===== src/Election.antt =====
-- internal/control_plane/leader_election/consensus_module.go and state.go: one Raft node.
-- Every handler runs under the node's mutex, so it is a function on the node's state. A call of
-- time.Now() is the argument `now`; a send on announceLeadership is appended to `announced`, and
-- `go cm.runElectionTimer()` is counted in `timers_launched`.
pub mod Terms
pub mod Votes
pub mod Safety
pub mod Replies
mod Tests
use dirigent.Prelude.{
  ℕ, ◌+◌, ◌-◌, ◌*◌, Bool, true, false, ◌&&◌, ◌||◌, List, [], ◌∷◌, ◌++◌, Option, none, some, ltb,
  leb, not_b, length, if◌then◌else◌,
}
use dirigent.Prelude.Int.{ℤ, pos, negsuc, ◌+ℤ◌, ◌==ℤ◌, ltb_ℤ, wrap32}

pub data CmState : Type 0 where
  follower candidate leader dead : CmState

pub record AnnounceLeadership : Type 0 where
  pub is_leader : Bool
  pub term : ℤ

pub record ConsensusModule : Type 0 where
  pub id : ℤ
  pub peer_ids : List ℤ
  pub current_term : ℤ
  pub voted_for : ℤ
  pub state : CmState
  pub election_reset_event : ℕ
  pub current_leader_id : ℤ
  pub announced : List AnnounceLeadership
  pub timers_launched : ℕ

-- `votedFor` of a node that has not voted.
abbrev pub no_vote : ℤ
no_vote = negsuc 0

abbrev pub is_candidate : CmState → Bool
is_candidate CmState.candidate = true
is_candidate _ = false

abbrev pub is_follower : CmState → Bool
is_follower CmState.follower = true
is_follower _ = false

abbrev pub is_leader : CmState → Bool
is_leader CmState.leader = true
is_leader _ = false

abbrev pub is_dead : CmState → Bool
is_dead CmState.dead = true
is_dead _ = false

abbrev pub is_empty {ℓ} : {A : Type ℓ} → List A → Bool
is_empty [] = true
is_empty (_ ∷ _) = false

-- The state that NewConsensusModule returns, before the ready channel is signaled.
unfoldable pub new_consensus_module : ℤ → List ℤ → ConsensusModule
new_consensus_module id peers =
    if is_empty peers
    then record cm {
      announced = record { is_leader = true; term = pos 0 } ∷ [];
      state = CmState.leader;
    }
    else cm
  where
    cm : ConsensusModule
    cm = record {
      id = id;
      peer_ids = peers;
      current_term = pos 0;
      voted_for = no_vote;
      state = CmState.follower;
      election_reset_event = 0;
      current_leader_id = pos 0;
      announced = [];
      timers_launched = 0;
    }

-- The goroutine of NewConsensusModule, once the ready channel is signaled.
pub ready : ℕ → ConsensusModule → ConsensusModule
ready now cm = record cm { election_reset_event = now; timers_launched = cm.timers_launched + 1 }

unfoldable pub stop : ConsensusModule → ConsensusModule
stop cm = record cm { state = CmState.dead }

pub become_follower : ℤ → ℕ → ConsensusModule → ConsensusModule
become_follower term now cm = record cm {
  announced = cm.announced ++ record { is_leader = false; term = cm.current_term } ∷ [];
  state = CmState.follower;
  current_term = term;
  voted_for = no_vote;
  election_reset_event = now;
  timers_launched = cm.timers_launched + 1;
}

pub record RequestVoteArgs : Type 0 where
  pub term : ℤ
  pub candidate_id : ℤ

pub record RequestVoteReply : Type 0 where
  pub term : ℤ
  pub vote_granted : Bool

pub record AppendEntriesArgs : Type 0 where
  pub term : ℤ
  pub leader_id : ℤ

pub record AppendEntriesReply : Type 0 where
  pub term : ℤ
  pub success : Bool

-- The part of RequestVote after the term has been brought up to date.
pub decide_vote : RequestVoteArgs → ℕ → ConsensusModule → ConsensusModule × RequestVoteReply
decide_vote args now cm =
    if cm.current_term ==ℤ args.term
      && (cm.voted_for ==ℤ no_vote || cm.voted_for ==ℤ args.candidate_id)
    then (
      record cm { voted_for = args.candidate_id; election_reset_event = now },
      record { term = cm.current_term; vote_granted = true },
    )
    else (cm, record { term = cm.current_term; vote_granted = false })

-- RequestVote; a dead node answers with no reply.
unfoldable pub request_vote :
    RequestVoteArgs → ℕ → ConsensusModule → ConsensusModule × Option RequestVoteReply
unfolding decide_vote become_follower
request_vote args now cm =
    if is_dead cm.state
    then (cm, none)
    else (let (cm', reply) =
          decide_vote args now
            (if ltb_ℤ cm.current_term args.term then become_follower args.term now cm else cm) in
        (cm', some reply))

-- The part of AppendEntries after the term has been brought up to date and the leader noted.
pub acknowledge : AppendEntriesArgs → ℕ → ConsensusModule → ConsensusModule × AppendEntriesReply
unfolding become_follower
acknowledge args now cm =
    if args.term ==ℤ cm.current_term
    then (let cm' = if not_b (is_follower cm.state) then become_follower args.term now cm else cm in
        (
          record cm' { election_reset_event = now },
          record { term = cm'.current_term; success = true },
        ))
    else (cm, record { term = cm.current_term; success = false })

unfoldable pub append_entries :
    AppendEntriesArgs → ℕ → ConsensusModule → ConsensusModule × Option AppendEntriesReply
unfolding acknowledge become_follower
append_entries args now cm =
    if is_dead cm.state
    then (cm, none)
    else (let up =
          if ltb_ℤ cm.current_term args.term then become_follower args.term now cm else cm in
        let (cm', reply) =
          acknowledge args now (record up { current_leader_id = args.leader_id }) in
        (cm', some reply))

-- What one call of startElection shares with its reply handlers.
pub record Election : Type 0 where
  pub saved_current_term : ℤ
  pub votes_received : ℕ

pub start_election : ℕ → ConsensusModule → ConsensusModule × Election
start_election now cm =
    let term = wrap32 (cm.current_term +ℤ pos 1) in
    (
      record cm {
        state = CmState.candidate;
        current_term = term;
        election_reset_event = now;
        voted_for = cm.id;
        timers_launched = cm.timers_launched + 1;
      },
      record { saved_current_term = term; votes_received = 1 },
    )

pub start_leader : ConsensusModule → ConsensusModule
start_leader cm = record cm {
  state = CmState.leader;
  announced = cm.announced ++ record { is_leader = true; term = cm.current_term } ∷ [];
}

-- The goroutine of startElection that has received a reply from a peer.
unfoldable pub vote_reply :
    RequestVoteReply → ℕ → Election → ConsensusModule → ConsensusModule × Election
unfolding become_follower start_leader
vote_reply reply now e cm =
    if not_b (is_candidate cm.state)
    then (cm, e)
    else if ltb_ℤ e.saved_current_term reply.term
    then (become_follower reply.term now cm, e)
    else if reply.term ==ℤ e.saved_current_term && reply.vote_granted
    then (let e' = record e { votes_received = e.votes_received + 1 } in
        (if ltb (length cm.peer_ids + 1) (e'.votes_received * 2) then start_leader cm else cm, e'))
    else (cm, e)

-- leaderSendHeartbeats: the messages for the peers, if the node is still the leader.
pub leader_send_heartbeats : ConsensusModule → Option AppendEntriesArgs
leader_send_heartbeats cm =
    if is_leader cm.state then some (record { term = cm.current_term; leader_id = cm.id }) else none

-- The goroutine of leaderSendHeartbeats that has received a reply to a heartbeat of term `saved`.
unfoldable pub heartbeat_reply : AppendEntriesReply → ℕ → ℤ → ConsensusModule → ConsensusModule
unfolding become_follower
heartbeat_reply reply now saved cm =
    if ltb_ℤ saved reply.term then become_follower reply.term now cm else cm

-- One tick of the loop of runElectionTimer, for a timer that began in term `term_started`.
pub data TimerOutcome : Type 0 where
  bail_out keep_waiting : TimerOutcome
  elect : Election → TimerOutcome

unfoldable pub election_timer_tick : ℤ → ℕ → ℕ → ConsensusModule → ConsensusModule × TimerOutcome
unfolding start_election
election_timer_tick term_started timeout now cm =
    if not_b (is_candidate cm.state) && not_b (is_follower cm.state)
    then (cm, bail_out)
    else if not_b (term_started ==ℤ cm.current_term)
    then (cm, bail_out)
    else if leb timeout (now - cm.election_reset_event)
    then (let (cm', e) = start_election now cm in (cm', elect e))
    else (cm, keep_waiting)

-- electionTimeout, in milliseconds: `forced` is the test on RAFT_FORCE_MORE_REELECTION and a draw,
-- `draw` the value of rand.Intn(150).
pub election_timeout : Bool → ℕ → ℕ
election_timeout forced draw = if forced then 150 else 150 + draw

-- Report
pub report : ConsensusModule → ℤ × ℤ × Bool
report cm = (cm.id, cm.current_term, is_leader cm.state)
