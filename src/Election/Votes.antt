-- ===== src/Election/Votes.antt =====
-- A node's history of events, the votes that it casts on the way, and when its memory of them is
-- sound (internal/control_plane/leader_election/consensus_module.go).
use dirigent.Prelude.{ℕ, ◌≡◌, ◌≢◌, ◌⊎◌, Option, none, some, arith, if◌then◌else◌}
use dirigent.Prelude.Int.{ℤ, pos, ◌+ℤ◌, ◌<ℤ◌, wrap32, IsInt32, wrap32_of_IsInt32, int_laws}
use dirigent.Election.{
  ConsensusModule, CmState, RequestVoteArgs, RequestVoteReply, AppendEntriesArgs,
  AppendEntriesReply, Election, TimerOutcome, no_vote, request_vote, append_entries, vote_reply,
  heartbeat_reply, election_timer_tick, stop,
}

pub data Event : Type 0 where
  asks : RequestVoteArgs → ℕ → Event
  beats : AppendEntriesArgs → ℕ → Event
  ticks : ℤ → ℕ → ℕ → Event
  answers : RequestVoteReply → ℕ → Election → Event
  acks : AppendEntriesReply → ℕ → ℤ → Event
  stops : Event

unfoldable pub step : Event → ConsensusModule → ConsensusModule
unfolding request_vote append_entries vote_reply heartbeat_reply election_timer_tick stop
step (asks args now) cm = (request_vote args now cm).0
step (beats args now) cm = (append_entries args now cm).0
step (ticks started timeout now) cm = (election_timer_tick started timeout now cm).0
step (answers reply now e) cm = (vote_reply reply now e cm).0
step (acks reply now saved) cm = heartbeat_reply reply now saved cm
step stops cm = stop cm

pub record Vote : Type 0 where
  pub term : ℤ
  pub candidate : ℤ

granted : RequestVoteArgs → Option RequestVoteReply → Option Vote
granted args none = none
granted args (some reply) =
    if reply.vote_granted
    then some (record { term = reply.term; candidate = args.candidate_id })
    else none

elected : ConsensusModule → TimerOutcome → Option Vote
elected cm (TimerOutcome.elect e) = some (record { term = e.saved_current_term; candidate = cm.id })
elected cm _ = none

-- The vote that an event makes the node cast: for the candidate that asks, or for itself.
unfoldable pub cast : Event → ConsensusModule → Option Vote
unfolding granted elected request_vote election_timer_tick
cast (asks args now) cm = granted args (request_vote args now cm).1
cast (ticks started timeout now) cm = elected cm (election_timer_tick started timeout now cm).1
cast _ cm = none

-- What an event must satisfy for the node to keep its memory of its vote: candidates have ids, the
-- term does not overflow, replies belong to the current term, and no heartbeat of the node's own
-- term reaches it while it is a candidate or a leader.
abbrev pub Timely : Event → ConsensusModule → Type 0
Timely (asks args now) cm = args.candidate_id ≢ no_vote
Timely (beats args now) cm = args.term ≡ cm.current_term → cm.state ≡ CmState.follower
Timely (ticks started timeout now) cm = (cm.id ≢ no_vote) × IsInt32 (cm.current_term +ℤ pos 1)
Timely (answers reply now e) cm = e.saved_current_term ≡ cm.current_term
Timely (acks reply now saved) cm = saved ≡ cm.current_term
Timely stops cm = Unit {0}

-- The node's memory of a vote: it has moved on to a newer term, or still names the candidate.
abbrev pub Settled : ConsensusModule → Vote → Type 0
Settled cm v =
    (v.term <ℤ cm.current_term)
    ⊎ ((v.term ≡ cm.current_term) × (v.candidate ≡ cm.voted_for) × (v.candidate ≢ no_vote))

pub wrap32_next : (t : ℤ) → IsInt32 (t +ℤ pos 1) → t <ℤ wrap32 (t +ℤ pos 1)
wrap32_next t h = rw (wrap32_of_IsInt32 (t +ℤ pos 1) h) (omega int_laws)

pub step-Settled :
    (ev : Event) (cm : ConsensusModule) (v : Vote)
    → Timely ev cm
    → Settled cm v
    → Settled (step ev cm) v
unfolding step
step-Settled (asks args now) cm v t s = ground arith
step-Settled (beats args now) cm v t s = ground arith
step-Settled (ticks started timeout now) cm v t s = ground (arith, wrap32_next cm.current_term)
step-Settled (answers reply now e) cm v t s = ground arith
step-Settled (acks reply now saved) cm v t s = ground arith
step-Settled stops cm v t s = s

pub cast-Settled :
    (ev : Event) (cm : ConsensusModule) (w : Vote)
    → Timely ev cm
    → cast ev cm ≡ some w
    → Settled (step ev cm) w
unfolding step cast
cast-Settled (asks args now) cm w t e = ground arith
cast-Settled (ticks started timeout now) cm w t e = ground arith
cast-Settled (beats args now) cm w t e = ground arith
cast-Settled _ cm w t e = cc

pub cast_agrees :
    (ev : Event) (cm : ConsensusModule) (v w : Vote)
    → Timely ev cm
    → Settled cm v
    → cast ev cm ≡ some w
    → w.term ≡ v.term
    → w.candidate ≡ v.candidate
unfolding cast
cast_agrees (asks args now) cm v w t s e same = ground arith
cast_agrees (ticks started timeout now) cm v w t s e same =
    ground (arith, wrap32_next cm.current_term)
cast_agrees (beats args now) cm v w t s e same = ground arith
cast_agrees _ cm v w t s e same = cc
