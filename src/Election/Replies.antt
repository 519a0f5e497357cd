-- ===== src/Election/Replies.antt =====
-- Terms, leadership and stale replies in
-- internal/control_plane/leader_election/consensus_module.go.
use dirigent.Prelude.{
  ℕ, ◌+◌, ◌*◌, ◌-◌, ◌<◌, ◌≤◌, ◌≡◌, ◌≢◌, ◌⊎◌, ◌↔◌, refl, Bool, true, false, List, [], ◌∷◌, ◌++◌,
  Option, none, some, arith, length,
}
use dirigent.Prelude.Int.{ℤ, pos, ◌+ℤ◌, ◌<ℤ◌, ◌≤ℤ◌, wrap32}
use dirigent.Election.{
  ConsensusModule, CmState, AnnounceLeadership, RequestVoteArgs, RequestVoteReply,
  AppendEntriesArgs, AppendEntriesReply, Election, TimerOutcome, request_vote, append_entries,
  vote_reply, heartbeat_reply, election_timer_tick, start_election, new_consensus_module,
}
use dirigent.Election.Votes.{
  Event, asks, beats, ticks, answers, acks, stops, step, Timely, wrap32_next,
}

-- A timely event never lowers a node's term.
pub term-step :
    (ev : Event) (cm : ConsensusModule)
    → Timely ev cm
    → cm.current_term ≤ℤ (step ev cm).current_term
unfolding step
term-step (asks args now) cm t = ground arith
term-step (beats args now) cm t = ground arith
term-step (ticks started timeout now) cm t = ground (arith, wrap32_next cm.current_term)
term-step (answers reply now e) cm t = ground arith
term-step (acks reply now saved) cm t = ground arith
term-step stops cm t = omega arith

-- A vote reply makes a node the leader exactly when it is a candidate, the reply grants a vote in
-- the term of the election that it belongs to, and with it the election has counted more than half
-- of the cluster; the node's term is then unchanged, and it announces itself as the leader of it.
pub vote_reply_leads :
    (reply : RequestVoteReply) (now : ℕ) (e : Election) (cm : ConsensusModule)
    → (((vote_reply reply now e cm).0.state ≡ CmState.leader) × (cm.state ≢ CmState.leader)) ↔ (
        (cm.state ≡ CmState.candidate)
        × (reply.term ≡ e.saved_current_term)
        × (reply.vote_granted ≡ true)
        × (length cm.peer_ids + 1 < (e.votes_received + 1) * 2)
        × ((vote_reply reply now e cm).0 ≡ record cm {
          state = CmState.leader;
          announced = cm.announced ++ record { is_leader = true; term = cm.current_term } ∷ [];
        }))
unfolding vote_reply
vote_reply_leads reply now e cm = (ground arith, ground arith)

-- The votes of an older election elect a node in its newer term: a candidate that has moved on to
-- another term still counts a late vote of the older election, and once these are more than half of
-- the cluster it becomes the leader in a term newer than the votes'.
pub vote_reply_stale :
    (reply : RequestVoteReply) (now : ℕ) (e : Election) (cm : ConsensusModule)
    → cm.state ≡ CmState.candidate
    → e.saved_current_term <ℤ cm.current_term
    → reply.term ≡ e.saved_current_term
    → reply.vote_granted ≡ true
    → length cm.peer_ids + 1 < (e.votes_received + 1) * 2
    → ((vote_reply reply now e cm).0.state ≡ CmState.leader)
      × (reply.term <ℤ (vote_reply reply now e cm).0.current_term)
unfolding vote_reply
vote_reply_stale reply now e cm c s r g m = ground arith

-- A late heartbeat reply sets a node's term back: if its term is newer than the heartbeat's and
-- older than the node's own, the node becomes a follower in an older term, whatever its state was.
pub heartbeat_reply_stale :
    (reply : AppendEntriesReply) (now : ℕ) (saved : ℤ) (cm : ConsensusModule)
    → saved <ℤ reply.term
    → reply.term <ℤ cm.current_term
    → ((heartbeat_reply reply now saved cm).current_term <ℤ cm.current_term)
      × ((heartbeat_reply reply now saved cm).state ≡ CmState.follower)
unfolding heartbeat_reply
heartbeat_reply_stale reply now saved cm s r = ground arith

-- A candidate that hears a heartbeat of its own term forgets that it has voted for itself, and
-- grants its vote of that term a second time, to whoever asks first.
pub append_entries_forgets_vote :
    (beat : AppendEntriesArgs) (args : RequestVoteArgs) (now later : ℕ) (cm : ConsensusModule)
    → cm.state ≡ CmState.candidate
    → beat.term ≡ cm.current_term
    → args.term ≡ cm.current_term
    → (request_vote args later (append_entries beat now cm).0).1
      ≡ some (record { term = cm.current_term; vote_granted = true })
unfolding request_vote append_entries
append_entries_forgets_vote beat args now later cm c b a = ground arith

-- A tick of an election timer starts an election exactly when the node is a follower or a
-- candidate, still in the term in which the timer began, and has heard of no leader and given no
-- vote for the timeout; the node then stands in the next term and has voted for itself.
pub election_timer_tick_elects :
    (started : ℤ) (timeout now : ℕ) (cm : ConsensusModule) (e : Election)
    → ((election_timer_tick started timeout now cm).1 ≡ TimerOutcome.elect e) ↔ (
        ((cm.state ≡ CmState.follower) ⊎ (cm.state ≡ CmState.candidate))
        × (started ≡ cm.current_term)
        × (timeout ≤ now - cm.election_reset_event)
        × (e
            ≡ record { saved_current_term = wrap32 (cm.current_term +ℤ pos 1); votes_received = 1 })
        × ((election_timer_tick started timeout now cm).0 ≡ (start_election now cm).0)
        × ((start_election now cm).0.state ≡ CmState.candidate)
        × ((start_election now cm).0.voted_for ≡ cm.id))
unfolding election_timer_tick
election_timer_tick_elects started timeout now cm e = (ground arith, ground arith)

unfoldable pub last? : List AnnounceLeadership → Option AnnounceLeadership
last? [] = none
last? (a ∷ []) = some a
last? (a ∷ b ∷ rest) = last? (b ∷ rest)

pub last?-append :
    (rest : List AnnounceLeadership) (a : AnnounceLeadership) → last? (rest ++ a ∷ []) ≡ some a
unfolding last?
last?-append [] a = refl
last?-append (b ∷ []) a = refl
last?-append (b ∷ c ∷ rest) a = last?-append (c ∷ rest) a

abbrev pub claims_leadership : Option AnnounceLeadership → Bool
claims_leadership none = false
claims_leadership (some a) = a.is_leader

-- What the node has announced last is what it is: a leader has announced itself with its term, and
-- a follower or a candidate has not, or has withdrawn it.
pub record IsAnnounced (cm : ConsensusModule) : Type 0 where
  pub leads :
      cm.state ≡ CmState.leader
      → last? cm.announced ≡ some (record { is_leader = true; term = cm.current_term })
  pub follows :
      (cm.state ≡ CmState.follower) ⊎ (cm.state ≡ CmState.candidate)
      → claims_leadership (last? cm.announced) ≡ false

pub new_consensus_module-IsAnnounced :
    (id : ℤ) (peers : List ℤ) → IsAnnounced (new_consensus_module id peers)
unfolding new_consensus_module last?
new_consensus_module-IsAnnounced id [] = ground arith
new_consensus_module-IsAnnounced id (p ∷ ps) = ground arith

abbrev withdrawal : ConsensusModule → AnnounceLeadership
withdrawal cm = record { is_leader = false; term = cm.current_term }

abbrev claim : ConsensusModule → AnnounceLeadership
claim cm = record { is_leader = true; term = cm.current_term }

-- No event breaks the agreement of a node's announcements with its role, timely or not.
pub step-IsAnnounced :
    (ev : Event) (cm : ConsensusModule) → IsAnnounced cm → IsAnnounced (step ev cm)
unfolding step
step-IsAnnounced (asks args now) cm i = ground (arith, last?-append cm.announced (withdrawal cm))
step-IsAnnounced (beats args now) cm i = ground (arith, last?-append cm.announced (withdrawal cm))
step-IsAnnounced (ticks started timeout now) cm i = ground arith
step-IsAnnounced (answers reply now e) cm i =
    ground (arith, last?-append cm.announced (withdrawal cm), last?-append cm.announced (claim cm))
step-IsAnnounced (acks reply now saved) cm i =
    ground (arith, last?-append cm.announced (withdrawal cm))
step-IsAnnounced stops cm i = ground arith
