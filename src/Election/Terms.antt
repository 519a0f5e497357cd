-- ===== src/Election/Terms.antt =====
-- What the RPC handlers of internal/control_plane/leader_election/consensus_module.go answer, and
-- how they move a node's term.
use dirigent.Prelude.{◌≡◌, ◌≢◌, ◌⊎◌, true, false, some, ℕ, arith}
use dirigent.Prelude.Int.{◌<ℤ◌, ◌≤ℤ◌}
use dirigent.Election.{
  ConsensusModule, RequestVoteArgs, AppendEntriesArgs, CmState, no_vote, request_vote,
  append_entries,
}

-- The Raft condition for a vote: the candidate's term is newer than the node's, or it is the same
-- and the node's vote of that term is free or already the candidate's.
abbrev pub Votable : ConsensusModule → RequestVoteArgs → Type 0
Votable cm args =
    (cm.current_term <ℤ args.term)
    ⊎ ((cm.current_term ≡ args.term)
        × ((cm.voted_for ≡ no_vote) ⊎ (cm.voted_for ≡ args.candidate_id)))

-- RequestVote on a live node: if the Raft condition for a vote holds, the node grants it in the
-- candidate's term, which becomes its own, remembers the candidate and restarts its election clock;
-- otherwise it refuses, answers with its own term and is left unchanged.
pub request_vote_votes :
    (cm : ConsensusModule) (args : RequestVoteArgs) (now : ℕ)
    → cm.state ≢ CmState.dead
    → ((Votable cm args)
        × ((request_vote args now cm).1 ≡ some (record { term = args.term; vote_granted = true }))
        × ((request_vote args now cm).0.current_term ≡ args.term)
        × ((request_vote args now cm).0.voted_for ≡ args.candidate_id)
        × ((request_vote args now cm).0.election_reset_event ≡ now))
      ⊎ ((¬ Votable cm args)
          × ((request_vote args now cm).1
              ≡ some (record { term = cm.current_term; vote_granted = false }))
          × ((request_vote args now cm).0 ≡ cm))
unfolding request_vote
request_vote_votes cm args now live = ground arith

-- AppendEntries on a live node: a heartbeat of an older term is refused and changes only the
-- leader's id; any other is accepted, and the node is then a follower in the heartbeat's term that
-- has just heard of its leader.
pub append_entries_follows :
    (cm : ConsensusModule) (args : AppendEntriesArgs) (now : ℕ)
    → cm.state ≢ CmState.dead
    → ((args.term <ℤ cm.current_term)
        × ((append_entries args now cm).1
            ≡ some (record { term = cm.current_term; success = false }))
        × ((append_entries args now cm).0 ≡ record cm { current_leader_id = args.leader_id }))
      ⊎ ((cm.current_term ≤ℤ args.term)
          × ((append_entries args now cm).1 ≡ some (record { term = args.term; success = true }))
          × ((append_entries args now cm).0.state ≡ CmState.follower)
          × ((append_entries args now cm).0.current_term ≡ args.term)
          × ((append_entries args now cm).0.current_leader_id ≡ args.leader_id)
          × ((append_entries args now cm).0.election_reset_event ≡ now))
unfolding append_entries
append_entries_follows cm args now live = ground arith
