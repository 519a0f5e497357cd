-- ===== src/Election/Tests.antt =====
-- Runs of the election module on a cluster of three nodes, with the ids 1, 2 and 3.
use dirigent.Prelude.{ℕ, ◌≡◌, ◌⊎◌, refl, true, false, List, [], ◌∷◌, some, All, arith}
use dirigent.Prelude.Int.{ℤ, pos, ◌+ℤ◌, wrap32}
use dirigent.Election.{
  ConsensusModule, CmState, RequestVoteArgs, RequestVoteReply, AppendEntriesArgs, Election, no_vote,
  request_vote,
}
use dirigent.Election.Terms.{Votable, request_vote_votes}
use dirigent.Election.Votes.{asks, ticks, step, cast}
use dirigent.Election.Safety.{Node, IsTimely, history, voted, supporters, election_safety}

abbrev node : ℕ → ℤ → List ℤ → ConsensusModule
node term id peers = record {
  id = id;
  peer_ids = peers;
  current_term = pos term;
  voted_for = no_vote;
  state = CmState.follower;
  election_reset_event = 0;
  current_leader_id = pos 0;
  announced = [];
  timers_launched = 1;
}

abbrev follower_2 : ConsensusModule
follower_2 = node 4 (pos 2) (pos 1 ∷ pos 3 ∷ [])

abbrev candidate_2 : ConsensusModule
candidate_2 = record follower_2 { state = CmState.candidate; voted_for = pos 2 }

abbrev from_1 : RequestVoteArgs
from_1 = record { term = pos 5; candidate_id = pos 1 }

abbrev beat_of_4 : AppendEntriesArgs
beat_of_4 = record { term = pos 4; leader_id = pos 3 }

abbrev granted_in_4 : RequestVoteReply
granted_in_4 = record { term = pos 4; vote_granted = true }

abbrev own_election : Election
own_election = record { saved_current_term = pos 4; votes_received = 1 }

votes_for_newer :
    (request_vote from_1 7 follower_2).1 ≡ some (record { term = pos 5; vote_granted = true })
unfolding request_vote
votes_for_newer = refl

request_vote_votes_example :
    ((Votable follower_2 from_1)
      × ((request_vote from_1 7 follower_2).1 ≡ some (record { term = pos 5; vote_granted = true }))
      × ((request_vote from_1 7 follower_2).0.current_term ≡ pos 5)
      × ((request_vote from_1 7 follower_2).0.voted_for ≡ pos 1)
      × ((request_vote from_1 7 follower_2).0.election_reset_event ≡ 7))
    ⊎ ((¬ Votable follower_2 from_1)
        × ((request_vote from_1 7 follower_2).1
            ≡ some (record { term = pos 4; vote_granted = false }))
        × ((request_vote from_1 7 follower_2).0 ≡ follower_2))
request_vote_votes_example = request_vote_votes follower_2 from_1 7 (λ e. cc)

abbrev cluster : List Node
cluster =
    record { start = node 0 (pos 1) (pos 2 ∷ pos 3 ∷ []); events = ticks (pos 0) 150 200 ∷ [] }
    ∷ record {
      start = node 0 (pos 2) (pos 1 ∷ pos 3 ∷ []);
      events = asks (record { term = pos 1; candidate_id = pos 1 }) 201 ∷ [];
    }
    ∷ record {
      start = node 0 (pos 3) (pos 1 ∷ pos 2 ∷ []);
      events =
          ticks (pos 0) 150 200 ∷ asks (record { term = pos 1; candidate_id = pos 1 }) 202 ∷ [];
    }
    ∷ []

two_support : supporters (pos 1) (pos 1) cluster ≡ 2
unfolding supporters voted history step cast ◌+ℤ◌ wrap32
two_support = refl

cluster-IsTimely : All IsTimely cluster
unfolding ◌+ℤ◌ step
cluster-IsTimely = (
  (((λ e. cc), omega arith), tt),
  (((λ e. cc), tt), ((((λ e. cc), omega arith), ((λ e. cc), tt)), tt)),
)

election_safety_example : ◌≡◌ {A = ℤ} (pos 1) (pos 1)
election_safety_example =
    election_safety (pos 1) (pos 1) (pos 1) cluster cluster-IsTimely (rw two_support (omega arith))
      (rw two_support (omega arith))

abbrev candidate_of_6 : ConsensusModule
candidate_of_6 = record candidate_2 { current_term = pos 6 }
