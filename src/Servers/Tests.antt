-- ===== src/Servers/Tests.antt =====
-- Runs of the replicas of the control plane.
use dirigent.Prelude.{ℕ, ◌≡◌, refl, List, [], ◌∷◌, true, false}
use dirigent.Prelude.Int.{ℤ, pos}
use dirigent.Prelude.Results.{Result, returns, waits}
use dirigent.Prelude.Maps.{lookup}
use dirigent.Prelude.Names.{string_discrete}
use dirigent.Sync.{new_structure, get, lock, unlock, present, set, atomic_remove}
use dirigent.Workers.{WorkerNodeConfiguration}
use dirigent.Election.{CmState}
use dirigent.Registry.{new_control_plane, ActionStatus, success, confirmed, store}
use dirigent.Registry.Nodes.{register_node}
use dirigent.Servers.{
  ApiCall, register_node_api, CpApiServer, is_peer, get_leader, answered, serve, find_server,
  forward,
}
use dirigent.Servers.Forwarding.{IsServedBy}
use dirigent.Servers.Followers.{followers_of, forward-followers_of}
use dirigent.Servers.Cycles.{Follows, forward_never_returns}

abbrev replica : ℤ → ℤ → CmState → ℤ → CpApiServer ℕ
replica id other state points = record {
  election = record {
    id = id;
    peer_ids = other ∷ [];
    current_term = pos 1;
    voted_for = pos 1;
    state = state;
    election_reset_event = 0;
    current_leader_id = points;
    announced = [];
    timers_launched = 1;
  };
  peers = other ∷ [];
  control_plane = new_control_plane false;
  registration_servers = [];
  load_balancer = [];
}

abbrev leader : CpApiServer ℕ
leader = replica (pos 1) (pos 2) CmState.leader (pos 0)

abbrev follower : CpApiServer ℕ
follower = replica (pos 2) (pos 1) CmState.follower (pos 1)

-- A replica that has lost its leadership and knows of an older one only.
abbrev deposed : CpApiServer ℕ
deposed = replica (pos 1) (pos 2) CmState.follower (pos 2)

abbrev worker : WorkerNodeConfiguration
worker = record { name = "w1"; ip = "10.0.0.5"; port = pos 9; cpu_cores = 1; memory = 1 }

abbrev call : ApiCall ℕ
call = register_node_api confirmed 5 worker

abbrev after : Result (List (CpApiServer ℕ) × ActionStatus) → List (CpApiServer ℕ)
after (returns x) = x.0
after _ = []

abbrev both : List (CpApiServer ℕ)
both = leader ∷ follower ∷ []

forward-followers_of_example :
    (followers_of (after (forward 2 (λ i. true) (pos 2) call both)) ≡ followers_of both)
    × (success ≡ success
        → (id : ℤ) × IsServedBy
            (λ i. true)
            id
            call
            both
            (after (forward 2 (λ i. true) (pos 2) call both))
            success)
unfolding forward find_server get_leader is_peer serve answered register_node lock unlock present
    atomic_remove set store get lookup new_control_plane new_structure string_discrete
forward-followers_of_example =
    forward-followers_of 2 (λ i. true) (pos 2) call both
      (after (forward 2 (λ i. true) (pos 2) call both)) success refl

follower-Follows : Follows (λ i. true) both (pos 2) (pos 1)
unfolding find_server get_leader is_peer
follower-Follows = record {
  server = follower;
  found = refl;
  follows = refl;
  points = refl;
  reached = refl;
}

abbrev lost : List (CpApiServer ℕ)
lost = deposed ∷ follower ∷ []

lost-Follows : Follows (λ i. true) lost (pos 2) (pos 1) × Follows (λ i. true) lost (pos 1) (pos 2)
unfolding find_server get_leader is_peer
lost-Follows = (
  record { server = follower; found = refl; follows = refl; points = refl; reached = refl },
  record { server = deposed; found = refl; follows = refl; points = refl; reached = refl },
)

forward_never_returns_example : forward 100 (λ i. true) (pos 2) call lost ≡ waits
forward_never_returns_example =
    forward_never_returns (λ i. true) lost 100 (pos 2) (pos 1) call lost-Follows.0 lost-Follows.1
