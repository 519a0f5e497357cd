-- ===== src/Registration/Tests.antt =====
-- Runs of the registration of services.
use Prim.Native.String.{len}
use dirigent.Prelude.{
  ℕ, ◌+◌, ◌-◌, ◌*◌, ◌/◌, ◌≡◌, [], ◌∷◌, true, false, ltb, leb, arith, if◌then◌else◌, ap,
}
use dirigent.Prelude.Int.{pos, pos_part}
use dirigent.Autoscaling.Floats.{Float64}
use dirigent.Registry.{confirmed, new_control_plane}
use dirigent.Election.{ConsensusModule, CmState}
use dirigent.Servers.{CpApiServer}
use dirigent.Registration.{registration_handler}
use dirigent.Requests.{tcp, passes, parse_registration}
use dirigent.Registration.Forms.{
  Wish, IsFitting, request_of, service_of, parse_registration-request_of,
}
use dirigent.Registration.Replies.{IsRegistered, registration_handler-IsRegistered}
use dirigent.Registration.Tallies.{tally_of, tallies, tallies-IsParsers}

abbrev numbers : Float64
numbers = record {
  F = ℕ;
  of_int = pos_part;
  to_int = pos;
  add = λ a b. a + b;
  sub = λ a b. a - b;
  mul = λ a b. a * b;
  div = λ a b. a / b;
  ceil = λ a. a;
  floor = λ a. a;
  fmax = λ a b. if ltb a b then b else a;
  fmin = λ a b. if ltb a b then a else b;
  ge = λ a b. leb b a;
}

abbrev wish : Wish
wish = record {
  name = "f";
  image = "docker.io/f";
  guest_port = pos 80;
  protocol = tcp;
  cpu = 2;
  memory = 3;
  cold_start_sweep = false;
  upper_bound = pos 4;
  lower_bound = pos 1;
}

wish-IsFitting : IsFitting wish
wish-IsFitting = record {
  named = λ e. omega (arith, ap len e);
  imaged = λ e. omega (arith, ap len e);
  port = (omega arith, omega arith);
  cpu = omega arith;
  memory = omega arith;
  upper = (omega arith, omega arith);
  lower = (omega arith, omega arith);
}

parse_registration-request_of_example :
    parse_registration tallies numbers (request_of tally_of wish)
    ≡ passes (service_of tallies tally_of tallies-IsParsers wish numbers)
parse_registration-request_of_example =
    parse_registration-request_of tallies tally_of tallies-IsParsers wish numbers wish-IsFitting

abbrev leader : ConsensusModule
leader = record {
  id = pos 1;
  peer_ids = [];
  current_term = pos 1;
  voted_for = pos 1;
  state = CmState.leader;
  election_reset_event = 0;
  current_leader_id = pos 0;
  announced = [];
  timers_launched = 1;
}

abbrev server : CpApiServer ℕ
server = record {
  election = leader;
  peers = [];
  control_plane = new_control_plane false;
  registration_servers = [];
  load_balancer = [];
}

registration_handler-IsRegistered_example :
    IsRegistered tallies numbers
      (λ i. true)
      confirmed
      (request_of tally_of wish)
      (server ∷ [])
      (registration_handler tallies numbers 1
        (λ i. true)
        confirmed
        ""
        (pos 1)
        (request_of tally_of wish)
        (server ∷ []))
registration_handler-IsRegistered_example =
    registration_handler-IsRegistered tallies numbers 1 (λ i. true) confirmed "" (pos 1)
      (request_of tally_of wish) (server ∷ [])
