-- ===== src/Balancing/Tests.antt =====
-- Runs of the balancing policies on a function with two endpoints.
use dirigent.Prelude.{ℕ, ◌-◌, ◌≡◌, refl, true, false, [], ◌∷◌, some, none, get_elem?}
use dirigent.Prelude.Int.{pos}
use dirigent.Functions.{UpstreamEndpoint, FunctionMetadata}
use dirigent.Balancing.{two_indices}
use dirigent.Balancing.Dispatch.{Draws}

abbrev endpoint : ℕ → ℕ → UpstreamEndpoint
endpoint addr capacity = record {
  addr = addr;
  id = "a";
  url = "h:1";
  capacity = capacity;
  drained = false;
  draining_callback = none;
  in_flight = pos 0;
}

-- The first endpoint is busy, and has been sent two requests; the second has been sent one.
abbrev two : FunctionMetadata
two = record {
  sandbox_parallelism = 1;
  upstream_endpoints = endpoint 0 0 ∷ endpoint 1 1 ∷ [];
  active_endpoint_count = pos 2;
  queue = [];
  signals = [];
  round_robin_counter = 5;
  kubernetes_round_robin_counter = 4;
  request_count_per_instance = λ a. 2 - a;
  inflight_requests = pos 0;
  autoscaling_triggered = true;
  metrics_loops = 1;
  next_addr = 2;
}

at_first : get_elem? two.upstream_endpoints (two_indices 0 0).0 ≡ some (endpoint 0 0)
unfolding two_indices
at_first = refl

at_second : get_elem? two.upstream_endpoints (two_indices 0 0).1 ≡ some (endpoint 1 1)
unfolding two_indices
at_second = refl

abbrev draws : Draws
draws = record { first = 1; second = 0 }
