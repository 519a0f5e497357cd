-- ===== src/Functions/Tests.antt =====
-- Runs of a function's metadata with one endpoint, and of that endpoint.
use dirigent.Prelude.{◌<◌, ◌^◌, ◌≡◌, refl, true, false, [], ◌∷◌, some, none, length, arith}
use dirigent.Prelude.Int.{pos, wrap32, residue32, signed32, ◌-ℤ◌}
use dirigent.Functions.{
  UpstreamEndpoint, FunctionMetadata, EndpointInfo, try_warm_start, admit, enqueue,
  trigger_autoscaling, give_back_cc_capacity,
}
use dirigent.Functions.Queue.{IsServed, arrives, run, run-IsServed}
use dirigent.Functions.Draining.{given, apply, buffered, HasBarrier, HasTokens, apply-HasBarrier}

abbrev cold : FunctionMetadata
cold = record {
  sandbox_parallelism = 1;
  upstream_endpoints = [];
  active_endpoint_count = pos 0;
  queue = 7 ∷ 8 ∷ [];
  signals = [];
  round_robin_counter = 0;
  kubernetes_round_robin_counter = 0;
  request_count_per_instance = λ a. 0;
  inflight_requests = pos 0;
  autoscaling_triggered = true;
  metrics_loops = 1;
  next_addr = 0;
}

abbrev info : EndpointInfo
info = record { id = "a"; url = "h:1" }

cold-IsServed : IsServed cold
unfolding wrap32 residue32 signed32
cold-IsServed = record { counts = refl; bounded = omega arith; waits = λ w. refl }

arrives_bound : length (run (arrives 9) cold).upstream_endpoints < 2 ^ 31
unfolding run try_warm_start admit enqueue trigger_autoscaling
arrives_bound = omega arith

run-IsServed_example : IsServed (run (arrives 9) cold)
run-IsServed_example = run-IsServed (arrives 9) cold arrives_bound cold-IsServed

abbrev idle : UpstreamEndpoint
idle = record {
  addr = 1;
  id = "a";
  url = "h:1";
  capacity = 1;
  drained = false;
  draining_callback = none;
  in_flight = pos 0;
}

-- The endpoint with its only request, while it is drained, and after that.
abbrev draining : UpstreamEndpoint
draining = record idle {
  capacity = 0;
  in_flight = pos 1;
  drained = true;
  draining_callback = some 0;
}

abbrev done : UpstreamEndpoint
done = record draining { capacity = 1; in_flight = pos 0; draining_callback = some 1 }

gives_back : apply given draining ≡ some done
unfolding apply give_back_cc_capacity wrap32 residue32 signed32 ◌-ℤ◌
gives_back = refl

draining-HasTokens : HasTokens 1 draining
draining-HasTokens = record { fits = omega arith; counts = refl }

draining-HasBarrier : HasBarrier false draining
draining-HasBarrier = record {
  open_until = refl;
  room = omega arith;
  sent = λ d f. ground (arith, f);
}

apply-HasBarrier_example :
    HasBarrier false done
    × (buffered (some 0) < buffered (some 1) → (done.in_flight ≡ pos 0) × (done.drained ≡ true))
    × (give_back_cc_capacity done ≡ none → buffered (some 1) ≡ 1)
apply-HasBarrier_example =
    apply-HasBarrier 1 given false draining done (omega arith) (λ g. omega arith) gives_back
      draining-HasTokens draining-HasBarrier
