-- ===== src/Managers/Tests.antt =====
-- Runs of the managers.
use dirigent.Prelude.{ℕ, ◌-◌, ◌*◌, ◌^◌, ◌≡◌, some, arith, ltb}
use dirigent.Managers.{IpManager, generate_single_ip, BackoffFloats, ExponentialBackoff}
use dirigent.Managers.Addresses.{IsFresh, generate_single_ip-IsFresh}

-- The last counter whose address ends in 255 comes next.
abbrev ips : IpManager
ips = record { network_prefix = "169.254"; allocation_counter = 511 }

generate_single_ip-IsFresh_example :
    (c : ℕ) × ((d : ℕ) × ((m' : IpManager) × ((generate_single_ip ips ≡ some ((c, d), m'))
          × IsFresh 511 m'.allocation_counter c d)))
generate_single_ip-IsFresh_example = generate_single_ip-IsFresh ips (omega arith)

-- Floats that are numbers.
abbrev whole : BackoffFloats
whole = record {
  F = ℕ;
  of_nat = λ n. n;
  minus_one = 0;
  sub = λ a b. a - b;
  mul = λ a b. a * b;
  pow = λ a b. a ^ b;
  abs = λ a. a;
  gt = λ a b. ltb b a;
}

abbrev backoff : ExponentialBackoff ℕ
backoff = record { interval = 3; exponential_rate = 2; retry_number = 0; max_difference = 20 }
