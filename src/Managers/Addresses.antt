-- ===== src/Managers/Addresses.antt =====
-- The addresses of the sandboxes (internal/worker_node/managers/ip_manager.go).
use dirigent.Prelude.{
  ℕ, suc, ◌+◌, ◌*◌, ◌/◌, ◌%◌, ◌<◌, ◌≤◌, ◌≡◌, ◌==◌, ◌||◌, ◌∙◌, ℕ_discrete, dec_lt, true, none, some,
  arith, if◌then◌else◌,
}
use dirigent.Managers.{
  IpManager, get_unique_counter_value, extract_third_field, extract_fourth_field,
  generate_raw_gateway_ip, single_ip_loop, generate_single_ip,
}

raw_lem :
    (m : IpManager)
    → m.allocation_counter < 65_536
    → generate_raw_gateway_ip m
      ≡ some (
        (m.allocation_counter / 256, m.allocation_counter % 256),
        record m { allocation_counter = m.allocation_counter + 1 },
      )
unfolding generate_raw_gateway_ip get_unique_counter_value extract_third_field extract_fourth_field
raw_lem m h = ground (arith, h)

raw_exhausted : (m : IpManager) → 65_536 ≤ m.allocation_counter → generate_raw_gateway_ip m ≡ none
unfolding generate_raw_gateway_ip get_unique_counter_value
raw_exhausted m h = ground (arith, h)

-- A fresh address: its last field is neither of the reserved ones, and as a number it lies between
-- the counter before the call and the counter after it, so that two calls never give the same one.
pub record IsFresh (before after c d : ℕ) : Type 0 where
  pub third : c ≤ 255
  pub fourth_low : 1 ≤ d
  pub fourth_high : d ≤ 254
  pub above : before ≤ c * 256 + d
  pub below : c * 256 + d < after
  pub bounded : after ≤ 65_536

loop_step :
    (rounds : ℕ) (m : IpManager)
    → m.allocation_counter < 65_536
    → (let d = m.allocation_counter % 256 in
        let m' = record m { allocation_counter = m.allocation_counter + 1 } in
        single_ip_loop (suc rounds) m ≡ (
          if d == 0 || d == 255
          then single_ip_loop rounds m'
          else some ((m.allocation_counter / 256, d), m')))
unfolding single_ip_loop
loop_step rounds m h = ground (arith, raw_lem m h)

IsFresh-at :
    (before k : ℕ)
    → before ≤ k
    → k < 65_536
    → 1 ≤ k % 256
    → k % 256 ≤ 254
    → IsFresh before (k + 1) (k / 256) (k % 256)
IsFresh-at before k b h low high = record {
  third = omega (arith, h);
  fourth_low = low;
  fourth_high = high;
  above = omega (arith, b);
  below = omega arith;
  bounded = omega (arith, h);
}

-- The manager after k + 1 addresses.
abbrev at : IpManager → ℕ → IpManager
at m k = record m { allocation_counter = k }

loop_at :
    (rounds : ℕ) (m : IpManager) (k : ℕ)
    → k < 65_536
    → 1 ≤ k % 256
    → k % 256 ≤ 254
    → single_ip_loop (suc rounds) (at m k) ≡ some ((k / 256, k % 256), at m (k + 1))
loop_at rounds m k h low high = ground (arith, loop_step rounds (at m k) h, low, high)

loop_skips :
    (rounds : ℕ) (m : IpManager) (k : ℕ)
    → k < 65_536
    → (k % 256 == 0 || k % 256 == 255) ≡ true
    → single_ip_loop (suc rounds) (at m k) ≡ single_ip_loop rounds (at m (k + 1))
loop_skips rounds m k h e = ground (arith, loop_step rounds (at m k) h, e)

next_zero : (k : ℕ) → k % 256 ≡ 255 → (k + 1) % 256 ≡ 0
next_zero k z = omega (arith, z)

-- As long as fewer than 65535 counter values were used up, GenerateSingleIP gives a fresh address,
-- after three rounds of its loop at most.
pub generate_single_ip-IsFresh :
    (m : IpManager)
    → m.allocation_counter < 65_535
    → (c : ℕ) × ((d : ℕ) × ((m' : IpManager) × ((generate_single_ip m ≡ some ((c, d), m'))
            × IsFresh m.allocation_counter m'.allocation_counter c d)))
unfolding generate_single_ip
generate_single_ip-IsFresh m h =
    let k = m.allocation_counter in
    elim (ℕ_discrete (k % 256) 0) [
      | yes z ↦ (
        (k + 1) / 256,
        (
          (k + 1) % 256,
          (
            at m (k + 1 + 1),
            (
              loop_skips 2 m k (omega (arith, h)) (ground (arith, z))
                  ∙ loop_at 1 m (k + 1) (omega (arith, h, z)) (omega (arith, z)) (omega (arith, z)),
              IsFresh-at k (k + 1) (omega arith) (omega (arith, h, z)) (omega (arith, z))
                  (omega (arith, z)),
            ),
          ),
        ),
      )
      | no nz ↦ elim (ℕ_discrete (k % 256) 255) [
        | yes z ↦ (
          (k + 1 + 1) / 256,
          (
            (k + 1 + 1) % 256,
            (
              at m (k + 1 + 1 + 1),
              (
                loop_skips 2 m k (omega (arith, h)) (ground (arith, z))
                    ∙ loop_skips 1 m (k + 1) (omega (arith, h, z)) (ground (arith, next_zero k z))
                    ∙ loop_at 0 m (k + 1 + 1) (omega (arith, h, z)) (omega (arith, z))
                        (omega (arith, z)),
                IsFresh-at k (k + 1 + 1) (omega arith) (omega (arith, h, z)) (omega (arith, z))
                    (omega (arith, z)),
              ),
            ),
          ),
        )
        | no n ↦ (
          k / 256,
          (
            k % 256,
            (
              at m (k + 1),
              (
                loop_at 2 m k (omega (arith, h)) (omega (arith, nz)) (omega (arith, n)),
                IsFresh-at k k (omega arith) (omega (arith, h)) (omega (arith, nz))
                    (omega (arith, n)),
              ),
            ),
          ),
        )
      ]
    ]

last_full : (k : ℕ) → k < 65_536 → 65_535 ≤ k → k % 256 ≡ 255
last_full k l h = omega (arith, l, h)

-- Once 65535 addresses were used up, GenerateSingleIP ends the process.
pub generate_single_ip_exhausted :
    (m : IpManager) → 65_535 ≤ m.allocation_counter → generate_single_ip m ≡ none
unfolding generate_single_ip single_ip_loop
generate_single_ip_exhausted m h = elim (dec_lt m.allocation_counter 65_536) [
  | yes l ↦
      let k = m.allocation_counter in
      let skip = loop_skips 2 m k l (ground (arith, last_full k l h)) in
      skip ∙ ground (arith, raw_exhausted (at m (k + 1)) (omega (arith, h)))
  | no l ↦ ground (arith, raw_exhausted m (omega (arith, l)))
]
