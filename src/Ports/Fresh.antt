-- ===== src/Ports/Fresh.antt =====
-- A port is assigned to one sandbox at a time
-- (internal/worker_node/sandbox/containerd/config_builder.go).
use dirigent.Prelude.{
  ℕ, zero, suc, ◌+◌, ◌≤◌, ◌<◌, ◌≡◌, ◌≢◌, ◌==◌, inl, inr, true, false, List, [], ◌∷◌, none, some,
  arith, Option-cases, if◌then◌else◌,
}
use dirigent.Prelude.Int.{pos}
use dirigent.Ports.{validate_port, is_in_use, assign_loop, assign_random_port, unassign_port}

-- What the loop yields is free and in the range of the draws.
loop_free :
    (rounds : ℕ) (draws : ℕ → ℕ) (ports : List ℕ) (port : ℕ)
    → ((n : ℕ) → draws n < 64_000)
    → assign_loop rounds draws ports ≡ some port
    → (is_in_use port ports ≡ false) × ((1_024 ≤ port) × (port < 65_024))
unfolding assign_loop
loop_free zero draws ports port r e = ground (arith, e)
loop_free (suc rounds) draws ports port r e =
    ground (arith, e, r 0, loop_free rounds (λ n. draws (suc n)) ports port (λ n. r (suc n)))

pub unassign_of_free :
    (port : ℕ) (ports : List ℕ) → is_in_use port ports ≡ false → unassign_port port ports ≡ ports
unfolding unassign_port is_in_use
unassign_of_free port [] f = ground arith
unassign_of_free port (p ∷ ps) f = ground (arith, unassign_of_free port ps, f)

pub unassigned :
    (port other : ℕ) (ports : List ℕ)
    → is_in_use other (unassign_port port ports)
      ≡ (if port == other then false else is_in_use other ports)
unfolding unassign_port is_in_use
unassigned port other [] = ground arith
unassigned port other (p ∷ ps) = ground (arith, unassigned port other ps)

-- A port that is assigned was free, is valid and not one of the well-known ones, is in use from then
-- on, and unassigning it frees just this port.
pub assign_random_port-unassign_port :
    (rounds : ℕ) (draws : ℕ → ℕ) (ports ports' : List ℕ) (port : ℕ)
    → ((n : ℕ) → draws n < 64_000)
    → assign_random_port rounds draws ports ≡ some (port, ports')
    → (is_in_use port ports ≡ false)
      × ((validate_port (pos port) ≡ true)
          × ((1_024 ≤ port)
              × ((is_in_use port ports' ≡ true) × (unassign_port port ports' ≡ ports))))
unfolding assign_random_port validate_port is_in_use unassign_port
assign_random_port-unassign_port rounds draws ports ports' port r e =
    elim (Option-cases (assign_loop rounds draws ports)) [
      | inl f ↦ ground (arith, e, f)
      | inr (p, f) ↦
          ground (arith, e, f, loop_free rounds draws ports p r f, unassign_of_free p ports)
    ]

loop_returns :
    (rounds k : ℕ) (draws : ℕ → ℕ) (ports : List ℕ)
    → k < rounds
    → is_in_use (1_024 + draws k) ports ≡ false
    → assign_loop rounds draws ports ≢ none
unfolding assign_loop
loop_returns zero k draws ports low free e = omega (arith, low)
loop_returns (suc rounds) zero draws ports low free e = ground (arith, e, free)
loop_returns (suc rounds) (suc k) draws ports low free e =
    let again = loop_returns rounds k (λ n. draws (suc n)) ports (omega (arith, low)) free in
    ground (arith, e, again)

-- AssignRandomPort returns if one of its first draws is a free port.
pub assign_random_port_returns :
    (rounds k : ℕ) (draws : ℕ → ℕ) (ports : List ℕ)
    → k < rounds
    → is_in_use (1_024 + draws k) ports ≡ false
    → (port : ℕ) × (assign_random_port rounds draws ports ≡ some (port, port ∷ ports))
unfolding assign_random_port
assign_random_port_returns rounds k draws ports low free =
    elim (Option-cases (assign_loop rounds draws ports)) [
      | inl e ↦ elim (loop_returns rounds k draws ports low free e) [ ]
      | inr (port, e) ↦ (port, ground (arith, e))
    ]

pub assigned_head :
    (rounds : ℕ) (draws : ℕ → ℕ) (ports ports' : List ℕ) (port : ℕ)
    → assign_random_port rounds draws ports ≡ some (port, ports')
    → ports' ≡ port ∷ ports
unfolding assign_random_port
assigned_head rounds draws ports ports' port e = ground (arith, e)
