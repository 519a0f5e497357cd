-- ===== src/Ports/Tests.antt =====
-- Runs of the assignment of ports.
use dirigent.Prelude.{◌==◌, if◌then◌else◌, ◌≡◌, ◌≤◌, refl, [], ◌∷◌, true, false, arith}
use dirigent.Prelude.Int.{pos}
use dirigent.Ports.{validate_port, is_in_use, assign_loop, assign_random_port, unassign_port}
use dirigent.Ports.Fresh.{assign_random_port-unassign_port}

-- The second draw is a free port.
assign_random_port-unassign_port_example :
    (is_in_use 1_025 (1_024 ∷ []) ≡ false)
    × ((validate_port (pos 1_025) ≡ true)
        × ((1_024 ≤ 1_025)
            × ((is_in_use 1_025 (1_025 ∷ 1_024 ∷ []) ≡ true)
                × (unassign_port 1_025 (1_025 ∷ 1_024 ∷ []) ≡ 1_024 ∷ []))))
unfolding assign_random_port assign_loop is_in_use
assign_random_port-unassign_port_example =
    assign_random_port-unassign_port 2 (λ n. if n == 0 then 0 else 1) (1_024 ∷ [])
      (1_025 ∷ 1_024 ∷ []) 1_025 (λ n. ground arith) refl
