-- ===== src/Ports.antt =====
-- internal/worker_node/sandbox/containerd/config_builder.go: the ports of the host that the sandboxes
-- of a worker node are reached at. `draws` gives what rand.Intn(64000) draws.
pub mod Fresh
mod Tests
use dirigent.Prelude.{
  ℕ, zero, suc, ◌+◌, ◌==◌, Bool, true, false, ◌&&◌, ◌||◌, String, List, [], ◌∷◌, Option, none, some,
  ltb, leb, not_b, if◌then◌else◌,
}
use dirigent.Prelude.Int.{ℤ, pos, leb_ℤ}

unfoldable pub l4_protocol_to_string : ℕ → String
l4_protocol_to_string number = if number == 1 then "udp" else "tcp"

unfoldable pub validate_port : ℤ → Bool
validate_port port = if leb_ℤ port (pos 0) || leb_ℤ (pos 65_536) port then false else true

unfoldable pub is_in_use : ℕ → List ℕ → Bool
is_in_use port [] = false
is_in_use port (p ∷ ps) = if p == port then true else is_in_use port ps

-- The loop of AssignRandomPort, with the rounds left.
unfoldable pub assign_loop : ℕ → (ℕ → ℕ) → List ℕ → Option ℕ
unfolding is_in_use
assign_loop zero draws ports_in_use = none
assign_loop (suc rounds) draws ports_in_use =
    let port = 1_024 + draws 0 in
    let again = assign_loop rounds (λ n. draws (suc n)) ports_in_use in
    if is_in_use port ports_in_use then again else some port

-- AssignRandomPort, if it draws a free port in the first rounds.
unfoldable pub assign_random_port : ℕ → (ℕ → ℕ) → List ℕ → Option (ℕ × List ℕ)
unfolding assign_loop
assign_random_port rounds draws ports_in_use = elim (assign_loop rounds draws ports_in_use) [
  | none ↦ none
  | some port ↦ some (port, port ∷ ports_in_use)
]

unfoldable pub unassign_port : ℕ → List ℕ → List ℕ
unassign_port port [] = []
unassign_port port (p ∷ ps) = if p == port then unassign_port port ps else p ∷ unassign_port port ps
