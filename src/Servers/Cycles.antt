-- ===== src/Servers/Cycles.antt =====
-- How far a call is passed on (api/control_plane_api_server.go).
use dirigent.Prelude.{ℕ, zero, suc, ◌≡◌, ◌∙◌, refl, Bool, true, false, List, some}
use dirigent.Prelude.Int.{ℤ}
use dirigent.Prelude.Results.{waits}
use dirigent.Election.{is_leader}
use dirigent.Servers.{ApiCall, CpApiServer, get_leader, find_server, forward}

module _ {F : Type 0} (reaches : ℤ → Bool) (ss : List (CpApiServer F)) where
  -- A replica that does not lead takes another one for the leader, and can reach it.
  pub record Follows (id leader : ℤ) : Type 0 where
    pub server : CpApiServer F
    pub found : find_server id ss ≡ some server
    pub follows : is_leader server.election.state ≡ false
    pub points : get_leader server ≡ some leader
    pub reached : reaches leader ≡ true

  forward-Follows :
      (hops : ℕ) (id leader : ℤ) (call : ApiCall F)
      → Follows id leader
      → forward (suc hops) reaches id call ss ≡ forward hops reaches leader call ss
  unfolding forward
  forward-Follows hops id leader call f =
      rw (forward, f.found)
        (rw (forward, f.follows) (rw (forward, f.points) (rw (forward, f.reached) refl)))

  -- Between two replicas that take each other for the leader, a call is passed on for ever.
  pub forward_never_returns :
      (hops : ℕ) (a b : ℤ) (call : ApiCall F)
      → Follows a b
      → Follows b a
      → forward hops reaches a call ss ≡ waits
  unfolding forward
  forward_never_returns zero a b call f g = refl
  forward_never_returns (suc hops) a b call f g =
      forward-Follows hops a b call f ∙ forward_never_returns hops b a call g f
