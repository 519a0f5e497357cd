-- ===== src/Servers/Forwarding.antt =====
-- Who serves a call that reaches some replica of the control plane
-- (api/control_plane_api_server.go).
use dirigent.Prelude.{
  ℕ, zero, suc, ◌≡◌, ◌≢◌, ◌⊎◌, refl, inl, inr, Bool, true, List, Option, some, arith, Bool-cases,
  Option-cases,
}
use dirigent.Prelude.Int.{ℤ}
use dirigent.Prelude.Results.{Result, returns, waits, panics, ◌>>=◌, Result-cases}
use dirigent.Election.{is_leader}
use dirigent.Registry.{ActionStatus, success, failure, failed_with_error}
use dirigent.Servers.{
  ApiCall, CpApiServer, HaProxyConfig, get_leader, serve, find_server, put_server, disseminate_if,
  forward,
}

failure_differs : failure ≢ success
failure_differs e = ground (arith, e)

pub error_differs : failed_with_error ≢ success
error_differs e = ground (arith, e)

module _ {F : Type 0} where
  -- The leader with this id has answered the call, and only its server and, by a configuration that
  -- is disseminated, the HAProxy of its peers have changed.
  pub record IsServedBy (reaches : ℤ → Bool) (id : ℤ) (call : ApiCall F)
      (ss ss' : List (CpApiServer F)) (status : ActionStatus) : Type 0 where
    pub before : CpApiServer F
    pub after : CpApiServer F
    pub config : Option HaProxyConfig
    pub found : find_server id ss ≡ some before
    pub leads : is_leader before.election.state ≡ true
    pub served : serve call before ≡ returns ((after, status), config)
    pub changed : ss' ≡ disseminate_if reaches before.peers config (put_server id after ss)

  -- A call that is answered was served by one replica, which leads, or it was not served at all:
  -- then nothing has changed, and it was not answered with success.
  abbrev pub IsAnswered :
      (ℤ → Bool)
      → ApiCall F
      → List (CpApiServer F)
      → Result (List (CpApiServer F) × ActionStatus)
      → Type 0
  IsAnswered reaches call ss waits = Unit
  IsAnswered reaches call ss panics = Unit
  IsAnswered reaches call ss (returns (ss', status)) =
      ((ss' ≡ ss) × (status ≢ success)) ⊎ ((id : ℤ) × IsServedBy reaches id call ss ss' status)

  served_lem :
      (reaches : ℤ → Bool) (id : ℤ) (call : ApiCall F) (ss : List (CpApiServer F))
      (s : CpApiServer F)
      → find_server id ss ≡ some s
      → is_leader s.election.state ≡ true
      → IsAnswered reaches call ss (
          serve call s >>= (λ (x : _).
            returns (disseminate_if reaches s.peers x.1 (put_server id x.0.0 ss), x.0.1)))
  served_lem reaches id call ss s f l = elim (Result-cases (serve call s)) [
    | inl (((s', status), config), e) ↦
        rw (IsAnswered, e)
          (inr (
            id,
            record {
              before = s;
              after = s';
              config = config;
              found = f;
              leads = l;
              served = e;
              changed = refl;
            },
          ))
    | inr (inl e) ↦ rw (IsAnswered, e) tt
    | inr (inr e) ↦ rw (IsAnswered, e) tt
  ]

  pub forward-IsAnswered :
      (hops : ℕ) (reaches : ℤ → Bool) (id : ℤ) (call : ApiCall F) (ss : List (CpApiServer F))
      → IsAnswered reaches call ss (forward hops reaches id call ss)
  unfolding forward
  forward-IsAnswered zero reaches id call ss = tt
  forward-IsAnswered (suc hops) reaches id call ss = elim (Option-cases (find_server id ss)) [
    | inl f ↦ rw (IsAnswered, f) (inl (refl, error_differs))
    | inr (s, f) ↦
        rw (IsAnswered, f)
          (elim (Bool-cases (is_leader s.election.state)) [
            | inl l ↦ rw (IsAnswered, l) (served_lem reaches id call ss s f l)
            | inr l ↦
                rw (IsAnswered, l)
                  (elim (Option-cases (get_leader s)) [
                    | inl g ↦ rw (IsAnswered, g) (inl (refl, failure_differs))
                    | inr (leader, g) ↦
                        rw (IsAnswered, g)
                          (elim (Bool-cases (reaches leader)) [
                            | inl r ↦
                                rw (IsAnswered, r) (forward-IsAnswered hops reaches leader call ss)
                            | inr r ↦ rw (IsAnswered, r) (inl (refl, error_differs))
                          ])
                  ])
          ])
  ]
