-- ===== src/Servers/Followers.antt =====
-- What a call leaves of the replicas that do not lead (api/control_plane_api_server.go).
use dirigent.Prelude.{
  ℕ, ◌≡◌, refl, ap, ◌∙◌, inl, inr, Bool, true, false, String, List, [], ◌∷◌, Option, none, some,
  arith, Bool-cases, if◌then◌else◌, subst,
}
use dirigent.Prelude.Int.{ℤ, ◌==ℤ◌}
use dirigent.Prelude.Results.{Result, returns, waits, panics, ◌>>=◌, Result-cases}
use dirigent.Election.{ConsensusModule, is_leader}
use dirigent.Sync.{lock}
use dirigent.Registry.Nodes.{register_node, deregister_node}
use dirigent.Registry.Services.{register_service, deregister_service, on_metrics_receive}
use dirigent.Registry.Monitoring.{handle_failure}
use dirigent.Registry.DataPlanes.{register_dataplane, deregister_dataplane}
use dirigent.Registry.{
  ControlPlane, DataplaneInformation, ActionStatus, success, failure, failed_with_error,
}
use dirigent.Servers.{
  ApiCall, on_metrics_receive_api, register_node_api, deregister_node_api, node_heartbeat_api,
  register_service_api, deregister_service_api, register_dataplane_api, deregister_dataplane_api,
  report_failure_api, CpApiServer, HaProxyConfig, LoadBalancerCall, get_haproxy_config,
  change_load_balancer, answered, serve, finish_registration, finish_deregistration, find_server,
  put_server, disseminate_haproxy_config, disseminate_if, forward,
}
use dirigent.Servers.Forwarding.{IsServedBy, IsAnswered, forward-IsAnswered}

module _ {F : Type 0} where
  -- The control planes of the replicas that do not lead.
  unfoldable pub followers_of : List (CpApiServer F) → List (ControlPlane F)
  followers_of [] = []
  followers_of (s ∷ ss) =
      if is_leader s.election.state then followers_of ss else s.control_plane ∷ followers_of ss

  followers_of-disseminate_haproxy_config :
      (reaches : ℤ → Bool) (peers : List ℤ) (config : HaProxyConfig) (ss : List (CpApiServer F))
      → followers_of (disseminate_haproxy_config reaches peers config ss) ≡ followers_of ss
  unfolding followers_of disseminate_haproxy_config
  followers_of-disseminate_haproxy_config reaches peers config [] = refl
  followers_of-disseminate_haproxy_config reaches peers config (s ∷ ss) =
      ground (arith, followers_of-disseminate_haproxy_config reaches peers config ss)

  followers_of-disseminate_if :
      (reaches : ℤ → Bool) (peers : List ℤ) (config : Option HaProxyConfig)
      (ss : List (CpApiServer F))
      → followers_of (disseminate_if reaches peers config ss) ≡ followers_of ss
  followers_of-disseminate_if reaches peers none ss = refl
  followers_of-disseminate_if reaches peers (some config) ss =
      followers_of-disseminate_haproxy_config reaches peers config ss

  followers_of-put_server :
      (id : ℤ) (s s' : CpApiServer F) (ss : List (CpApiServer F))
      → find_server id ss ≡ some s
      → is_leader s.election.state ≡ true
      → is_leader s'.election.state ≡ true
      → followers_of (put_server id s' ss) ≡ followers_of ss
  unfolding followers_of find_server put_server
  followers_of-put_server id s s' [] f l l' = refl
  followers_of-put_server id s s' (t ∷ ts) f l l' = elim (Bool-cases (t.election.id ==ℤ id)) [
    | inl e ↦ ground (arith, e, f, l, l')
    | inr e ↦ ground (arith, e, f, l, l', followers_of-put_server id s s' ts)
  ]

  -- The election is none of a call's concern.
  abbrev KeepsElection :
      CpApiServer F → Result ((CpApiServer F × ActionStatus) × Option HaProxyConfig) → Type 0
  KeepsElection s waits = Unit
  KeepsElection s panics = Unit
  KeepsElection s (returns ((s', status), config)) = s'.election ≡ s.election

  kept :
      {A : Type 0} (s : CpApiServer F) (r : Result A)
      (f : A → Result ((CpApiServer F × ActionStatus) × Option HaProxyConfig))
      → ((a : A) → KeepsElection s (f a))
      → KeepsElection s (r >>= f)
  kept s (returns a) f h = h a
  kept s waits f h = tt
  kept s panics f h = tt

  answered-KeepsElection :
      (s : CpApiServer F) (r : Result (ControlPlane F × ActionStatus))
      → KeepsElection s (answered s r)
  unfolding answered
  answered-KeepsElection s (returns (c, status)) = refl
  answered-KeepsElection s waits = tt
  answered-KeepsElection s panics = tt

  kept_by_change :
      (s s1 : CpApiServer F) (call : LoadBalancerCall)
      → s1.election ≡ s.election
      → KeepsElection s
          (change_load_balancer call s1 >>= (λ (x : _). returns ((x.0, success), x.1)))
  unfolding change_load_balancer get_haproxy_config
  kept_by_change s s1 call e = elim (Result-cases (lock s1.control_plane.data_plane_connections)) [
    | inl (dps, f) ↦ rw (KeepsElection, f) e
    | inr (inl f) ↦ rw (KeepsElection, f) tt
    | inr (inr f) ↦ rw (KeepsElection, f) tt
  ]

  finished_registration :
      (info : DataplaneInformation) (s : CpApiServer F) (x : ControlPlane F × ActionStatus × Bool)
      → KeepsElection s (finish_registration info s x)
  unfolding finish_registration
  finished_registration info s (c, success, true) = refl
  finished_registration info s (c, success, false) =
      kept_by_change s (record s { control_plane = c }) _ refl
  finished_registration info s (c, failure, beat) = refl
  finished_registration info s (c, failed_with_error, beat) = refl

  finished_deregistration :
      (ip : String) (port : ℤ) (s : CpApiServer F) (x : ControlPlane F × ActionStatus)
      → KeepsElection s (finish_deregistration ip port s x)
  unfolding finish_deregistration
  finished_deregistration ip port s (c, success) =
      kept_by_change s (record s { control_plane = c }) _ refl
  finished_deregistration ip port s (c, failure) = refl
  finished_deregistration ip port s (c, failed_with_error) = refl

  serve-KeepsElection : (call : ApiCall F) (s : CpApiServer F) → KeepsElection s (serve call s)
  unfolding serve
  serve-KeepsElection (on_metrics_receive_api name m) s =
      answered-KeepsElection s (on_metrics_receive name m s.control_plane)
  serve-KeepsElection (register_node_api w now info) s =
      answered-KeepsElection s (register_node w now info s.control_plane)
  serve-KeepsElection (deregister_node_api w name) s =
      answered-KeepsElection s (deregister_node w name s.control_plane)
  serve-KeepsElection (node_heartbeat_api now m) s = refl
  serve-KeepsElection (register_service_api w info) s =
      answered-KeepsElection s (register_service w info s.control_plane)
  serve-KeepsElection (deregister_service_api w answers name) s =
      answered-KeepsElection s (deregister_service w answers name s.control_plane)
  serve-KeepsElection (register_dataplane_api w a now info) s =
      kept s (register_dataplane w a now info s.control_plane) (finish_registration info s)
        (finished_registration info s)
  serve-KeepsElection (deregister_dataplane_api w ip port) s =
      kept s (deregister_dataplane w ip s.control_plane) (finish_deregistration ip port s)
        (finished_deregistration ip port s)
  serve-KeepsElection (report_failure_api f) s =
      kept s (handle_failure (f ∷ []) s.control_plane)
        (λ (c : _). returns ((record s { control_plane = c }, success), none)) (λ c. refl)

  IsServedBy-followers_of :
      (reaches : ℤ → Bool) (id : ℤ) (call : ApiCall F) (ss ss' : List (CpApiServer F))
      (status : ActionStatus)
      → IsServedBy reaches id call ss ss' status
      → followers_of ss' ≡ followers_of ss
  IsServedBy-followers_of reaches id call ss ss' status i =
      let kept =
        subst (λ r. KeepsElection i.before r) i.served (serve-KeepsElection call i.before) in
      ap followers_of i.changed
      ∙ followers_of-disseminate_if reaches i.before.peers i.config (put_server id i.after ss)
      ∙ followers_of-put_server id i.before i.after ss i.found i.leads
          (ap (λ (e : ConsensusModule). is_leader e.state) kept ∙ i.leads)

  -- However often a call is passed on, the control planes of the replicas that do not lead stay as
  -- they are; and a call that is answered with success was served by a replica that leads.
  pub forward-followers_of :
      (hops : ℕ) (reaches : ℤ → Bool) (id : ℤ) (call : ApiCall F) (ss ss' : List (CpApiServer F))
      (status : ActionStatus)
      → forward hops reaches id call ss ≡ returns (ss', status)
      → (followers_of ss' ≡ followers_of ss)
        × (status ≡ success → (leader : ℤ) × IsServedBy reaches leader call ss ss' status)
  forward-followers_of hops reaches id call ss ss' status e =
      elim (subst (λ r. IsAnswered reaches call ss r) e
        (forward-IsAnswered hops reaches id call ss)) [
          | inl (same, refused) ↦ (ap followers_of same, λ s. elim (refused s) [ ])
          | inr (leader, i) ↦
              (IsServedBy-followers_of reaches leader call ss ss' status i, λ s. (leader, i))
        ]
