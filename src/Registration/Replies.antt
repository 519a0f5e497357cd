-- ===== src/Registration/Replies.antt =====
-- What a registration changes, and how it is replied to
-- (internal/control_plane/registration_server/registration_server.go).
use dirigent.Prelude.{
  ℕ, ◌≡◌, ◌⊎◌, refl, inl, inr, Bool, String, List, Option, none, some, Bool-cases, Option-cases,
  subst,
}
use dirigent.Prelude.Int.{ℤ}
use dirigent.Prelude.Results.{Result, returns, waits, panics, ◌>>=◌, Result-cases}
use dirigent.Autoscaling.Floats.{Float64}
use dirigent.Election.{is_leader}
use dirigent.Registry.{ServiceInfo, ActionStatus, success, failure, failed_with_error, Write}
use dirigent.Servers.{CpApiServer, register_service_api, get_leader, find_server}
use dirigent.Servers.Forwarding.{IsServedBy, IsAnswered, forward-IsAnswered, error_differs}
use dirigent.Registration.{
  HttpReply, reply, get_load_balancer_address, register_at, reply_to, registration_handler,
}
use dirigent.Requests.{
  Parsers, Request, ServiceForm, Check, passes, replies, crashes, parse_registration,
}

module _ (ps : Parsers) (fl : Float64) where
  -- The reply that an answer of RegisterService gives; the body of a success is an address.
  abbrev pub IsReplyTo : ActionStatus → HttpReply → Type 0
  IsReplyTo success r = (address : String) × (r ≡ reply 200 address)
  IsReplyTo failure r = r ≡ reply 409 ""
  IsReplyTo failed_with_error r = r ≡ reply 200 ""

  -- How the handler ends: nothing has changed, or the leader has been asked to register just the
  -- service of the form, and the reply is that to its answer.
  abbrev pub IsRegistered :
      (ℤ → Bool)
      → Write
      → Request
      → List (CpApiServer fl.F)
      → Result (List (CpApiServer fl.F) × HttpReply)
      → Type 0
  IsRegistered reaches w r ss waits = Unit
  IsRegistered reaches w r ss panics = Unit
  IsRegistered reaches w r ss (returns (ss', x)) =
      (ss' ≡ ss)
      ⊎ ((service : ServiceForm fl.F) × ((parse_registration ps fl r ≡ passes service)
            × ((leader : ℤ) × ((status : ActionStatus) × (IsServedBy reaches leader
                      (register_service_api w service.info) ss ss' status
                    × IsReplyTo status x)))))

  Check-cases :
      {A : Type 0} (c : Check A)
      → ((a : A) × (c ≡ passes a)) ⊎ (((status : ℕ) × (c ≡ replies status)) ⊎ (c ≡ crashes))
  Check-cases (passes a) = inl (a, refl)
  Check-cases (replies status) = inr (inl (status, refl))
  Check-cases crashes = inr (inr refl)

  abbrev IsAnsweredAt :
      (ℤ → Bool)
      → Write
      → ServiceInfo fl.F
      → List (CpApiServer fl.F)
      → Option (Result (List (CpApiServer fl.F) × ActionStatus))
      → Type 0
  IsAnsweredAt reaches w info ss none = Unit
  IsAnsweredAt reaches w info ss (some a) = IsAnswered reaches (register_service_api w info) ss a

  register_at-IsAnsweredAt :
      (hops : ℕ) (reaches : ℤ → Bool) (w : Write) (info : ServiceInfo fl.F) (s : CpApiServer fl.F)
      (ss : List (CpApiServer fl.F))
      → IsAnsweredAt reaches w info ss (register_at ps hops reaches w info s ss)
  unfolding register_at
  register_at-IsAnsweredAt hops reaches w info s ss =
      elim (Bool-cases (is_leader s.election.state)) [
        | inl l ↦
            rw (IsAnsweredAt, l)
              (forward-IsAnswered hops reaches s.election.id (register_service_api w info) ss)
        | inr l ↦
            rw (IsAnsweredAt, l)
              (elim (Option-cases (get_leader s)) [
                | inl g ↦ rw (IsAnsweredAt, g) tt
                | inr (leader, g) ↦
                    rw (IsAnsweredAt, g)
                      (elim (Bool-cases (reaches leader)) [
                        | inl r ↦
                            rw (IsAnswered, r)
                              (forward-IsAnswered hops reaches leader (register_service_api w info)
                                ss)
                        | inr r ↦ rw (IsAnswered, r) (inl (refl, error_differs))
                      ])
              ])
      ]

  replied :
      (reaches : ℤ → Bool) (w : Write) (lb : String) (r : Request) (s : CpApiServer fl.F)
      (ss ss' : List (CpApiServer fl.F)) (status : ActionStatus) (service : ServiceForm fl.F)
      → parse_registration ps fl r ≡ passes service
      → IsAnswered reaches (register_service_api w service.info) ss (returns (ss', status))
      → IsRegistered reaches w r ss (reply_to ps lb s (ss', status))
  unfolding reply_to
  replied reaches w lb r s ss ss' success service e (inl (same, refused)) = elim (refused refl) [ ]
  replied reaches w lb r s ss ss' failure service e (inl (same, refused)) = inl same
  replied reaches w lb r s ss ss' failed_with_error service e (inl (same, refused)) = inl same
  replied reaches w lb r s ss ss' failure service e (inr (leader, i)) =
      inr (service, (e, (leader, (failure, (i, refl)))))
  replied reaches w lb r s ss ss' failed_with_error service e (inr (leader, i)) =
      inr (service, (e, (leader, (failed_with_error, (i, refl)))))
  replied reaches w lb r s ss ss' success service e (inr (leader, i)) =
      elim (Result-cases (get_load_balancer_address ps lb s)) [
        | inl (address, g) ↦
            rw (IsRegistered, g) (inr (service, (e, (leader, (success, (i, (address, refl)))))))
        | inr (inl g) ↦ rw (IsRegistered, g) tt
        | inr (inr g) ↦ rw (IsRegistered, g) tt
      ]

  bound :
      (reaches : ℤ → Bool) (w : Write) (lb : String) (id : ℤ) (r : Request)
      (ss : List (CpApiServer fl.F)) (a : Result (List (CpApiServer fl.F) × ActionStatus))
      (service : ServiceForm fl.F)
      → parse_registration ps fl r ≡ passes service
      → (s : CpApiServer fl.F) → IsAnswered reaches (register_service_api w service.info) ss a
      → IsRegistered reaches w r ss (
          a >>= (λ (x : _). do
            let after : CpApiServer fl.F = elim (find_server id x.0) [ none ↦ s | some s' ↦ s' ]
            reply_to ps lb after x))
  bound reaches w lb id r ss (returns (ss', status)) service e s h =
      let after : CpApiServer fl.F = elim (find_server id ss') [ none ↦ s | some s' ↦ s' ] in
      replied reaches w lb r after ss ss' status service e h
  bound reaches w lb id r ss waits service e s h = tt
  bound reaches w lb id r ss panics service e s h = tt

  -- However the handler ends, if it does, it has changed nothing, or one replica that leads has
  -- served the registration of the service that the form describes, and the reply is that to its
  -- answer.
  pub registration_handler-IsRegistered :
      (hops : ℕ) (reaches : ℤ → Bool) (w : Write) (lb : String) (id : ℤ) (r : Request)
      (ss : List (CpApiServer fl.F))
      → IsRegistered reaches w r ss (registration_handler ps fl hops reaches w lb id r ss)
  unfolding registration_handler
  registration_handler-IsRegistered hops reaches w lb id r ss =
      elim (Check-cases (parse_registration ps fl r)) [
        | inr (inl (status, e)) ↦ rw (IsRegistered, e) (inl refl)
        | inr (inr e) ↦ rw (IsRegistered, e) (inl refl)
        | inl (service, e) ↦
            rw (IsRegistered, e)
              (elim (Option-cases (find_server id ss)) [
                | inl f ↦ rw (IsRegistered, f) (inl refl)
                | inr (s, f) ↦
                    let at = register_at ps hops reaches w service.info s ss in
                    let answered = register_at-IsAnsweredAt hops reaches w service.info s ss in
                    rw (IsRegistered, f)
                      (elim (Option-cases at) [
                        | inl g ↦ rw (IsRegistered, g) (inl refl)
                        | inr (a, g) ↦
                            let h =
                              subst (λ x. IsAnsweredAt reaches w service.info ss x) g answered in
                            rw (IsRegistered, g) (bound reaches w lb id r ss a service e s h)
                      ])
              ])
      ]
