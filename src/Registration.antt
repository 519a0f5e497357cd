-- ===== src/Registration.antt =====
-- internal/control_plane/registration_server/registration_server.go: the registration of a service by
-- an HTTP form, which Requests reads.
pub mod Forms
pub mod Replies
pub mod Tallies
mod Tests
use Prim.Native.String.{◌++◌}
use dirigent.Prelude.{
  ℕ, ◌+◌, ◌-◌, ◌%◌, ◌^◌, ◌==◌, ◌≡◌, Bool, true, false, String, List, [], ◌∷◌, Option, none, some,
  not_b, ite, if◌then◌else◌, length,
}
use dirigent.Prelude.Int.{ℤ, pos, negsuc, wrap32}
use dirigent.Prelude.Maps.{lookup}
use dirigent.Prelude.Names.{string_discrete}
use dirigent.Prelude.Results.{Result, returns, waits, panics, ◌>>=◌}
use dirigent.Autoscaling.Floats.{Float64}
use dirigent.Autoscaling.Metadata.{AutoscalingConfiguration}
use dirigent.Autoscaling.Defaults.{new_default_autoscaling_metadata}
use dirigent.Election.{is_leader}
use dirigent.Registry.{
  ServiceInfo, ActionStatus, success, failure, failed_with_error, Write, DataPlane,
}
use dirigent.Sync.{lock}
use dirigent.Servers.{CpApiServer, register_service_api, get_leader, find_server, forward}
use dirigent.Requests.{
  Parsers, Request, L4Protocol, tcp, udp, ServiceForm, Check, passes, replies, crashes, is_nonempty,
  parse_registration,
}

pub data HttpReply : Type 0 where
  reply : ℕ → String → HttpReply
  no_reply : HttpReply

-- The loop of GetLoadBalancerAddress, after so many of all the data planes.
unfoldable pub endpoint_list : (String → ℤ → String) → ℕ → ℕ → List (String × DataPlane) → String
endpoint_list address cnt len [] = ""
endpoint_list address cnt len ((key, conn) ∷ conns) =
    let delimiter = if cnt == len - 1 then "" else ";" in
    address conn.ip conn.proxy_port ++ delimiter ++ endpoint_list address (cnt + 1) len conns

module _ (ps : Parsers) {F : Type 0} where
  -- GetLoadBalancerAddress; without a load balancer there must not be peers.
  unfoldable pub get_load_balancer_address : String → CpApiServer F → Result String
  unfolding is_nonempty lock endpoint_list
  get_load_balancer_address lb_address s =
      let alone = do
        dps ← lock s.control_plane.data_plane_connections
        let conns = dps.internal_map
        returns (endpoint_list ps.address 0 (length conns) conns)
      in if is_nonempty lb_address
        then returns lb_address
        else (elim s.peers [ [] ↦ alone | p ∷ peers ↦ panics ])

  -- RegisterService at the server itself if it leads, and else at the one that it takes for the
  -- leader; `none` if it knows of none.
  unfoldable pub register_at :
      ℕ
      → (ℤ → Bool)
      → Write
      → ServiceInfo F
      → CpApiServer F
      → List (CpApiServer F)
      → Option (Result (List (CpApiServer F) × ActionStatus))
  register_at hops reaches w info s ss =
      if is_leader s.election.state
      then some (forward hops reaches s.election.id (register_service_api w info) ss)
      else (elim (get_leader s) [
        | none ↦ none
        | some leader ↦ some (
            if reaches leader
            then forward hops reaches leader (register_service_api w info) ss
            else returns (ss, failed_with_error))
      ])

  -- The reply to the answer of RegisterService; after an error nothing is written, which is a 200.
  unfoldable pub reply_to :
      String
      → CpApiServer F
      → List (CpApiServer F) × ActionStatus
      → Result (List (CpApiServer F) × HttpReply)
  unfolding get_load_balancer_address
  reply_to lb_address s (ss, success) = do
    address ← get_load_balancer_address lb_address s
    returns (ss, reply 200 address)
  reply_to lb_address s (ss, failure) = returns (ss, reply 409 "")
  reply_to lb_address s (ss, failed_with_error) = returns (ss, reply 200 "")

-- registrationHandler of the server with this id.
module _ (ps : Parsers) (fl : Float64) where
  unfoldable pub registration_handler :
      ℕ
      → (ℤ → Bool)
      → Write
      → String
      → ℤ
      → Request
      → List (CpApiServer fl.F)
      → Result (List (CpApiServer fl.F) × HttpReply)
  unfolding parse_registration register_at reply_to find_server
  registration_handler hops reaches w lb_address id r ss = elim (parse_registration ps fl r) [
    | replies status ↦ returns (ss, reply status "")
    | crashes ↦ returns (ss, no_reply)
    | passes service ↦ elim (find_server id ss) [
      | none ↦ returns (ss, no_reply)
      | some s ↦ elim (register_at ps hops reaches w service.info s ss) [
        | none ↦ returns (ss, no_reply)
        | some answer ↦ answer >>= (λ (x : _). do
          let after : CpApiServer fl.F = elim (find_server id x.0) [ none ↦ s | some s' ↦ s' ]
          reply_to ps lb_address after x)
      ]
    ]
  ]
