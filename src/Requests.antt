-- ===== src/Requests.antt =====
-- internal/control_plane/registration_server/registration_server.go: the form that registers a service.
-- strconv's functions and the text of an address are a parameter.
use dirigent.Prelude.{
  ℕ, ◌-◌, ◌%◌, ◌^◌, Bool, true, false, String, List, [], ◌∷◌, Option, none, some, ite,
  if◌then◌else◌,
}
use dirigent.Prelude.Int.{ℤ, pos, negsuc, wrap32}
use dirigent.Prelude.Maps.{lookup}
use dirigent.Prelude.Names.{string_discrete}
use dirigent.Autoscaling.Floats.{Float64}
use dirigent.Autoscaling.Defaults.{new_default_autoscaling_metadata}
use dirigent.Registry.{ServiceInfo}

pub record Parsers : Type 0 where
  pub atoi : String → Option ℤ
  pub parse_bool : String → Option Bool
  pub address : String → ℤ → String

-- http.Request: whether its method is POST and its form can be parsed, and the form.
pub record Request : Type 0 where
  pub is_post : Bool
  pub parses : Bool
  pub form : List (String × List String)

pub data L4Protocol : Type 0 where
  tcp udp : L4Protocol

-- proto.ServiceInfo with its PortMapping.
pub record ServiceForm (F : Type 0) : Type 0 where
  pub info : ServiceInfo F
  pub guest_port : ℤ
  pub protocol : L4Protocol

-- A step of the handler: it goes on with a value, or replies with a status, or panics, which ends
-- the connection without a reply.
pub data Check (A : Type 0) : Type 0 where
  passes : A → Check A
  replies : ℕ → Check A
  crashes : Check A

infixl 5 ◌>>=◌
abbrev pub ◌>>=◌ : {A B : Type 0} → Check A → (A → Check B) → Check B
passes a >>= f = f a
replies status >>= f = replies status
crashes >>= f = crashes

infixl 5 ◌>>◌
abbrev pub ◌>>◌ : {B : Type 0} → Check Unit → Check B → Check B
passes _ >> next = next
replies status >> next = replies status
crashes >> next = crashes

unfoldable pub require : Bool → ℕ → Check Unit
require b status = if b then passes tt else replies status

-- A value that strconv accepts, or 400.
abbrev pub or_bad_request : {A : Type 0} → Option A → Check A
or_bad_request none = replies 400
or_bad_request (some a) = passes a

unfoldable pub is_nonempty : String → Bool
is_nonempty s = ite (string_discrete s "") false true

-- The first value of a field, and "" without one.
unfoldable pub form_value : String → Request → String
form_value key r = elim (lookup string_discrete key r.form) [
  | none ↦ ""
  | some values ↦ elim values [ [] ↦ "" | v ∷ vs ↦ v ]
]

-- uint64(x) of an int.
unfoldable pub to_uint64 : ℤ → ℕ
to_uint64 (pos n) = n % 2 ^ 64
to_uint64 (negsuc n) = 2 ^ 64 - 1 - n % 2 ^ 64

-- r.Form[key][0], which panics on a field without a value; `none` is a field that is not there.
unfoldable pub first_value : String → Request → Check (Option String)
first_value key r = elim (lookup string_discrete key r.form) [
  | none ↦ passes none
  | some values ↦ elim values [ [] ↦ crashes | v ∷ vs ↦ passes (some v) ]
]

module _ (ps : Parsers) where
  -- The guest's port and the protocol, of the two values of a field.
  unfoldable pub parse_port_forwarding : Request → Check (ℤ × L4Protocol)
  parse_port_forwarding r = elim (lookup string_discrete "port_forwarding" r.form) [
    | none ↦ replies 400
    | some values ↦ elim values [
      | [] ↦ replies 400
      | v ∷ vs ↦ or_bad_request (ps.atoi v) >>= (λ (port : ℤ). elim vs [
        | [] ↦ crashes
        | p ∷ others ↦
            ite (string_discrete p "tcp") (passes (wrap32 port, tcp))
              (ite (string_discrete p "udp") (passes (wrap32 port, udp)) (replies 400))
      ])
    ]
  ]

  -- requested_cpu and requested_memory, which are 1 if they are not there.
  unfoldable pub parse_amount : String → Request → Check ℤ
  unfolding first_value
  parse_amount key r = first_value key r >>= (λ (v : Option String). elim v [
    | none ↦ passes (pos 1)
    | some s ↦ or_bad_request (ps.atoi s)
  ])

  unfoldable pub parse_cold_start_sweep : Request → Check Bool
  unfolding first_value
  parse_cold_start_sweep r = first_value "cold_start_sweep" r >>= (λ (v : Option String). elim v [
    | none ↦ passes false
    | some s ↦ or_bad_request (ps.parse_bool s)
  ])

  -- A bound of the scale; the default if it is empty.
  unfoldable pub parse_bound : String → Request → ℤ → Check ℤ
  unfolding form_value is_nonempty
  parse_bound key r default_bound =
      let parsed = or_bad_request (ps.atoi (form_value key r)) >>= (λ (n : ℤ). passes (wrap32 n)) in
      if is_nonempty (form_value key r) then parsed else passes default_bound

  module _ (fl : Float64) where
    -- registrationHandler, up to the call of RegisterService.
    unfoldable pub parse_registration : Request → Check (ServiceForm fl.F)
    unfolding require form_value is_nonempty parse_port_forwarding parse_amount
        parse_cold_start_sweep parse_bound to_uint64
    parse_registration r = do
      require r.is_post 405
      require r.parses 400
      require (is_nonempty (form_value "name" r)) 400
      require (is_nonempty (form_value "image" r)) 400
      (guest_port, protocol) ← parse_port_forwarding r
      cpu ← parse_amount "requested_cpu" r
      memory ← parse_amount "requested_memory" r
      sweep ← parse_cold_start_sweep r
      let config = new_default_autoscaling_metadata fl sweep
      upper ← parse_bound "scaling_upper_bound" r config.scaling_upper_bound
      lower ← parse_bound "scaling_lower_bound" r config.scaling_lower_bound
      let info : ServiceInfo fl.F = record {
        name = form_value "name" r;
        image = form_value "image" r;
        autoscaling_config = record config {
          scaling_upper_bound = upper;
          scaling_lower_bound = lower;
        };
        requested_cpu = to_uint64 cpu;
        requested_memory = to_uint64 memory;
      }
      passes (record { info = info; guest_port = guest_port; protocol = protocol })
