-- ===== src/Registration/Forms.antt =====
-- A form that spells out a service is parsed to that service
-- (internal/control_plane/registration_server/registration_server.go).
use dirigent.Prelude.{
  ℕ, ◌^◌, ◌<◌, ◌≤◌, ◌≡◌, ◌≢◌, refl, Bool, true, false, String, [], ◌∷◌, some, ite, arith,
}
use dirigent.Prelude.Int.{ℤ, pos, negsuc, pos_part, neg_part, IsInt32, wrap32_of_IsInt32}
use dirigent.Prelude.Maps.{lookup}
use dirigent.Prelude.Names.{string_discrete}
use dirigent.Autoscaling.Floats.{Float64}
use dirigent.Autoscaling.Defaults.{new_default_autoscaling_metadata}
use dirigent.Requests.{
  Parsers, Request, L4Protocol, tcp, udp, ServiceForm, Check, passes, replies, require, is_nonempty,
  form_value, first_value, to_uint64, parse_port_forwarding, parse_amount, parse_cold_start_sweep,
  parse_bound, parse_registration,
}

-- What a user asks for.
pub record Wish : Type 0 where
  pub name : String
  pub image : String
  pub guest_port : ℤ
  pub protocol : L4Protocol
  pub cpu : ℕ
  pub memory : ℕ
  pub cold_start_sweep : Bool
  pub upper_bound : ℤ
  pub lower_bound : ℤ

abbrev pub IsInt64 : ℤ → Type 0
IsInt64 a = (pos_part a < 2 ^ 63) × (neg_part a ≤ 2 ^ 63)

IsInt64-IsInt32 : (a : ℤ) → IsInt32 a → IsInt64 a
IsInt64-IsInt32 (pos n) h = (omega (arith, h.0), omega arith)
IsInt64-IsInt32 (negsuc n) h = (omega arith, omega (arith, h.1))

-- The documented behaviour of strconv, whose int has 64 bits, on the texts of numbers and of Booleans.
pub record IsParsers (ps : Parsers) (itoa : ℤ → String) : Type 0 where
  pub atoi_itoa : (n : ℤ) → IsInt64 n → ps.atoi (itoa n) ≡ some n
  pub itoa_nonempty : (n : ℤ) → itoa n ≢ ""
  pub parse_true : ps.parse_bool "true" ≡ some true
  pub parse_false : ps.parse_bool "false" ≡ some false

abbrev pub protocol_name : L4Protocol → String
protocol_name tcp = "tcp"
protocol_name udp = "udp"

abbrev pub bool_name : Bool → String
bool_name true = "true"
bool_name false = "false"

abbrev pub request_of : (ℤ → String) → Wish → Request
request_of itoa w = record {
  is_post = true;
  parses = true;
  form =
      ("name", w.name ∷ [])
      ∷ ("image", w.image ∷ [])
      ∷ ("port_forwarding", itoa w.guest_port ∷ protocol_name w.protocol ∷ [])
      ∷ ("requested_cpu", itoa (pos w.cpu) ∷ [])
      ∷ ("requested_memory", itoa (pos w.memory) ∷ [])
      ∷ ("cold_start_sweep", bool_name w.cold_start_sweep ∷ [])
      ∷ ("scaling_upper_bound", itoa w.upper_bound ∷ [])
      ∷ ("scaling_lower_bound", itoa w.lower_bound ∷ [])
      ∷ [];
}

-- Fields that fit the types of proto.ServiceInfo, and the int that the amounts are read as.
pub record IsFitting (w : Wish) : Type 0 where
  pub named : w.name ≢ ""
  pub imaged : w.image ≢ ""
  pub port : IsInt32 w.guest_port
  pub cpu : w.cpu < 2 ^ 63
  pub memory : w.memory < 2 ^ 63
  pub upper : IsInt32 w.upper_bound
  pub lower : IsInt32 w.lower_bound

nonempty_lem : (s : String) → s ≢ "" → is_nonempty s ≡ true
unfolding is_nonempty
nonempty_lem s n = ground (arith, n)

to_uint64_lem : (n : ℕ) → n < 2 ^ 63 → to_uint64 (pos n) ≡ n
unfolding to_uint64
to_uint64_lem n h = omega (arith, h)

abbrev chosen : String → ℤ → Check (ℤ × L4Protocol)
chosen p port =
    ite (string_discrete p "tcp") (passes (port, tcp))
      (ite (string_discrete p "udp") (passes (port, udp)) (replies 400))

protocol_choice : (p : L4Protocol) (port : ℤ) → chosen (protocol_name p) port ≡ passes (port, p)
unfolding string_discrete
protocol_choice tcp port = refl
protocol_choice udp port = refl

module _ (ps : Parsers) (itoa : ℤ → String) (l : IsParsers ps itoa) (w : Wish) where
  port_lem :
      IsInt32 w.guest_port
      → parse_port_forwarding ps (request_of itoa w) ≡ passes (w.guest_port, w.protocol)
  unfolding parse_port_forwarding lookup string_discrete
  port_lem h =
      rw (l.atoi_itoa w.guest_port (IsInt64-IsInt32 w.guest_port h))
        (rw (wrap32_of_IsInt32 w.guest_port h) (protocol_choice w.protocol w.guest_port))

  cpu_lem :
      w.cpu < 2 ^ 63 → parse_amount ps "requested_cpu" (request_of itoa w) ≡ passes (pos w.cpu)
  unfolding parse_amount first_value lookup string_discrete
  cpu_lem h = rw (l.atoi_itoa (pos w.cpu) (h, omega arith)) refl

  memory_lem :
      w.memory < 2 ^ 63
      → parse_amount ps "requested_memory" (request_of itoa w) ≡ passes (pos w.memory)
  unfolding parse_amount first_value lookup string_discrete
  memory_lem h = rw (l.atoi_itoa (pos w.memory) (h, omega arith)) refl

  bool_choice : (b : Bool) → ps.parse_bool (bool_name b) ≡ some b
  bool_choice true = l.parse_true
  bool_choice false = l.parse_false

  sweep_lem : parse_cold_start_sweep ps (request_of itoa w) ≡ passes w.cold_start_sweep
  unfolding parse_cold_start_sweep first_value lookup string_discrete
  sweep_lem = rw (bool_choice w.cold_start_sweep) refl

  upper_lem :
      (default_bound : ℤ)
      → IsInt32 w.upper_bound
      → parse_bound ps "scaling_upper_bound" (request_of itoa w) default_bound
        ≡ passes w.upper_bound
  unfolding parse_bound form_value lookup string_discrete
  upper_lem default_bound h =
      rw (nonempty_lem (itoa w.upper_bound) (l.itoa_nonempty w.upper_bound)) (
        rw (l.atoi_itoa w.upper_bound (IsInt64-IsInt32 w.upper_bound h))
          (rw (wrap32_of_IsInt32 w.upper_bound h) refl))

  lower_lem :
      (default_bound : ℤ)
      → IsInt32 w.lower_bound
      → parse_bound ps "scaling_lower_bound" (request_of itoa w) default_bound
        ≡ passes w.lower_bound
  unfolding parse_bound form_value lookup string_discrete
  lower_lem default_bound h =
      rw (nonempty_lem (itoa w.lower_bound) (l.itoa_nonempty w.lower_bound)) (
        rw (l.atoi_itoa w.lower_bound (IsInt64-IsInt32 w.lower_bound h))
          (rw (wrap32_of_IsInt32 w.lower_bound h) refl))

  name_lem : form_value "name" (request_of itoa w) ≡ w.name
  unfolding form_value lookup string_discrete
  name_lem = refl

  image_lem : form_value "image" (request_of itoa w) ≡ w.image
  unfolding form_value lookup string_discrete
  image_lem = refl

  abbrev pub service_of : (fl : Float64) → ServiceForm fl.F
  service_of fl = record {
    info = record {
      name = w.name;
      image = w.image;
      autoscaling_config = record (new_default_autoscaling_metadata fl w.cold_start_sweep) {
        scaling_upper_bound = w.upper_bound;
        scaling_lower_bound = w.lower_bound;
      };
      requested_cpu = w.cpu;
      requested_memory = w.memory;
    };
    guest_port = w.guest_port;
    protocol = w.protocol;
  }

  -- What a user asks for comes out of the form as it was put in, with the autoscaling's default
  -- configuration for the rest, when the name and the image are not empty, the port and the bounds
  -- of the scale fit an int32, and the cpu and the memory are below 2^63, which is what
  -- strconv.Atoi reads.
  pub parse_registration-request_of :
      (fl : Float64)
      → IsFitting w
      → parse_registration ps fl (request_of itoa w) ≡ passes (service_of fl)
  unfolding parse_registration require
  parse_registration-request_of fl f =
      let config = new_default_autoscaling_metadata fl w.cold_start_sweep in
      rw (name_lem) (
        rw (image_lem) (
          rw (nonempty_lem w.name f.named) (
            rw (nonempty_lem w.image f.imaged) (
              rw (port_lem f.port) (
                rw (cpu_lem f.cpu) (
                  rw (memory_lem f.memory) (
                    rw sweep_lem (
                      rw (upper_lem config.scaling_upper_bound f.upper) (
                        rw (lower_lem config.scaling_lower_bound f.lower) (
                          rw (to_uint64_lem w.cpu f.cpu)
                            (rw (to_uint64_lem w.memory f.memory) refl)))))))))))
