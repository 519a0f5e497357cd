-- ===== src/Managers.antt =====
-- internal/worker_node/managers of a worker node: ip_manager.go, veth_name_generator.go,
-- exponential_backoff.go, process_monitor.go and sandbox_manager.go. A swap of a counter that fails is
-- repeated, so that each call of a generator is one step. `none` ends the process.
pub mod Addresses
pub mod Retries
pub mod Sandboxes
mod Tests
use dirigent.Prelude.{
  ℕ, zero, suc, ◌+◌, ◌/◌, ◌%◌, ◌==◌, Bool, true, false, String, List, [], ◌∷◌, ◌++◌, ◌||◌, Option,
  none, some, ltb, leb, if◌then◌else◌,
}
use dirigent.Prelude.Int.{ℤ, pos, ◌+ℤ◌, wrap32}
use dirigent.Prelude.Maps.{lookup, insert, remove}
use dirigent.Prelude.Names.{string_discrete}
use native.Mathlib.Decide.{ℕ_discrete}

pub record IpManager : Type 0 where
  pub network_prefix : String
  pub allocation_counter : ℕ

unfoldable pub new_ip_manager : String → IpManager
new_ip_manager network_prefix = record { network_prefix = network_prefix; allocation_counter = 0 }

unfoldable pub get_unique_counter_value : IpManager → Option (ℕ × IpManager)
get_unique_counter_value m =
    if leb 65_536 m.allocation_counter
    then none
    else some (m.allocation_counter, record m { allocation_counter = m.allocation_counter + 1 })

unfoldable pub extract_third_field : ℕ → ℕ
extract_third_field v = v / 256

unfoldable pub extract_fourth_field : ℕ → ℕ
extract_fourth_field v = v % 256

-- generateRawGatewayIP: the third and the fourth field.
unfoldable pub generate_raw_gateway_ip : IpManager → Option ((ℕ × ℕ) × IpManager)
unfolding get_unique_counter_value extract_third_field extract_fourth_field
generate_raw_gateway_ip m = elim (get_unique_counter_value m) [
  | none ↦ none
  | some (v, m') ↦
      let c = extract_third_field v in
      let d = extract_fourth_field v in
      some (if ltb 255 c || ltb 255 d then (256, 256) else (c, d), m')
]

-- The loop of GenerateSingleIP, with the rounds left. An address is its last two fields.
unfoldable pub single_ip_loop : ℕ → IpManager → Option ((ℕ × ℕ) × IpManager)
unfolding generate_raw_gateway_ip
single_ip_loop zero m = none
single_ip_loop (suc rounds) m = elim (generate_raw_gateway_ip m) [
  | none ↦ none
  | some ((c, d), m') ↦
      let again = single_ip_loop rounds m' in
      if d == 0 || d == 255 then again else some ((c, d), m')
]

-- GenerateSingleIP; three rounds are enough.
unfoldable pub generate_single_ip : IpManager → Option ((ℕ × ℕ) × IpManager)
unfolding single_ip_loop
generate_single_ip m = single_ip_loop 3 m

-- GenerateIPMACPair: the fields of the network, in which the hosts 1 and 2 are given.
unfoldable pub generate_ip_mac_pair : IpManager → Option ((ℕ × ℕ) × IpManager)
unfolding generate_raw_gateway_ip
generate_ip_mac_pair m = generate_raw_gateway_ip m

-- Generate of VETHNameGenerator: an int32.
unfoldable pub generate_veth : ℤ → ℤ × ℤ
generate_veth counter = (counter, wrap32 (counter +ℤ pos 2))

-- float64 for the back-off.
pub record BackoffFloats : Type 1 where
  pub F : Type 0
  pub of_nat : ℕ → F
  pub minus_one : F
  pub sub : F → F → F
  pub mul : F → F → F
  pub pow : F → F → F
  pub abs : F → F
  pub gt : F → F → Bool

-- RetryNumber is a float64 that counts.
pub record ExponentialBackoff (F : Type 0) : Type 0 where
  pub interval : F
  pub exponential_rate : F
  pub retry_number : ℕ
  pub max_difference : F

module _ (f : BackoffFloats) where
  unfoldable pub calculate : ExponentialBackoff f.F → ℕ → f.F
  calculate eb retry = f.mul eb.interval (f.pow eb.exponential_rate (f.of_nat retry))

  unfoldable pub next : ExponentialBackoff f.F → f.F × ExponentialBackoff f.F
  unfolding calculate
  next eb =
      let eb' : ExponentialBackoff f.F = record eb { retry_number = eb.retry_number + 1 } in
      if eb.retry_number == 0
      then (calculate eb 0, eb')
      else (let old_value = calculate eb eb.retry_number in
          let new_value = calculate eb (eb.retry_number + 1) in
          (
            if f.gt (f.abs (f.sub new_value old_value)) eb.max_difference
                then f.minus_one
                else new_value,
            eb',
          ))

-- An event of the process connector: the end of a process, or another one.
pub data ProcessEvent : Type 0 where
  exit : ℕ → ℕ → ProcessEvent
  other : ℕ → ProcessEvent

abbrev pub pid_of : ProcessEvent → ℕ
pid_of (exit pid code) = pid
pid_of (other pid) = pid

unfoldable pub extract_exit_code : ProcessEvent → ℕ
extract_exit_code (exit pid code) = (code + 128) % 4_294_967_296
extract_exit_code (other pid) = 255

-- `channels` gives the channel of a process; `sent` is what the channels were sent, oldest first.
pub record ProcessMonitor : Type 0 where
  pub notify_channels : List (ℕ × ℕ)
  pub sent : List (ℕ × ℕ)

unfoldable pub add_channel : ℕ → ℕ → ProcessMonitor → ProcessMonitor
add_channel pid channel pm = record pm {
  notify_channels = insert ℕ_discrete pid channel pm.notify_channels;
}

unfoldable pub remove_channel : ℕ → ProcessMonitor → ProcessMonitor
remove_channel pid pm = record pm { notify_channels = remove ℕ_discrete pid pm.notify_channels }

-- The loop of internalEventHandler over the events of a read, to channels that are being received
-- from.
unfoldable pub handle_events : List ProcessEvent → ProcessMonitor → ProcessMonitor
unfolding extract_exit_code
handle_events [] pm = pm
handle_events (e ∷ es) pm = elim (lookup ℕ_discrete (pid_of e) pm.notify_channels) [
  | none ↦ handle_events es pm
  | some ch ↦ handle_events es (record pm { sent = pm.sent ++ (ch, extract_exit_code e) ∷ [] })
]

-- Metadata, with what a runtime adds; a channel is a number.
pub record SandboxMetadata (R : Type 0) : Type 0 where
  pub service_name : String
  pub runtime_metadata : R
  pub host_port : ℕ
  pub ip : String
  pub guest_port : ℕ
  pub net_ns : String
  pub exit_status_channel : ℕ

pub record SandboxManager (R : Type 0) : Type 0 where
  pub metadata : List (String × SandboxMetadata R)
  pub node_name : String

-- proto.Endpoint
pub record SandboxEndpoint : Type 0 where
  pub sandbox_id : String
  pub url : String
  pub node_name : String
  pub service_name : String
  pub host_port : ℕ

unfoldable pub new_sandbox_manager : {R : Type 0} → String → SandboxManager R
new_sandbox_manager node_name = record { metadata = []; node_name = node_name }

unfoldable pub add_sandbox :
    {R : Type 0} → String → SandboxMetadata R → SandboxManager R → SandboxManager R
add_sandbox key m sm = record sm { metadata = insert string_discrete key m sm.metadata }

unfoldable pub delete_sandbox :
    {R : Type 0} → String → SandboxManager R → Option (SandboxMetadata R) × SandboxManager R
delete_sandbox key sm = elim (lookup string_discrete key sm.metadata) [
  | none ↦ (none, sm)
  | some m ↦ (some m, record sm { metadata = remove string_discrete key sm.metadata })
]

unfoldable pub endpoints_of :
    {R : Type 0} → String → List (String × SandboxMetadata R) → List SandboxEndpoint
endpoints_of node_name [] = []
endpoints_of node_name ((key, m) ∷ ms) =
    record {
      sandbox_id = key;
      url = m.ip;
      node_name = node_name;
      service_name = m.service_name;
      host_port = m.host_port;
    }
    ∷ endpoints_of node_name ms

unfoldable pub list_endpoints : {R : Type 0} → SandboxManager R → List SandboxEndpoint
unfolding endpoints_of
list_endpoints sm = endpoints_of sm.node_name sm.metadata
