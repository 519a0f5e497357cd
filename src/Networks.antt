-- ===== src/Networks.antt =====
-- internal/worker_node/sandbox/firecracker/networking.go: the pool of networks for virtual machines.
-- The commands `ip` and `iptables` are a parameter, and so are the names that are built with a format
-- and the numbers that NetNSNameGenerator draws. A result `none` ends the process.
pub mod Hosts
pub mod Creation
pub mod Frames
pub mod Pools
pub mod Owners
pub mod Filling
pub mod Simple
mod Tests
use dirigent.Prelude.{
  ℕ, zero, suc, ◌+◌, ◌-◌, ◌/◌, ◌%◌, ◌==◌, Bool, true, false, String, List, [], ◌∷◌, ◌++◌, Option,
  none, some, ltb, if◌then◌else◌, length,
}
use dirigent.Prelude.Int.{ℤ, pos, negsuc, ◌+ℤ◌}
use dirigent.Managers.{
  IpManager, new_ip_manager, generate_ip_mac_pair, generate_single_ip, generate_veth,
}

-- An address that is written out, one of a network of InternalIPManager with its host, and one of
-- ExposedIPManager.
pub data Address : Type 0 where
  fixed : String → Address
  host : String → ℕ × ℕ → ℕ → Address
  single : String → ℕ × ℕ → Address

-- The commands, less `sudo`. `within` is `ip netns exec`.
pub data Command : Type 0 where
  netns_add netns_delete : String → Command
  netns_delete_all : Command
  within : String → Command → Command
  tuntap_add link_up link_del to_root : String → Command
  addr_add : Address → String → Command
  veth_add : String → String → Command
  default_via : Address → Command
  route_add : Address → Address → Command
  source_nat destination_nat : String → Address → Address → Command

-- The host: what a command answers and does, the devices that net.Interfaces lists, and, to speak of
-- its state: the namespaces, the devices of the root namespace, the ones of them whose pair has its
-- other end in a namespace, and the devices of a namespace whose pair lies in it.
pub record IpTool : Type 1 where
  pub State : Type 0
  pub run : Command → State → Bool × State
  pub interfaces : State → Option (List String)
  pub has_netns : State → String → Bool
  pub has_device : State → String → Bool
  pub holds_peer : State → String → String → Bool
  pub holds_pair : State → String → String → Bool

pub record NameFormats : Type 0 where
  pub net_ns_name : ℕ → String
  pub device_name : ℤ → String
  pub is_veth_name : String → Bool

pub record NetworkConfig : Type 0 where
  pub net_ns : String
  pub tap_device_name : String
  pub tap_mac : String
  pub tap_external_ip : Address
  pub tap_internal_ip : Address
  pub veth_host_name : String
  pub veth_internal_ip : Address
  pub veth_external_ip : Address
  pub exposed_ip : Address

-- `draws` is how many numbers NetNSNameGenerator has given; nil is `none` in the pool.
pub record NetworkPoolManager : Type 0 where
  pub internal_ip_manager : IpManager
  pub exposed_ip_manager : IpManager
  pub interface_name_generator : ℤ
  pub draws : ℕ
  pub max_network_pool_size : ℕ
  pub pool : List (Option NetworkConfig)

-- The configuration as createNetwork starts and completes it.
abbrev pub config_of : String → String → Address → Address → Address → NetworkConfig
config_of n host_side host_ip workload_ip exposed_ip = record {
  net_ns = n;
  tap_device_name = "fc-tap";
  tap_mac = "02:FC:00:00:00:00";
  tap_external_ip = fixed "169.254.0.1";
  tap_internal_ip = fixed "169.254.0.2";
  veth_host_name = host_side;
  veth_internal_ip = host_ip;
  veth_external_ip = workload_ip;
  exposed_ip = exposed_ip;
}

-- What is deleted when a command fails.
pub data Cleanup : Type 0 where
  nothing netns_only netns_and_device : Cleanup

-- The size is made a multiple of 16, and 16 at least.
unfoldable pub pool_size : ℤ → ℕ
pool_size (pos n) = if ltb (n - n % 16) 16 then 16 else n - n % 16
pool_size (negsuc n) = 16

-- NewNetworkPoolManager, before it populates the pool.
unfoldable pub empty_pool : String → String → ℤ → NetworkPoolManager
unfolding pool_size new_ip_manager
empty_pool internal_prefix external_prefix network_pool_size = record {
  internal_ip_manager = new_ip_manager internal_prefix;
  exposed_ip_manager = new_ip_manager external_prefix;
  interface_name_generator = pos 0;
  draws = 0;
  max_network_pool_size = pool_size network_pool_size;
  pool = [];
}

-- The commands of createNetwork for the TUN/TAP device, and with the one for its namespace.
unfoldable pub device_steps : String → List (Command × Cleanup)
device_steps n =
    (within n (tuntap_add "fc-tap"), netns_only)
    ∷ (within n (addr_add (fixed "169.254.0.1") "fc-tap"), netns_only)
    ∷ (within n (link_up "fc-tap"), netns_only)
    ∷ []

unfoldable pub tap_steps : String → List (Command × Cleanup)
unfolding device_steps
tap_steps n = (netns_add n, nothing) ∷ device_steps n

-- The commands of createVETHPair after the host's side has been moved, and all of them.
unfoldable pub moved_steps :
    String → String → String → Address → Address → Address → List (Command × Cleanup)
moved_steps n host_side guest_side host_ip workload_ip exposed_ip =
    (within n (addr_add workload_ip guest_side), netns_only)
    ∷ (within n (link_up guest_side), netns_only)
    ∷ (addr_add host_ip host_side, netns_and_device)
    ∷ (link_up host_side, netns_and_device)
    ∷ (within n (default_via host_ip), netns_and_device)
    ∷ (within n (source_nat guest_side (fixed "169.254.0.2") exposed_ip), netns_and_device)
    ∷ (within n (destination_nat guest_side exposed_ip (fixed "169.254.0.2")), netns_and_device)
    ∷ (route_add exposed_ip workload_ip, netns_and_device)
    ∷ []

unfoldable pub veth_steps :
    String → String → String → Address → Address → Address → List (Command × Cleanup)
unfolding moved_steps
veth_steps n host_side guest_side host_ip workload_ip exposed_ip =
    (within n (veth_add host_side guest_side), netns_only)
    ∷ (within n (to_root host_side), netns_only)
    ∷ moved_steps n host_side guest_side host_ip workload_ip exposed_ip

module _ (ip : IpTool) where
  unfoldable pub delete_device_by_name : String → ip.State → ip.State
  delete_device_by_name d s = (ip.run (link_del d) s).1

  unfoldable pub delete_network_namespace_by_name : String → ip.State → ip.State
  delete_network_namespace_by_name n s = (ip.run (netns_delete n) s).1

  unfoldable pub clean_up : Cleanup → String → String → ip.State → ip.State
  unfolding delete_device_by_name delete_network_namespace_by_name
  clean_up nothing n d s = s
  clean_up netns_only n d s = delete_network_namespace_by_name n s
  clean_up netns_and_device n d s = delete_device_by_name d (delete_network_namespace_by_name n s)

  -- The commands one after the other, up to the first that fails.
  unfoldable pub run_steps : String → String → List (Command × Cleanup) → ip.State → Bool × ip.State
  unfolding clean_up
  run_steps n d [] s = (true, s)
  run_steps n d ((c, cleanup) ∷ steps) s =
      let (ok, s') = ip.run c s in
      let rest = run_steps n d steps s' in if ok then rest else (false, clean_up cleanup n d s')

  -- The loop of DeleteUnusedNetworkDevices.
  unfoldable pub delete_veths : (String → Bool) → List String → ip.State → ip.State
  unfolding delete_device_by_name
  delete_veths is_veth [] s = s
  delete_veths is_veth (d ∷ ds) s =
      delete_veths is_veth ds (if is_veth d then delete_device_by_name d s else s)

  unfoldable pub delete_unused_network_devices : NameFormats → ip.State → Bool × ip.State
  unfolding delete_veths
  delete_unused_network_devices nf s = elim (ip.interfaces s) [
    | none ↦ (false, s)
    | some devices ↦ ip.run netns_delete_all (delete_veths nf.is_veth_name devices s)
  ]

module _ (ip : IpTool) (nf : NameFormats) (draw : ℕ → ℕ) where
  abbrev pub Pooled : Type 0
  Pooled = NetworkPoolManager × ip.State

  -- createVETHPair, and the configuration with what it returns.
  unfoldable pub create_veth_pair : String → Pooled → Option (Option NetworkConfig × Pooled)
  unfolding generate_veth veth_steps run_steps
  create_veth_pair n (np, s) =
      let (id, counter) = generate_veth np.interface_name_generator in
      let guest_side = nf.device_name id in
      let host_side = nf.device_name (id +ℤ pos 1) in
      elim (generate_ip_mac_pair np.internal_ip_manager) [
        | none ↦ none
        | some (network, internal) ↦ elim (generate_single_ip np.exposed_ip_manager) [
          | none ↦ none
          | some (address, exposed) ↦
              let host_ip = host internal.network_prefix network 1 in
              let workload_ip = host internal.network_prefix network 2 in
              let exposed_ip = single exposed.network_prefix address in
              let (ok, s') =
                run_steps ip n host_side
                  (veth_steps n host_side guest_side host_ip workload_ip exposed_ip) s in
              let np' : NetworkPoolManager = record np {
                internal_ip_manager = internal;
                exposed_ip_manager = exposed;
                interface_name_generator = counter;
              } in
              let config = config_of n host_side host_ip workload_ip exposed_ip in
              some (if ok then some config else none, (np', s'))
        ]
      ]

  -- createNetwork; an error is nil.
  unfoldable pub create_network : Pooled → Option (Option NetworkConfig × Pooled)
  unfolding create_veth_pair tap_steps run_steps
  create_network (np, s) =
      let n = nf.net_ns_name (draw np.draws) in
      let np' : NetworkPoolManager = record np { draws = np.draws + 1 } in
      let (ok, s') = run_steps ip n "" (tap_steps n) s in
      let paired = create_veth_pair n (np', s') in if ok then paired else some (none, (np', s'))

  -- The loop of populate, with the rounds left.
  unfoldable pub populate_loop : ℕ → Pooled → Option Pooled
  unfolding create_network
  populate_loop zero p = some p
  populate_loop (suc rounds) (np, s) = elim (ltb (length np.pool) np.max_network_pool_size) [
    | false ↦ some (np, s)
    | true ↦ elim (create_network (np, s)) [
      | none ↦ none
      | some (config, (np', s')) ↦
          populate_loop rounds (record np' { pool = np'.pool ++ config ∷ [] }, s')
    ]
  ]

  -- populate: as many rounds as the pool has places are enough.
  unfoldable pub populate : Pooled → Option Pooled
  unfolding populate_loop
  populate (np, s) = populate_loop np.max_network_pool_size (np, s)

  unfoldable pub new_network_pool_manager : String → String → ℤ → ip.State → Option Pooled
  unfolding empty_pool populate
  new_network_pool_manager internal_prefix external_prefix network_pool_size s =
      populate (empty_pool internal_prefix external_prefix network_pool_size, s)

  -- GetOneConfig: the configuration, whether a goroutine is started that populates the pool, and the
  -- state.
  unfoldable pub get_one_config : Pooled → Option (Option NetworkConfig × (Bool × Pooled))
  unfolding create_network
  get_one_config (np, s) = elim np.pool [
    | [] ↦ elim (create_network (np, s)) [
      | none ↦ none
      | some (none, p) ↦ some (none, (false, p))
      | some (some config, p) ↦ some (some config, (true, p))
    ]
    | config ∷ pool ↦
        let low = length np.pool == np.max_network_pool_size / 4 in
        some (config, (low, (record np { pool = pool }, s)))
  ]

  unfoldable pub give_up_network : NetworkConfig → Pooled → Pooled
  unfolding delete_device_by_name delete_network_namespace_by_name
  give_up_network config (np, s) =
      if ltb (length np.pool) np.max_network_pool_size
      then (record np { pool = np.pool ++ some config ∷ [] }, s)
      else (
        np,
        delete_device_by_name ip config.veth_host_name
            (delete_network_namespace_by_name ip config.net_ns s),
      )
