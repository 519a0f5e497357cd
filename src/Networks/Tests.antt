-- ===== src/Networks/Tests.antt =====
-- Runs of the pool of networks.
use dirigent.Prelude.{
  ◌+◌, ◌%◌, ◌≤◌, ◌<◌, ◌≡◌, ◌==◌, max, [], ◌∷◌, true, false, some, length, arith, if◌then◌else◌, ite,
}
use dirigent.Prelude.Int.{pos}
use dirigent.Prelude.Names.{string_discrete}
use dirigent.Networks.{
  NameFormats, NetworkConfig, NetworkPoolManager, config_of, host, single, create_network,
  new_network_pool_manager, give_up_network,
}
use dirigent.Networks.Creation.{HasCreated, create_network-IsWhole}
use dirigent.Networks.Pools.{IsSound, count_of}
use dirigent.Networks.Owners.{gives, done, next, Steps-IsSound}
use dirigent.Networks.Filling.{new_network_pool_manager-IsFull}
use dirigent.Networks.Frames.{StaysLocal, create_network-IsLocal}
use dirigent.Networks.Simple.{Tables, simple, simple-IsIpTool, simple-Deletes}

abbrev names : NameFormats
names = record {
  net_ns_name = λ n. if n == 0 then "firecracker-0" else "firecracker-1";
  device_name = λ id. "fc-0-veth";
  is_veth_name = λ d. true;
}

abbrev bare : Tables
bare = record { netns = λ n. false; device = λ d. false; peer = λ n d. false; pair = λ n d. false }

abbrev pool : NetworkPoolManager
pool = record {
  internal_ip_manager = record { network_prefix = "10"; allocation_counter = 0 };
  exposed_ip_manager = record { network_prefix = "192.168"; allocation_counter = 0 };
  interface_name_generator = pos 0;
  draws = 0;
  max_network_pool_size = 1;
  pool = [];
}

-- A host that refuses the last command, the one for the route.
create_network-IsWhole_example :
    HasCreated
      (simple false)
      (simple-IsIpTool false)
      (simple-Deletes false)
      bare
      (create_network (simple false) names (λ n. n) (pool, bare))
create_network-IsWhole_example =
    create_network-IsWhole (simple false) (simple-IsIpTool false) (simple-Deletes false) names
      (λ n. n) pool bare

create_network-IsLocal_example :
    StaysLocal
      (simple false)
      (simple-IsIpTool false)
      "firecracker-0"
      "fc-0-veth"
      bare
      (create_network (simple false) names (λ n. n) (pool, bare))
create_network-IsLocal_example =
    create_network-IsLocal (simple false) (simple-IsIpTool false) names (λ n. n) pool bare

abbrev config : NetworkConfig
config =
    config_of "a" "fc-1-veth" (host "10" (0, 0) 1) (host "10" (0, 0) 2) (single "192.168" (0, 1))

abbrev one : Tables
one = record {
  netns = λ n. ite (string_discrete "a" n) true false;
  device = λ d. false;
  peer = λ n d. false;
  pair = λ n d. false;
}

one-IsSound :
    IsSound
      (simple true)
      (simple-IsIpTool true)
      (simple-Deletes true)
      names
      (λ n. n)
      (λ n. 0)
      (some config ∷ [])
      (pool, one)
unfolding count_of
one-IsSound = (λ n. ground arith, omega arith)

Steps-IsSound_example :
    IsSound
      (simple true)
      (simple-IsIpTool true)
      (simple-Deletes true)
      names
      (λ n. n)
      (λ n. 0)
      []
      (give_up_network (simple true) names (λ n. n) config (pool, one))
Steps-IsSound_example =
    Steps-IsSound (simple true) (simple-IsIpTool true) (simple-Deletes true) names (λ n. n) (λ n. 0)
      (next (gives [] [] config) done) one-IsSound

new_network_pool_manager-IsFull_example :
    (np : NetworkPoolManager) × ((s' : Tables) × ((new_network_pool_manager
            (simple true)
            names
            (λ n. n)
            "10"
            "192.168"
            (pos 40)
            bare
          ≡ some (np, s'))
        × ((length np.pool % 16 ≡ 0)
            × ((16 ≤ length np.pool)
                × ((length np.pool ≤ max 16 40) × (40 < length np.pool + 16))))))
new_network_pool_manager-IsFull_example =
    new_network_pool_manager-IsFull (simple true) names (λ n. n) "10" "192.168" 40 bare
      (omega arith)
