-- ===== src/Networks/Owners.antt =====
-- Every order of the operations on a pool of networks
-- (internal/worker_node/sandbox/firecracker/networking.go).
use dirigent.Prelude.{String, ℕ, ◌≡◌, List, ◌∷◌, ◌++◌, Bool, Option, some, subst, arith}
use dirigent.Networks.{
  IpTool, NameFormats, NetworkConfig, NetworkPoolManager, populate, get_one_config, give_up_network,
}
use dirigent.Networks.Hosts.{IsIpTool, Deletes}
use dirigent.Networks.Pools.{
  IsSound, EndsSound, HasGot, get_one_config-IsSound, give_up-IsSound, populate_loop-IsSound,
  count_of, count_of-append,
}

module _ (ip : IpTool) (l : IsIpTool ip) (ds : Deletes ip) where
  module _ (nf : NameFormats) (draw : ℕ → ℕ) (foreign : String → ℕ) where
    -- A virtual machine gets a network or nil, gives one up, or a goroutine populates the pool; each
    -- of them holds the pool's lock. The last index is what the machines have.
    pub data Step
        : NetworkPoolManager × ip.State
          → List (Option NetworkConfig)
          → NetworkPoolManager × ip.State
          → List (Option NetworkConfig)
          → Type 0 where
      gets :
          {p p' : NetworkPoolManager × ip.State} {in_use : List (Option NetworkConfig)}
          {config : Option NetworkConfig} {low : Bool}
          → get_one_config ip nf draw p ≡ some (config, (low, p'))
          → Step p in_use p' (config ∷ in_use)
      gives :
          {p : NetworkPoolManager × ip.State} (before after : List (Option NetworkConfig))
          (config : NetworkConfig)
          → Step p
              (before ++ some config ∷ after)
              (give_up_network ip nf draw config p)
              (before ++ after)
      populates :
          {p p' : NetworkPoolManager × ip.State} {in_use : List (Option NetworkConfig)}
          → populate ip nf draw p ≡ some p'
          → Step p in_use p' in_use

    pub data Steps
        : NetworkPoolManager × ip.State
          → List (Option NetworkConfig)
          → NetworkPoolManager × ip.State
          → List (Option NetworkConfig)
          → Type 0 where
      done :
          {p : NetworkPoolManager × ip.State} {in_use : List (Option NetworkConfig)}
          → Steps p in_use p in_use
      next :
          {p p' p'' : NetworkPoolManager × ip.State}
          {in_use in_use' in_use'' : List (Option NetworkConfig)}
          → Step p in_use p' in_use'
          → Steps p' in_use' p'' in_use''
          → Steps p in_use p'' in_use''

    Step-IsSound :
        {p p' : NetworkPoolManager × ip.State} {in_use in_use' : List (Option NetworkConfig)}
        → Step p in_use p' in_use'
        → IsSound ip l ds nf draw foreign in_use p
        → IsSound ip l ds nf draw foreign in_use' p'
    unfolding populate count_of
    Step-IsSound {p} {p'} {in_use} (gets e) i =
        subst (λ r. HasGot ip l ds nf draw foreign in_use r) e
          (get_one_config-IsSound ip l ds nf draw foreign p.0 p.1 in_use i)
    Step-IsSound {p} (gives before after config) i =
        give_up-IsSound ip l ds nf draw foreign config p.0 p.1 (before ++ some config ∷ after)
          (before ++ after)
          (λ n.
            ground (
              arith,
              count_of-append n before (some config ∷ after),
              count_of-append n before after,
            ))
          i
    Step-IsSound {p} {p'} {in_use} (populates e) i =
        subst (λ r. EndsSound ip l ds nf draw foreign in_use r) e
          (populate_loop-IsSound ip l ds nf draw foreign p.0.max_network_pool_size p.0 p.1 in_use i)

    -- However the operations follow one another on a host where `ip` carries out every deletion of
    -- what is there, a namespace that exists belongs to one entry of the pool, to one machine or to
    -- somebody else, as it did at first: none is handed out twice, none is lost, and none is left
    -- behind. And the pool is never too large.
    pub Steps-IsSound :
        {p p' : NetworkPoolManager × ip.State} {in_use in_use' : List (Option NetworkConfig)}
        → Steps p in_use p' in_use'
        → IsSound ip l ds nf draw foreign in_use p
        → IsSound ip l ds nf draw foreign in_use' p'
    Steps-IsSound done i = i
    Steps-IsSound (next s ss) i = Steps-IsSound ss (Step-IsSound s i)
