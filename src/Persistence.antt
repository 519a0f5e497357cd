-- ===== src/Persistence.antt =====
-- internal/control_plane/persistence/redis_persistence.go: what the control plane persists. Redis and
-- protobuf are parameters; `none` is an error of theirs.
pub mod Writes
mod Tests
use dirigent.Prelude.{
  ℕ, Bool, true, false, String, List, [], ◌∷◌, Option, none, some, if◌then◌else◌, length,
}
use dirigent.Prelude.Results.{Result, returns, waits, panics, ◌>>=◌}
use dirigent.Registry.{Write, confirmed, refused, unconfirmed}

-- A connection: HSet and HGetAll of the field "data", Del of some
-- keys, the scan of the keys with a prefix, Wait
-- for a number of replicas, and SlaveOf "no", "one".
pub record RedisConnection (Blob : Type 0) : Type 1 where
  pub State : Type 0
  pub h_set : String → Blob → State → Option State
  pub h_get_all : String → State → Option (Option Blob)
  pub del : List String → State → Option State
  pub scan_keys : String → State → Option (List String)
  pub wait : ℕ → State → Bool
  pub no_slave : State → Option State

-- The key of an entry, the keys that are deleted with it, and protobuf for the information of one kind; an absent field reads as the
-- empty string.
pub record Codec (Blob V : Type 0) : Type 0 where
  pub prefix : String
  pub key : String → String
  pub name_of : V → String
  pub also_deleted : List String
  pub marshal : V → Option Blob
  pub unmarshal : Option Blob → Option V

module _ {Blob : Type 0} (redis : RedisConnection Blob) where
  pub record RedisClient : Type 0 where
    pub state : redis.State
    pub other_clients : ℕ

  -- WaitForQuorumWrite
  unfoldable pub wait_for_quorum_write : RedisClient → Bool
  wait_for_quorum_write driver = redis.wait driver.other_clients driver.state

  -- The end of a write: the wait for the replicas.
  abbrev pub written : Option redis.State → RedisClient → RedisClient × Write
  written none driver = (driver, refused)
  written (some st) driver =
      let driver' : RedisClient = record driver { state = st } in
      (driver', if wait_for_quorum_write driver' then confirmed else unconfirmed)

  module _ {V : Type 0} (codec : Codec Blob V) where
    -- StoreDataPlaneInformation, StoreWorkerNodeInformation and StoreServiceInformation, each with
    -- its codec.
    unfoldable pub store_information : V → RedisClient → RedisClient × Write
    unfolding wait_for_quorum_write
    store_information info driver = elim (codec.marshal info) [
      | none ↦ (driver, refused)
      | some blob ↦ written (redis.h_set (codec.key (codec.name_of info)) blob driver.state) driver
    ]

    -- DeleteDataPlaneInformation, DeleteWorkerNodeInformation and DeleteServiceInformation.
    unfoldable pub delete_information : String → RedisClient → RedisClient × Write
    unfolding wait_for_quorum_write
    delete_information name driver =
        written (redis.del (codec.key name ∷ codec.also_deleted) driver.state) driver

    -- The loop of GetWorkerNodeInformation and its likes; `none` is an error, and an entry that is no
    -- message of its kind is a panic.
    unfoldable pub read_each : List String → redis.State → Result (Option (List V))
    read_each [] st = returns (some [])
    read_each (k ∷ ks) st = elim (redis.h_get_all k st) [
      | none ↦ returns none
      | some field ↦ elim (codec.unmarshal field) [
        | none ↦ panics
        | some info ↦ do
          rest ← read_each ks st
          returns (elim rest [ none ↦ none | some infos ↦ some (info ∷ infos) ])
      ]
    ]

    unfoldable pub get_information : RedisClient → Result (Option (List V))
    unfolding read_each
    get_information driver = elim (redis.scan_keys codec.prefix driver.state) [
      | none ↦ returns none
      | some keys ↦ read_each keys driver.state
    ]

  -- SetLeader: the other instances' errors are only logged.
  unfoldable pub set_leader : RedisClient → RedisClient × Bool
  set_leader driver = elim (redis.no_slave driver.state) [
    | none ↦ (driver, false)
    | some st ↦ (record driver { state = st }, true)
  ]

  -- StoreEndpoint: JSON, under a key of the worker nodes.
  unfoldable pub store_endpoint :
      (String → String) → String → Option Blob → RedisClient → RedisClient × Write
  unfolding wait_for_quorum_write
  store_endpoint worker_key sandbox_id json driver = elim json [
    | none ↦ (driver, refused)
    | some blob ↦ written (redis.h_set (worker_key sandbox_id) blob driver.state) driver
  ]
