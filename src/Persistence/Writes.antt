-- ===== src/Persistence/Writes.antt =====
-- The writes to Redis against the maps that the control plane's model keeps (redis_persistence.go of
-- internal/control_plane/persistence).
use dirigent.Prelude.{
  ◌≡◌, Bool, true, false, String, List, [], ◌∷◌, Option, none, some, arith, if◌then◌else◌, ite, inl,
  inr, Option-cases,
}
use dirigent.Prelude.Maps.{lookup, lookup-insert, lookup-remove}
use dirigent.Prelude.Names.{string_discrete}
use dirigent.Registry.{store, delete}
use dirigent.Persistence.{
  RedisConnection, Codec, RedisClient, wait_for_quorum_write, store_information, delete_information,
}

abbrev pub is_in : String → List String → Bool
is_in j [] = false
is_in j (k ∷ ks) = ite (string_discrete k j) true (is_in j ks)

-- What the code relies on: a hash is what was set last under its key, and a deleted key has none.
pub record IsRedis {Blob : Type 0} (redis : RedisConnection Blob) : Type 0 where
  pub get_set :
      (k j : String) (b : Blob) (st st' : redis.State)
      → redis.h_set k b st ≡ some st'
      → redis.h_get_all j st' ≡ ite (string_discrete k j) (some (some b)) (redis.h_get_all j st)
  pub get_del :
      (ks : List String) (j : String) (st st' : redis.State)
      → redis.del ks st ≡ some st'
      → redis.h_get_all j st' ≡ (if is_in j ks then some none else redis.h_get_all j st)

-- A message is read back as it was written, different names have different keys, and none has a key
-- that is deleted with each entry.
pub record IsCodec {Blob V : Type 0} (codec : Codec Blob V) : Type 0 where
  pub read_back :
      (info : V) (b : Blob) → codec.marshal info ≡ some b → codec.unmarshal (some b) ≡ some info
  pub injective : (n m : String) → codec.key n ≡ codec.key m → n ≡ m
  pub apart : (n : String) → is_in (codec.key n) codec.also_deleted ≡ false

module _ {Blob V : Type 0} (redis : RedisConnection Blob) (codec : Codec Blob V)
    (law : IsRedis redis) (sound : IsCodec codec) where
  -- The entry under a name, if there is one.
  abbrev pub entry : String → redis.State → Option V
  entry name st = elim (redis.h_get_all (codec.key name) st) [
    | none ↦ none
    | some none ↦ none
    | some (some b) ↦ codec.unmarshal (some b)
  ]

  -- Redis holds the map.
  abbrev pub Holds : redis.State → List (String × V) → Type 0
  Holds st m = (name : String) → entry name st ≡ lookup string_discrete name m

  -- A store does to what Redis holds what the model's store does to the map, with the outcome that it
  -- answers: nothing when it is refused, and the entry when it is done, confirmed or not.
  pub store_information-store :
      (info : V) (driver : RedisClient redis) (m : List (String × V))
      → Holds driver.state m
      → (let (driver', w) = store_information redis codec info driver in
          Holds driver'.state (store w (codec.name_of info) info m))
  unfolding store_information store wait_for_quorum_write
  store_information-store info driver m h name =
      let k = codec.key (codec.name_of info) in
      elim (Option-cases (codec.marshal info)) [
        | inl n ↦ ground (arith, n, h name)
        | inr (b, n) ↦ elim (Option-cases (redis.h_set k b driver.state)) [
          | inl r ↦ ground (arith, n, r, h name)
          | inr (st, r) ↦ ground (
            arith,
            n,
            r,
            h name,
            law.get_set k (codec.key name) b driver.state st r,
            lookup-insert string_discrete (codec.name_of info) name info m,
            sound.read_back info b n,
            sound.injective (codec.name_of info) name,
          )
        ]
      ]

  -- A delete does to what Redis holds what the model's delete does to the map, with the outcome that it
  -- answers.
  pub delete_information-delete :
      (gone : String) (driver : RedisClient redis) (m : List (String × V))
      → Holds driver.state m
      → (let (driver', w) = delete_information redis codec gone driver in
          Holds driver'.state (delete w gone m))
  unfolding delete_information delete wait_for_quorum_write
  delete_information-delete gone driver m h name =
      let ks = codec.key gone ∷ codec.also_deleted in
      elim (Option-cases (redis.del ks driver.state)) [
        | inl r ↦ ground (arith, r, h name)
        | inr (st, r) ↦ ground (
          arith,
          r,
          h name,
          law.get_del ks (codec.key name) driver.state st r,
          lookup-remove string_discrete gone name m,
          sound.apart name,
          sound.injective gone name,
        )
      ]
