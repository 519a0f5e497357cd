-- ===== src/Persistence/Tests.antt =====
-- Redis as an association list, and blobs that are the information itself.
use dirigent.Prelude.{◌≡◌, refl, false, String, List, [], ◌∷◌, none, some, arith, if◌then◌else◌}
use dirigent.Prelude.Int.{pos}
use dirigent.Prelude.Maps.{lookup, insert, remove, lookup-insert, lookup-remove}
use dirigent.Prelude.Names.{string_discrete}
use dirigent.Workers.{WorkerNodeConfiguration}
use dirigent.Registry.{store}
use dirigent.Persistence.{RedisConnection, Codec, RedisClient, store_information}
use dirigent.Persistence.Writes.{is_in, IsRedis, IsCodec, Holds, store_information-store}

abbrev Table : Type 0
Table = List (String × WorkerNodeConfiguration)

remove_keys : List String → Table → Table
remove_keys [] t = t
remove_keys (k ∷ ks) t = remove_keys ks (remove string_discrete k t)

lookup-remove_keys :
    (ks : List String) (j : String) (t : Table)
    → lookup string_discrete j (remove_keys ks t)
      ≡ (if is_in j ks then none else lookup string_discrete j t)
unfolding remove_keys
lookup-remove_keys [] j t = refl
lookup-remove_keys (k ∷ ks) j t = ground (
  arith,
  lookup-remove_keys ks j (remove string_discrete k t),
  lookup-remove string_discrete k j t,
)

abbrev table : RedisConnection WorkerNodeConfiguration
table = record {
  State = Table;
  h_set = λ k b t. some (insert string_discrete k b t);
  h_get_all = λ k t. some (lookup string_discrete k t);
  del = λ ks t. some (remove_keys ks t);
  scan_keys = λ p t. some [];
  wait = λ n t. false;
  no_slave = λ t. some t;
}

table-IsRedis : IsRedis table
table-IsRedis = record {
  get_set = λ k j b st st' e. ground (arith, e, lookup-insert string_discrete k j b st);
  get_del = λ ks j st st' e. ground (arith, e, lookup-remove_keys ks j st);
}

abbrev plain : Codec WorkerNodeConfiguration WorkerNodeConfiguration
plain = record {
  prefix = "worker";
  key = λ n. n;
  name_of = λ w. w.name;
  also_deleted = [];
  marshal = λ w. some w;
  unmarshal = λ w. w;
}

plain-IsCodec : IsCodec plain
plain-IsCodec = record {
  read_back = λ w b e. ground (arith, e);
  injective = λ n m e. e;
  apart = λ n. refl;
}

abbrev worker : String → WorkerNodeConfiguration
worker name = record { name = name; ip = "10.0.0.1"; port = pos 9000; cpu_cores = 8; memory = 64 }

abbrev driver : RedisClient table
driver = record { state = ("w1", worker "w1") ∷ []; other_clients = 2 }

driver-Holds : Holds table plain table-IsRedis plain-IsCodec driver.state (("w1", worker "w1") ∷ [])
driver-Holds name = ground arith

-- No replica takes the write in time.
store_information-store_example :
    (let (driver', w) = store_information table plain (worker "w2") driver in
      Holds table plain table-IsRedis plain-IsCodec driver'.state
        (store w "w2" (worker "w2") (("w1", worker "w1") ∷ [])))
store_information-store_example =
    store_information-store table plain table-IsRedis plain-IsCodec (worker "w2") driver
      (("w1", worker "w1") ∷ []) driver-Holds
