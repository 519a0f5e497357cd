-- ===== src/HaProxy.antt =====
-- internal/data_plane/haproxy/manager.go: the servers behind the load balancer. The library that
-- edits HAProxy's configuration is a parameter, and so are net.SplitHostPort, strconv.Atoi and the text
-- of an address; `none` is an error. `names` gives the random number of a new server's name.
pub mod Revisions
pub mod Single
mod Tests
use dirigent.Prelude.{
  ℕ, zero, suc, Bool, true, false, String, List, [], ◌∷◌, ◌||◌, Option, none, some, if◌then◌else◌,
}
use dirigent.Prelude.Int.{ℤ}
use dirigent.Prelude.Maps.{lookup, insert, remove}
use dirigent.Prelude.Names.{string_discrete}
use dirigent.Functions.Delta.{difference}

pub data Backend : Type 0 where
  data_planes registration_servers : Backend

-- models.Server, less the health check.
pub record Server : Type 0 where
  pub name : String
  pub address : String
  pub port : ℤ

-- client-native: a state, with the transaction that is open, and what its calls answer. The creation
-- and the deletion of a server return whether they succeeded, which the callers only log.
pub record HaproxyClient : Type 1 where
  pub State : Type 0
  pub get_version : State → Option ℕ
  pub start_transaction : ℕ → State → Option State
  pub get_servers : Backend → State → Option (List Server)
  pub create_server : Backend → Server → State → Bool × State
  pub delete_server : Backend → String → State → Bool × State
  pub commit_transaction : State → Option State

-- fmt.Sprintf("%s:%d"), net.SplitHostPort, strconv.Atoi, and the name of a server from its prefix and
-- a number.
pub record Addresses : Type 0 where
  pub join : String → ℤ → String
  pub split_host_port : String → Option (String × String)
  pub atoi : String → Option ℤ
  pub server_name : Backend → ℕ → String

infixl 5 ◌>>=◌
abbrev pub ◌>>=◌ {ℓ κ} : {A : Type ℓ} {B : Type κ} → Option A → (A → Option B) → Option B
none >>= f = none
some a >>= f = f a

-- SplitAddress; `none` ends the process.
unfoldable pub split_address : Addresses → String → Option (String × ℤ)
split_address ad a = do (host, port) ← ad.split_host_port a; n ← ad.atoi port; some (host, n)

module _ (client : HaproxyClient) (ad : Addresses) where
  pub record HaproxyApi : Type 0 where
    pub state : client.State
    pub address_to_name : List (String × String)

  -- addServer
  unfoldable pub add_server : ℕ → String × ℤ → HaproxyApi → HaproxyApi
  add_server r (ip, port) api =
      let name = ad.server_name data_planes r in
      let url = ad.join ip port in
      let server : Server = record { name = name; address = ip; port = port } in
      elim (lookup string_discrete url api.address_to_name) [
        | some n ↦ api
        | none ↦ record {
          state = (client.create_server data_planes server api.state).1;
          address_to_name = insert string_discrete url name api.address_to_name;
        }
      ]

  -- removeServerByName
  unfoldable pub remove_server_by_name : String × ℤ → HaproxyApi → HaproxyApi
  remove_server_by_name (ip, port) api =
      let url = ad.join ip port in
      elim (lookup string_discrete url api.address_to_name) [
        | none ↦ api
        | some name ↦ record {
          state = (client.delete_server data_planes name api.state).1;
          address_to_name = remove string_discrete url api.address_to_name;
        }
      ]

  -- addRegistrationServer
  unfoldable pub add_registration_server : ℕ → String × ℤ → HaproxyApi → HaproxyApi
  add_registration_server r (ip, port) api =
      let name = ad.server_name registration_servers r in
      let server : Server = record { name = name; address = ip; port = port } in
      record api { state = (client.create_server registration_servers server api.state).1 }

  -- The loop of removeRegistrationServers.
  unfoldable pub delete_each : List Server → client.State → client.State
  delete_each [] st = st
  delete_each (s ∷ ss) st = delete_each ss ((client.delete_server registration_servers s.name st).1)

  unfoldable pub remove_registration_servers : HaproxyApi → HaproxyApi
  unfolding delete_each
  remove_registration_servers api = elim (client.get_servers registration_servers api.state) [
    | none ↦ api
    | some servers ↦ record api { state = delete_each servers api.state }
  ]

  -- The loops of genericRevise; `none` once SplitAddress has ended the process.
  unfoldable pub remove_each : List String → HaproxyApi → Option HaproxyApi
  unfolding split_address remove_server_by_name
  remove_each [] api = some api
  remove_each (a ∷ as') api = do
    address ← split_address ad a
    remove_each as' (remove_server_by_name address api)

  unfoldable pub add_each : (ℕ → ℕ) → List String → HaproxyApi → Option HaproxyApi
  unfolding split_address add_server
  add_each names [] api = some api
  add_each names (a ∷ as') api = do
    address ← split_address ad a
    add_each (λ n. names (suc n)) as' (add_server (names 0) address api)

  unfoldable pub register_each : (ℕ → ℕ) → List String → HaproxyApi → Option HaproxyApi
  unfolding split_address add_registration_server
  register_each names [] api = some api
  register_each names (a ∷ as') api = do
    address ← split_address ad a
    register_each (λ n. names (suc n)) as' (add_registration_server (names 0) address api)

  unfoldable pub urls_of : List Server → List String
  urls_of [] = []
  urls_of (s ∷ ss) = ad.join s.address s.port ∷ urls_of ss

  abbrev pub is_nonempty_urls : List String → Bool
  is_nonempty_urls [] = false
  is_nonempty_urls (x ∷ xs) = true

  -- The removals and the additions of genericRevise.
  unfoldable pub apply_changes :
      Backend → (ℕ → ℕ) → List String → List String → List String → HaproxyApi → Option HaproxyApi
  unfolding remove_each add_each register_each remove_registration_servers
  apply_changes data_planes names keep to_add to_remove api = do
    removed ← remove_each to_remove api
    add_each names to_add removed
  apply_changes registration_servers names keep to_add to_remove api =
      register_each names keep (remove_registration_servers api)

  abbrev pub Revision : Type 0
  Revision = HaproxyApi × Bool × Bool

  -- The end of genericRevise.
  unfoldable pub commit : Bool → HaproxyApi → Revision
  commit changed api = elim (client.commit_transaction api.state) [
    | none ↦ (api, false, false)
    | some done ↦ (record api { state = done }, true, changed)
  ]

  -- genericRevise: what it leaves, whether it succeeded, and whether there were changes; `none` once
  -- SplitAddress has ended the process.
  unfoldable pub generic_revise : Backend → (ℕ → ℕ) → List String → HaproxyApi → Option Revision
  unfolding apply_changes urls_of commit
  generic_revise b names keep api = elim (client.get_version api.state) [
    | none ↦ some (api, false, false)
    | some version ↦ elim (client.start_transaction version api.state) [
      | none ↦ some (api, false, false)
      | some st ↦ elim (client.get_servers b st) [
        | none ↦ some (record api { state = st }, false, false)
        | some servers ↦
            let existing = urls_of servers in
            let to_add = difference keep existing in
            let to_remove = difference existing keep in
            let changed = is_nonempty_urls to_add || is_nonempty_urls to_remove in
            apply_changes b names keep to_add to_remove (record api { state = st })
            >>= (λ (api' : HaproxyApi). some (commit changed api'))
      ]
    ]
  ]

  -- ReviseRegistrationServers and ReviseDataplanes, with the tries left; each try reads the
  -- configuration anew. `none` once the tries are used up or the process has ended.
  unfoldable pub revise :
      ℕ
      → Backend
      → (ℕ → client.State)
      → (ℕ → ℕ)
      → List String
      → HaproxyApi
      → Option (HaproxyApi × Bool)
  unfolding generic_revise
  revise zero b files names keep api = none
  revise (suc tries) b files names keep api = do
    (api', success, changes) ← generic_revise b names keep (record api { state = files tries })
    let again = revise tries b files names keep api'
    if success then some (api', changes) else again
