-- ===== src/HaProxy/Single.antt =====
-- The calls for a single data plane, the lists of servers and the revision of both backends
-- (internal/data_plane/haproxy/manager.go). Where HAProxy is restarted, by `systemctl`, a call returns
-- whether it is.
use dirigent.Prelude.{
  ℕ, ◌≡◌, Bool, true, false, String, List, [], ◌∷◌, ◌++◌, ◌||◌, Option, none, some, arith,
}
use dirigent.Prelude.Int.{ℤ}
use dirigent.Prelude.Maps.{lookup, insert, remove, lookup-insert, remove_of_none}
use dirigent.Prelude.Names.{string_discrete}
use dirigent.HaProxy.{
  Backend, data_planes, registration_servers, Server, HaproxyClient, Addresses, HaproxyApi,
  add_server, remove_server_by_name, urls_of, revise,
}
use dirigent.HaProxy.Revisions.{has_name, drop_name, IsClient, CarriesOut, created, deleted}

abbrev names_of : List Server → List String
names_of [] = []
names_of (s ∷ ss) = s.name ∷ names_of ss

module _ (client : HaproxyClient) (ad : Addresses) where
  -- listServers; an error is printed only.
  unfoldable pub list_servers : Backend → HaproxyApi client ad → List String × List String
  unfolding urls_of
  list_servers b api = elim (client.get_servers b api.state) [
    | none ↦ ([], [])
    | some servers ↦ (names_of servers, urls_of client ad servers)
  ]

  -- The loop of NewHAProxyAPI.
  unfoldable pub read_names :
      List String → List String → List (String × String) → List (String × String)
  read_names [] addresses m = m
  read_names (n ∷ ns) [] m = m
  read_names (n ∷ ns) (a ∷ as') m = read_names ns as' (insert string_discrete a n m)

  unfoldable pub new_haproxy_api : client.State → HaproxyApi client ad
  unfolding list_servers read_names
  new_haproxy_api st =
      let bare : HaproxyApi client ad = record { state = st; address_to_name = [] } in
      let (names, addresses) = list_servers data_planes bare in
      record { state = st; address_to_name = read_names names addresses [] }

  -- AddDataplane and RemoveDataplane.
  unfoldable pub add_single :
      ℕ → String × ℤ → Bool → HaproxyApi client ad → HaproxyApi client ad × Bool
  unfolding add_server
  add_single r a restart api = elim (client.get_version api.state) [
    | none ↦ (api, false)
    | some version ↦ (add_server client ad r a api, restart)
  ]

  unfoldable pub remove_single :
      String × ℤ → Bool → HaproxyApi client ad → HaproxyApi client ad × Bool
  unfolding remove_server_by_name
  remove_single a restart api = elim (client.get_version api.state) [
    | none ↦ (api, false)
    | some version ↦ (remove_server_by_name client ad a api, restart)
  ]

  -- The loop of DeleteAllDataplanes, which restarts HAProxy at its end.
  unfoldable pub delete_all : List Server → HaproxyApi client ad → HaproxyApi client ad
  unfolding remove_single
  delete_all [] api = api
  delete_all (s ∷ ss) api = delete_all ss (remove_single (s.address, s.port) false api).0

  unfoldable pub delete_all_dataplanes : HaproxyApi client ad → HaproxyApi client ad × Bool
  unfolding delete_all
  delete_all_dataplanes api = elim (client.get_servers data_planes api.state) [
    | none ↦ (api, true)
    | some servers ↦ (delete_all servers api, true)
  ]

  -- ReviseHAProxyConfiguration, if both revisions end within their tries.
  unfoldable pub revise_haproxy_configuration :
      ℕ
      → (ℕ → client.State)
      → (ℕ → client.State)
      → (ℕ → ℕ)
      → List String
      → List String
      → HaproxyApi client ad
      → Option (HaproxyApi client ad × Bool)
  unfolding revise
  revise_haproxy_configuration tries files files' names dataplanes servers api =
      elim (revise client ad tries data_planes files names dataplanes api) [
        | none ↦ none
        | some (api', changes) ↦
            elim (revise client ad tries registration_servers files' names servers api') [
              | none ↦ none
              | some (api'', changes') ↦ some (api'', changes || changes')
            ]
      ]

remove-insert_fresh :
    (key v : String) (m : List (String × String))
    → lookup string_discrete key m ≡ none
    → remove string_discrete key (insert string_discrete key v m) ≡ m
unfolding lookup insert remove
remove-insert_fresh key v [] n = ground arith
remove-insert_fresh key v ((k, w) ∷ m) n =
    ground (arith, remove-insert_fresh key v m, remove_of_none string_discrete key m)

drop_name-append :
    (s : Server) (ss : List Server)
    → has_name s.name ss ≡ false
    → drop_name s.name (ss ++ s ∷ []) ≡ ss
drop_name-append s [] h = ground arith
drop_name-append s (t ∷ ss) h = ground (arith, h, drop_name-append s ss)

module _ (client : HaproxyClient) (ad : Addresses) (laws : IsClient client)
    (ok : CarriesOut client) where
  -- A new data plane that is added and removed again leaves the servers and their names as they were,
  -- if its address is not known and the name that is drawn for it is free.
  pub remove_server_by_name-add_server :
      (r : ℕ) (ip : String) (port : ℤ) (api : HaproxyApi client ad) (ss : List Server)
      → lookup string_discrete (ad.join ip port) api.address_to_name ≡ none
      → client.get_servers data_planes api.state ≡ some ss
      → has_name (ad.server_name data_planes r) ss ≡ false
      → let api' =
          remove_server_by_name client ad (ip, port) (add_server client ad r (ip, port) api) in
        (client.get_servers data_planes api'.state ≡ some ss)
        × (api'.address_to_name ≡ api.address_to_name)
  unfolding add_server remove_server_by_name
  remove_server_by_name-add_server r ip port api ss free g fresh =
      let url = ad.join ip port in
      let name = ad.server_name data_planes r in
      let s : Server = record { name = name; address = ip; port = port } in
      let made = created client laws ok data_planes s api.state ss g fresh in
      let gone =
        deleted client laws ok data_planes name (client.create_server data_planes s api.state).1
          (ss ++ s ∷ []) made in
      ground (
        arith,
        free,
        gone,
        drop_name-append s ss fresh,
        lookup-insert string_discrete url url name api.address_to_name,
        remove-insert_fresh url name api.address_to_name free,
      )
