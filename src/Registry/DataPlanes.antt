-- ===== src/Registry/DataPlanes.antt =====
-- Data planes at the control plane (internal/control_plane/control_plane.go, helpers.go).
use dirigent.Prelude.{ℕ, Bool, true, false, String, List, [], ◌∷◌, ◌++◌, none, some, if◌then◌else◌}
use dirigent.Prelude.Results.{Result, returns, ◌>>=◌}
use dirigent.Sync.{lock, unlock, set, get, remove_key, present}
use dirigent.Endpoints.{Service, update_endpoint_list, prepare_endpoint_info}
use dirigent.Autoscaling.Metadata.{remove_dataplane}
use dirigent.Registry.{
  ControlPlane, ServiceInfoStorage, ActionStatus, success, failed_with_error, Write, is_confirmed,
  store, delete, DataPlane, DataplaneInformation, add_deployment,
}

-- What the data plane answers while it is registered: to InitializeDataPlaneConnection, and to the
-- AddDeployment of each service.
pub record Answers : Type 0 where
  pub initialized : Bool
  pub added : String → Bool

unfoldable pub new_data_plane : ℕ → DataplaneInformation → DataPlane
new_data_plane now i = record {
  ip = i.address;
  api_port = i.api_port;
  proxy_port = i.proxy_port;
  last_heartbeat = now;
  notices = [];
}

-- prepareCurrentEndpointInfoList, sent to every data plane.
unfoldable pub send_current : Service → Service
send_current s = record s {
  sent = s.sent ++ update_endpoint_list (prepare_endpoint_info s.endpoints) ∷ [];
}

module _ {F : Type 0} where
  -- The loop of RegisterDataplane over the services, and whether it came to its end.
  unfoldable pub announce_services :
      (String → Bool)
      → DataPlane
      → List (String × ServiceInfoStorage F)
      → DataPlane × List (String × ServiceInfoStorage F) × Bool
  unfolding send_current
  announce_services added dp [] = (dp, [], true)
  announce_services added dp ((key, ss) ∷ rest) =
      let told = record dp { notices = dp.notices ++ add_deployment ss.info.name ∷ [] } in
      let (dp', rest', done) = announce_services added told rest in
      if added ss.info.name
      then (dp', (key, record ss { service = send_current ss.service }) ∷ rest', done)
      else (told, (key, ss) ∷ rest, false)

  -- RegisterDataplane; the last result says whether the call was a heartbeat.
  unfoldable pub register_dataplane :
      Write
      → Answers
      → ℕ
      → DataplaneInformation
      → ControlPlane F
      → Result (ControlPlane F × ActionStatus × Bool)
  unfolding lock unlock get set store remove_key new_data_plane announce_services
  register_dataplane w answers now info c = do
    si ← lock c.si_storage
    dps ← lock c.data_plane_connections
    let stored = store w info.address info c.data_planes
    let removed = unlock (remove_key info.address dps)
    elim (get info.address dps) [
      | some dp ↦ returns (
        record c {
          si_storage = unlock si;
          data_plane_connections =
              unlock (set info.address (record dp { last_heartbeat = now }) dps);
        },
        success,
        true,
      )
      | none ↦
          let gave_up = record c {
            si_storage = unlock si;
            data_planes = stored;
            data_plane_connections = removed;
          } in
          if is_confirmed w
          then (if answers.initialized
              then (let (dp, services, done) =
                    announce_services answers.added (new_data_plane now info) si.internal_map in
                  let si' = unlock (record si { internal_map = services }) in
                  if done
                  then returns (
                    record c {
                      si_storage = si';
                      data_planes = stored;
                      data_plane_connections = unlock (set info.address dp dps);
                    },
                    success,
                    false,
                  )
                  else returns (record gave_up { si_storage = si' }, failed_with_error, false))
              else returns (gave_up, failed_with_error, false))
          else returns (gave_up, failed_with_error, false)
    ]

  -- The loop of DeregisterDataplane over the services.
  unfoldable pub remove_from_metadata :
      String → List (String × ServiceInfoStorage F) → List (String × ServiceInfoStorage F)
  remove_from_metadata ip [] = []
  remove_from_metadata ip ((key, ss) ∷ rest) =
      (key, record ss { metadata = remove_dataplane ip ss.metadata }) ∷ remove_from_metadata ip rest

  unfoldable pub deregister_dataplane :
      Write → String → ControlPlane F → Result (ControlPlane F × ActionStatus)
  unfolding lock unlock present delete remove_key remove_from_metadata
  deregister_dataplane w ip c = do
    si ← lock c.si_storage
    dps ← lock c.data_plane_connections
    let deleted = delete w ip c.data_planes
    let released = record c { si_storage = unlock si; data_plane_connections = unlock dps }
    if present ip dps
        then (if is_confirmed w
            then returns (
              record c {
                data_planes = deleted;
                si_storage =
                    unlock (record si { internal_map = remove_from_metadata ip si.internal_map });
                data_plane_connections = unlock (remove_key ip dps);
              },
              success,
            )
            else returns (record released { data_planes = deleted }, failed_with_error))
        else returns (released, success)
