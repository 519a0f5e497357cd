-- ===== src/DataPlane/Messages.antt =====
-- What the messages of a service's scaling do to a data plane: scaling_loop.go and failure.go of
-- internal/control_plane against data_plane.go and function_metadata.go of internal/data_plane.
use dirigent.Prelude.{ℕ, ◌≡◌, refl, sym, ap, ◌∙◌, Bool, String, List, [], ◌∷◌, ◌++◌, arith}
use dirigent.Prelude.Int.{ℤ, ◌-ℤ◌, pos_part}
use dirigent.Endpoints.{
  Endpoint, Service, Message, update_endpoint_list, drain_sandbox, delete_sandbox, get_all_urls,
  prepare_endpoint_info, pick_victims, deletions, do_downscaling, do_upscaling, create_one,
  Creation, no_node, creation_failed, created, scaling_round, last_desired, remove_endpoints,
}
use dirigent.Endpoints.Pointers.{IsDistinct}
use dirigent.Endpoints.Evict.{IsDraw, do_downscaling-IsPicked}
use dirigent.Functions.{
  FunctionMetadata, UpstreamEndpoint, EndpointInfo, add_endpoints, add_to_endpoint_list,
  add_to_list, drain_endpoints, mark_endpoints_as_draining, store_active, is_nonempty, signal_all,
}
use dirigent.Functions
use dirigent.DataPlane.Victims.{AreMembers-refl, pick_victims-AreMembers}
use dirigent.DataPlane.Follows.{
  urls_of, received, HasDistinctUrls, urls_of-remove_urls, urls_of-mark,
}

-- A data plane handles the messages of one service.
unfoldable pub deliver : List Message → FunctionMetadata → FunctionMetadata
deliver [] m = m
deliver (update_endpoint_list is ∷ ms) m = deliver ms (add_endpoints (received is) m)
deliver (drain_sandbox is ∷ ms) m = deliver ms (drain_endpoints (received is) m)
deliver (delete_sandbox node id port ∷ ms) m = deliver ms m

deliver-append :
    (ms ns : List Message) (m : FunctionMetadata) → deliver (ms ++ ns) m ≡ deliver ns (deliver ms m)
unfolding deliver
deliver-append [] ns m = refl
deliver-append (update_endpoint_list is ∷ ms) ns m =
    deliver-append ms ns (add_endpoints (received is) m)
deliver-append (drain_sandbox is ∷ ms) ns m = deliver-append ms ns (drain_endpoints (received is) m)
deliver-append (delete_sandbox node id port ∷ ms) ns m = deliver-append ms ns m

deliver-deletions : (vs : List Endpoint) (m : FunctionMetadata) → deliver (deletions vs) m ≡ m
unfolding deliver deletions
deliver-deletions [] m = refl
deliver-deletions (v ∷ vs) m = ground (arith, deliver-deletions vs m)

urls_of-append :
    (es : List UpstreamEndpoint) (e : UpstreamEndpoint)
    → urls_of (es ++ e ∷ []) ≡ urls_of es ++ e.url ∷ []
urls_of-append [] e = refl
urls_of-append (x ∷ es) e = ground (arith, urls_of-append es e)

append_one : (xs ys : List String) (x : String) → (xs ++ x ∷ []) ++ ys ≡ xs ++ x ∷ ys
append_one [] ys x = refl
append_one (z ∷ xs) ys x = ground (arith, append_one xs ys x)

append_nil : (xs : List String) → xs ++ [] ≡ xs
append_nil [] = refl
append_nil (x ∷ xs) = ground (arith, append_nil xs)

urls_of-add :
    (es : List Endpoint) (m : FunctionMetadata)
    → urls_of (add_to_endpoint_list (received (prepare_endpoint_info es)) m).upstream_endpoints
      ≡ urls_of m.upstream_endpoints ++ get_all_urls es
unfolding add_to_endpoint_list add_to_list prepare_endpoint_info get_all_urls
urls_of-add [] m = sym (append_nil (urls_of m.upstream_endpoints))
urls_of-add (e ∷ es) m =
    let i : EndpointInfo = record { id = e.sandbox_id; url = e.url } in
    urls_of-add es (add_to_list i m)
    ∙ ap (λ (xs : List String). xs ++ get_all_urls es) (urls_of-append m.upstream_endpoints _)
    ∙ append_one (urls_of m.upstream_endpoints) (get_all_urls es) e.url

urls_of-add_endpoints :
    (es : List Endpoint) (m : FunctionMetadata)
    → urls_of (add_endpoints (received (prepare_endpoint_info es)) m).upstream_endpoints
      ≡ urls_of m.upstream_endpoints ++ get_all_urls es
unfolding add_endpoints store_active
urls_of-add_endpoints es m = ground (arith, urls_of-add es m)

-- A data plane that started with m and was sent the service's messages has the URLs of the service's
-- endpoints, in their order.
abbrev pub HasFollowed : FunctionMetadata → Service → Type 0
HasFollowed m s = urls_of (deliver s.sent m).upstream_endpoints ≡ get_all_urls s.endpoints

get_all_urls-append :
    (es : List Endpoint) (e : Endpoint)
    → get_all_urls (es ++ e ∷ []) ≡ get_all_urls es ++ e.url ∷ []
unfolding get_all_urls
get_all_urls-append [] e = refl
get_all_urls-append (x ∷ es) e = ground (arith, get_all_urls-append es e)

create_one-HasFollowed :
    (e : Endpoint) (m : FunctionMetadata) (s : Service)
    → HasFollowed m s
    → HasFollowed m (create_one (created e) s)
unfolding create_one deliver get_all_urls
create_one-HasFollowed e m s h =
    let last = update_endpoint_list (prepare_endpoint_info (e ∷ [])) ∷ [] in
    ap (λ (x : FunctionMetadata). urls_of x.upstream_endpoints) (deliver-append s.sent last m)
    ∙ urls_of-add_endpoints (e ∷ []) (deliver s.sent m)
    ∙ ap (λ (xs : List String). xs ++ e.url ∷ []) h
    ∙ sym (get_all_urls-append s.endpoints e)

do_upscaling-HasFollowed :
    (cs : List Creation) (m : FunctionMetadata) (s : Service)
    → HasFollowed m s
    → HasFollowed m (do_upscaling cs s)
unfolding do_upscaling create_one
do_upscaling-HasFollowed [] m s h = h
do_upscaling-HasFollowed (no_node ∷ cs) m s h = do_upscaling-HasFollowed cs m _ h
do_upscaling-HasFollowed (creation_failed ∷ cs) m s h = do_upscaling-HasFollowed cs m _ h
do_upscaling-HasFollowed (created e ∷ cs) m s h =
    do_upscaling-HasFollowed cs m (create_one (created e) s) (create_one-HasFollowed e m s h)

do_downscaling-HasFollowed :
    (draw : ℕ → ℕ) (m : FunctionMetadata) (actual desired : ℤ) (s : Service)
    → IsDraw draw
    → IsDistinct s.endpoints
    → HasDistinctUrls s.endpoints
    → HasFollowed m s
    → HasFollowed m (do_downscaling draw actual desired s)
unfolding do_downscaling deliver drain_endpoints Functions.remove_endpoints store_active
do_downscaling-HasFollowed draw m actual desired s r d u h =
    let k = pos_part (actual -ℤ desired) in
    let vs = (pick_victims k draw s.endpoints []).0 in
    let p = (do_downscaling-IsPicked draw r actual desired s d).0 in
    let is = received (prepare_endpoint_info vs) in
    let before = deliver s.sent m in
    let urls = λ (x : FunctionMetadata). urls_of x.upstream_endpoints in
    let members =
      pick_victims-AreMembers draw s.endpoints k s.endpoints [] (AreMembers-refl s.endpoints) tt in
    ap urls (deliver-append s.sent (drain_sandbox (prepare_endpoint_info vs) ∷ deletions vs) m)
    ∙ ap urls (deliver-deletions vs (drain_endpoints is before))
    ∙ urls_of-remove_urls vs s.endpoints (mark_endpoints_as_draining is before.upstream_endpoints)
        p.distinct members d u (urls_of-mark is before.upstream_endpoints ∙ h)

-- A round of the scaling loop keeps the data plane in step with the service, whatever creations
-- fail and however far the service is scaled up or down, when the endpoints and their URLs are
-- distinct, the created endpoints are appended one after the other, and the data plane receives and
-- carries out every message of the round, in the order of sending.
pub scaling_round-HasFollowed :
    (make : ℕ → List Creation) (draw : ℕ → ℕ)
    → IsDraw draw
    → (disabled : Bool) (first : ℤ) (more : List ℤ) (m : FunctionMetadata) (s : Service)
    → IsDistinct s.endpoints
    → HasDistinctUrls s.endpoints
    → HasFollowed m s
    → HasFollowed m (scaling_round make draw disabled first more s)
unfolding scaling_round
scaling_round-HasFollowed make draw r disabled first more m s d u h =
    let desired = last_desired first more in
    let s' : Service = record s { actual_scale = desired } in
    ground (
      arith,
      h,
      do_upscaling-HasFollowed (make (pos_part (desired -ℤ s.actual_scale))) m s' h,
      do_downscaling-HasFollowed draw m s.actual_scale desired s' r d u h,
    )

-- A failure of sandboxes does not reach the data plane: it adds the list that it is sent, so that it
-- keeps every endpoint that it had, those that failed included, and has those that are left twice.
pub deliver-remove_endpoints :
    (cids : List String) (m : FunctionMetadata) (s : Service)
    → HasFollowed m s
    → (let t = remove_endpoints cids s in
        urls_of (deliver t.sent m).upstream_endpoints
        ≡ get_all_urls s.endpoints ++ get_all_urls t.endpoints)
unfolding remove_endpoints deliver
deliver-remove_endpoints cids m s h =
    let left = (remove_endpoints cids s).endpoints in
    let last = update_endpoint_list (prepare_endpoint_info left) ∷ [] in
    ap (λ (x : FunctionMetadata). urls_of x.upstream_endpoints) (deliver-append s.sent last m)
    ∙ urls_of-add_endpoints left (deliver s.sent m)
    ∙ ap (λ (xs : List String). xs ++ get_all_urls left) h
