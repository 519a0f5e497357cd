-- ===== src/DataPlane/Follows.antt =====
-- A data plane follows the scaling of a service: scaling_loop.go of internal/control_plane against
-- function_metadata.go of internal/data_plane.
use dirigent.Prelude.{
  ◌≡◌, ◌≢◌, refl, sym, ap, ◌∙◌, Bool, true, false, String, List, [], ◌∷◌, arith, ite, ◌⊎◌, inl, inr,
}
use dirigent.Prelude.Names.{string_discrete}
use dirigent.Endpoints
use dirigent.Endpoints.{
  prepare_endpoint_info, Endpoint, Service, get_all_urls, exclude_endpoints, has, add_to,
  pick_victims, eviction_policy, do_downscaling,
}
use dirigent.Endpoints.Pointers.{IsDistinct, exclude_endpoints-IsDistinct, exclude_endpoints_nil}
use dirigent.Functions.{
  UpstreamEndpoint, EndpointInfo, remove_url, remove_urls, mark, mark_endpoints_as_draining,
}

abbrev pub urls_of : List UpstreamEndpoint → List String
urls_of [] = []
urls_of (e ∷ es) = e.url ∷ urls_of es

-- The list without the first u.
abbrev pub without : String → List String → List String
without u [] = []
without u (x ∷ xs) = ite (string_discrete u x) xs (x ∷ without u xs)

abbrev pub is_in : String → List String → Bool
is_in u [] = false
is_in u (x ∷ xs) = ite (string_discrete u x) true (is_in u xs)

-- No URL stands twice.
abbrev pub HasDistinctUrls : List Endpoint → Type 0
HasDistinctUrls [] = Unit
HasDistinctUrls (e ∷ es) = (is_in e.url (get_all_urls es) ≡ false) × HasDistinctUrls es

abbrev pub IsMember : Endpoint → List Endpoint → Type 0
IsMember e [] = ⊥
IsMember e (f ∷ fs) = (f ≡ e) ⊎ IsMember e fs

abbrev pub AreMembers : List Endpoint → List Endpoint → Type 0
AreMembers [] es = Unit
AreMembers (v ∷ vs) es = IsMember v es × AreMembers vs es

-- The list of endpoints as the data plane receives it.
abbrev pub received : List Endpoints.EndpointInfo → List EndpointInfo
received [] = []
received (i ∷ is) = record { id = i.id; url = i.url } ∷ received is

urls_of-remove_url :
    (u : String) (es : List UpstreamEndpoint) → urls_of (remove_url u es) ≡ without u (urls_of es)
unfolding remove_url
urls_of-remove_url u [] = refl
urls_of-remove_url u (e ∷ es) = ground (arith, urls_of-remove_url u es)

pub urls_of-mark :
    (is : List EndpointInfo) (es : List UpstreamEndpoint)
    → urls_of (mark_endpoints_as_draining is es) ≡ urls_of es
unfolding mark_endpoints_as_draining mark
urls_of-mark is [] = refl
urls_of-mark is (e ∷ es) = ground (arith, urls_of-mark is es)

is_in_member :
    (e : Endpoint) (es : List Endpoint) → IsMember e es → is_in e.url (get_all_urls es) ≡ true
unfolding get_all_urls
is_in_member e [] m = absurd m
is_in_member e (f ∷ fs) (inl m) = ground (arith, m)
is_in_member e (f ∷ fs) (inr m) = ground (arith, is_in_member e fs m)

has_member : (e : Endpoint) (es : List Endpoint) → IsMember e es → has e.addr es ≡ true
unfolding has
has_member e [] m = absurd m
has_member e (f ∷ fs) (inl m) = ground (arith, m)
has_member e (f ∷ fs) (inr m) = ground (arith, has_member e fs m)

exclude_absent :
    (e : Endpoint) (es : List Endpoint) → has e.addr es ≡ false → exclude_endpoints (e ∷ []) es ≡ es
unfolding exclude_endpoints has
exclude_absent e [] h = refl
exclude_absent e (f ∷ fs) h = ground (arith, exclude_absent e fs)

-- To exclude one endpoint of the list is to take its URL away.
urls-exclude_one :
    (v : Endpoint) (es : List Endpoint)
    → IsDistinct es
    → HasDistinctUrls es
    → IsMember v es
    → get_all_urls (exclude_endpoints (v ∷ []) es) ≡ without v.url (get_all_urls es)
unfolding exclude_endpoints has get_all_urls
urls-exclude_one v [] d u m = absurd m
urls-exclude_one v (f ∷ fs) d u (inl m) = ground (arith, m, exclude_absent v fs, d.0)
urls-exclude_one v (f ∷ fs) d u (inr m) =
    ground
      (arith, urls-exclude_one v fs d.1 u.1 m, is_in_member v fs m, has_member v fs m, d.0, u.0)

exclude_first :
    (v : Endpoint) (vs es : List Endpoint)
    → exclude_endpoints (v ∷ vs) es ≡ exclude_endpoints vs (exclude_endpoints (v ∷ []) es)
unfolding exclude_endpoints has
exclude_first v vs [] = refl
exclude_first v vs (e ∷ es) = ground (arith, exclude_first v vs es)

IsMember-exclude :
    (v w : Endpoint) (es : List Endpoint)
    → v.addr ≢ w.addr
    → IsMember w es
    → IsMember w (exclude_endpoints (v ∷ []) es)
unfolding exclude_endpoints has
IsMember-exclude v w [] n m = absurd m
IsMember-exclude v w (e ∷ es) n (inl m) = ground (arith, n, m)
IsMember-exclude v w (e ∷ es) n (inr m) = ground (arith, n, IsMember-exclude v w es n m)

AreMembers-exclude :
    (v : Endpoint) (vs es : List Endpoint)
    → has v.addr vs ≡ false
    → AreMembers vs es
    → AreMembers vs (exclude_endpoints (v ∷ []) es)
unfolding has
AreMembers-exclude v [] es h m = tt
AreMembers-exclude v (w ∷ vs) es h m = (
  IsMember-exclude v w es (λ q. absurd (ground (arith, q, h))) m.0,
  AreMembers-exclude v vs es (ground (arith, h)) m.1,
)

is_in-exclude :
    (v : Endpoint) (u : String) (es : List Endpoint)
    → is_in u (get_all_urls es) ≡ false
    → is_in u (get_all_urls (exclude_endpoints (v ∷ []) es)) ≡ false
unfolding exclude_endpoints has get_all_urls
is_in-exclude v u [] h = refl
is_in-exclude v u (e ∷ es) h = ground (arith, h, is_in-exclude v u es)

exclude-HasDistinctUrls :
    (v : Endpoint) (es : List Endpoint)
    → HasDistinctUrls es
    → HasDistinctUrls (exclude_endpoints (v ∷ []) es)
unfolding exclude_endpoints has
exclude-HasDistinctUrls v [] h = tt
exclude-HasDistinctUrls v (e ∷ es) h =
    ground (arith, exclude-HasDistinctUrls v es h.1, is_in-exclude v e.url es h.0)

pub urls_of-remove_urls :
    (vs es : List Endpoint) (ups : List UpstreamEndpoint)
    → IsDistinct vs
    → AreMembers vs es
    → IsDistinct es
    → HasDistinctUrls es
    → urls_of ups ≡ get_all_urls es
    → urls_of (remove_urls (received (prepare_endpoint_info vs)) ups)
      ≡ get_all_urls (exclude_endpoints vs es)
unfolding remove_urls prepare_endpoint_info
urls_of-remove_urls [] es ups dv m d u h = ground (arith, exclude_endpoints_nil es, h)
urls_of-remove_urls (v ∷ vs) es ups dv m d u h =
    urls_of-remove_urls vs (exclude_endpoints (v ∷ []) es) (remove_url v.url ups) dv.1
      (AreMembers-exclude v vs es dv.0 m.1) (exclude_endpoints-IsDistinct (v ∷ []) es d)
      (exclude-HasDistinctUrls v es u)
      (ground (arith, urls_of-remove_url v.url ups, h, urls-exclude_one v es d u m.0))
    ∙ ap get_all_urls (sym (exclude_first v vs es))
