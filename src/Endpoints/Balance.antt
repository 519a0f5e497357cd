-- ===== src/Endpoints/Balance.antt =====
-- The actual scale and the endpoints of a service (internal/control_plane/scaling_loop.go,
-- failure.go).
use dirigent.Prelude.{
  ℕ, suc, ◌+◌, ◌-◌, ◌<◌, ◌≤◌, ◌≡◌, inl, inr, Option-cases, refl, true, false, String, List, [], ◌∷◌,
  ◌++◌, some, length, length-append, arith,
}
use dirigent.Prelude.Int.{ℤ, pos, ◌-ℤ◌, ◌<ℤ◌, pos_part}
use dirigent.Endpoints.{
  Endpoint, Service, Creation, no_node, creation_failed, created, create_one, do_upscaling,
  do_downscaling, scaling_round, last_desired, has, add_to, collect_failed, remove_endpoints,
  search_endpoint_by_container_name, prepare_endpoint_info, update_endpoint_list,
}
use dirigent.Endpoints.Pointers.{
  IsDistinct, IsAmong, exclude_endpoints-IsDistinct, length-exclude_endpoints,
}
use dirigent.Endpoints.Evict.{IsDraw, do_downscaling-IsPicked}

-- The actual scale counts the endpoints.
abbrev pub IsBalanced : Service → Type 0
IsBalanced s = s.actual_scale ≡ pos (length s.endpoints)

pos_part-sub : (a b : ℕ) → pos_part (pos a -ℤ pos b) ≡ a - b
unfolding ◌-ℤ◌
pos_part-sub a b = ground arith

sub_one : (n : ℕ) → pos (suc n) -ℤ pos 1 ≡ pos n
unfolding ◌-ℤ◌
sub_one n = ground arith

pub sub_pos : (a b : ℕ) → b ≤ a → pos a -ℤ pos b ≡ pos (a - b)
unfolding ◌-ℤ◌
sub_pos a b h = ground arith

fail_one : (x : ℤ) (a b : ℕ) → x ≡ pos (a + suc b) → x -ℤ pos 1 ≡ pos (a + b)
fail_one x a b h = ground (arith, sub_one (a + b))

-- When the scale is ahead of the endpoints by as much as there are creations, it counts the
-- endpoints once they have all ended, however many of them failed.
pub do_upscaling-IsBalanced :
    (cs : List Creation) (s : Service)
    → s.actual_scale ≡ pos (length s.endpoints + length cs)
    → IsBalanced (do_upscaling cs s)
unfolding do_upscaling create_one
do_upscaling-IsBalanced [] s h = ground arith
do_upscaling-IsBalanced (no_node ∷ cs) s h =
    do_upscaling-IsBalanced cs _ (fail_one s.actual_scale (length s.endpoints) (length cs) h)
do_upscaling-IsBalanced (creation_failed ∷ cs) s h =
    do_upscaling-IsBalanced cs _ (fail_one s.actual_scale (length s.endpoints) (length cs) h)
do_upscaling-IsBalanced (created e ∷ cs) s h =
    do_upscaling-IsBalanced cs _ (ground (arith, h, length-append s.endpoints (e ∷ [])))

up_by :
    (make : ℕ → List Creation)
    → ((n : ℕ) → length (make n) ≡ n)
    → (n desired : ℕ) → n < desired
    → pos desired ≡ pos (n + length (make (pos_part (pos desired -ℤ pos n))))
up_by make m n desired h =
    ground (arith, m (pos_part (pos desired -ℤ pos n)), pos_part-sub desired n)

down_by :
    (draw : ℕ → ℕ)
    → IsDraw draw
    → (s : Service) → IsDistinct s.endpoints
    → (desired : ℕ) → s.actual_scale ≡ pos desired
    → desired < length s.endpoints
    → IsBalanced (do_downscaling draw (pos (length s.endpoints)) (pos desired) s)
unfolding do_downscaling
down_by draw r s d desired h l = ground (
  arith,
  (do_downscaling-IsPicked draw r (pos (length s.endpoints)) (pos desired) s d).1,
  pos_part-sub (length s.endpoints) desired,
)

-- A round of the scaling loop for a desired scale that is not negative, which starts with distinct
-- endpoints as many as the actual scale, ends with the actual scale equal to the number of
-- endpoints, whatever creations fail, unless downscaling is disabled. The created endpoints are
-- appended one after the other.
pub scaling_round-IsBalanced :
    (make : ℕ → List Creation)
    → ((n : ℕ) → length (make n) ≡ n)
    → (draw : ℕ → ℕ) → IsDraw draw
    → (first : ℤ) (more : List ℤ) (desired : ℕ) → last_desired first more ≡ pos desired
    → (s : Service) → IsDistinct s.endpoints
    → IsBalanced s
    → IsBalanced (scaling_round make draw false first more s)
unfolding scaling_round
scaling_round-IsBalanced make m draw r first more desired l s d b =
    let s' = record s { actual_scale = pos desired } in
    let n = length s.endpoints in
    rw (b, l)
      (ground (
        arith,
        do_upscaling-IsBalanced (make (pos_part (pos desired -ℤ pos n))) s',
        up_by make m n desired,
        down_by draw r s' d desired refl,
      ))

-- A round that would scale down while downscaling is disabled lowers the actual scale and leaves
-- every endpoint: a later round for the same scale changes nothing, so the surplus stays.
pub scaling_round_disabled :
    (make : ℕ → List Creation) (draw : ℕ → ℕ) (d : ℤ) (s : Service)
    → d <ℤ s.actual_scale
    → (let t = scaling_round make draw true d [] s in
        (t.actual_scale ≡ d)
        × (t.endpoints ≡ s.endpoints)
        × (t.sent ≡ s.sent)
        × (scaling_round make draw false d [] t ≡ t))
unfolding scaling_round last_desired
scaling_round_disabled make draw d s h = ground arith

-- The endpoints found so far are distinct ones of the service.
pub record IsFound (es found : List Endpoint) : Type 0 where
  pub distinct : IsDistinct found
  pub among : IsAmong found es

search-has :
    (es : List Endpoint) (cid : String) (e : Endpoint)
    → search_endpoint_by_container_name es cid ≡ some e
    → has e.addr es ≡ true
unfolding search_endpoint_by_container_name has
search-has [] cid e h = ground arith
search-has (f ∷ fs) cid e h = ground (arith, search-has fs cid e)

pub add_to-IsFound :
    (e : Endpoint) (es found : List Endpoint)
    → has e.addr es ≡ true
    → IsFound es found
    → IsFound es (add_to e found)
unfolding add_to
add_to-IsFound e es found h f = ground (arith, f.distinct, f.among)

collect_failed-IsFound :
    (cids : List String) (es found : List Endpoint)
    → IsFound es found
    → IsFound es (collect_failed cids es found)
unfolding collect_failed search_endpoint_by_container_name
collect_failed-IsFound [] es found f = f
collect_failed-IsFound (cid ∷ cids) es found f =
    elim (Option-cases (search_endpoint_by_container_name es cid)) [
      | inl n ↦ rw (collect_failed, n) (collect_failed-IsFound cids es found f)
      | inr (e, q) ↦
          rw (collect_failed, q)
            (collect_failed-IsFound cids es (add_to e found)
              (add_to-IsFound e es found (search-has es cid e q) f))
    ]

-- removeEndpoints keeps the actual scale equal to the number of distinct endpoints, whatever sandboxes are
-- reported, unknown and repeated ones included, and sends the list that is left.
pub remove_endpoints-IsBalanced :
    (cids : List String) (s : Service)
    → IsDistinct s.endpoints
    → IsBalanced s
    → (let t = remove_endpoints cids s in
        IsBalanced t
        × IsDistinct t.endpoints
        × (t.sent ≡ s.sent ++ update_endpoint_list (prepare_endpoint_info t.endpoints) ∷ []))
unfolding remove_endpoints
remove_endpoints-IsBalanced cids s d b =
    let found = collect_failed cids s.endpoints [] in
    let f = collect_failed-IsFound cids s.endpoints [] (record { distinct = tt; among = tt }) in
    let l = length-exclude_endpoints found s.endpoints f.distinct d f.among in
    let g = sub_pos (length s.endpoints) (length found) (omega arith) in
    (rw b (ground (arith, g, l)), exclude_endpoints-IsDistinct found s.endpoints d, refl)
