-- ===== src/Endpoints/Evict.antt =====
-- The victims of a downscaling (internal/control_plane/scaling_loop.go, eviction_policy.go).
use dirigent.Prelude.{
  ℕ, zero, suc, ◌+◌, ◌-◌, ◌<◌, ◌≡◌, refl, subst, true, false, List, [], ◌∷◌, ◌++◌, some, length,
  get_elem?, erase_idx, get_elem?-some, arith,
}
use dirigent.Prelude.Int.{ℤ, ◌-ℤ◌, pos_part}
use dirigent.Endpoints.{
  Endpoint, Service, has, add_to, eviction_policy, pick_victims, exclude_endpoints, do_downscaling,
  prepare_endpoint_info, deletions, drain_sandbox,
}
use dirigent.Endpoints.Pointers.{
  IsDistinct, IsAmong, exclude_endpoints-IsDistinct, exclude_endpoints_cons, exclude_endpoints_nil,
  exclude_endpoints-get_elem?, has-exclude_endpoints, has_of_get_elem?, length-exclude_endpoints,
}

-- What rand.Intn(n) answers is below n.
abbrev pub IsDraw : (ℕ → ℕ) → Type 0
IsDraw draw = (n : ℕ) → 0 < n → draw n < n

-- The victims so far, and the list without them.
pub record IsPicked (es current victims : List Endpoint) : Type 0 where
  pub left : exclude_endpoints victims es ≡ current
  pub distinct : IsDistinct victims
  pub among : IsAmong victims es

evict_one_absent :
    (e : Endpoint) (es current victims : List Endpoint) (i : ℕ)
    → IsPicked es current victims
    → get_elem? current i ≡ some e
    → (has e.addr victims ≡ false) × (has e.addr es ≡ true)
evict_one_absent e es current victims i p h =
    ground (arith, p.left, has-exclude_endpoints e.addr victims es, has_of_get_elem? current i e h)

evict_one :
    (e : Endpoint) (es current victims : List Endpoint) (i : ℕ)
    → IsDistinct es
    → IsPicked es current victims
    → get_elem? current i ≡ some e
    → IsPicked es (erase_idx current i) (add_to e victims)
unfolding add_to
evict_one e es current victims i d p h =
    let absent = evict_one_absent e es current victims i p h in
    rw absent.0 (record {
      left = ground (
        arith,
        exclude_endpoints_cons e victims es,
        p.left,
        exclude_endpoints-get_elem? current i e
            (subst IsDistinct p.left (exclude_endpoints-IsDistinct victims es d)) h,
      );
      distinct = (absent.0, p.distinct);
      among = (absent.1, p.among);
    })

length-erase_idx :
    {A : Type 0} → (xs : List A) (i : ℕ) → i < length xs → suc (length (erase_idx xs i)) ≡ length xs
length-erase_idx [] i h = ground arith
length-erase_idx (x ∷ xs) zero h = refl
length-erase_idx (x ∷ xs) (suc i) h = ground (arith, length-erase_idx xs i)

pick_victims_round :
    (draw : ℕ → ℕ) (e : Endpoint) (c victims : List Endpoint) (v : Endpoint) (k : ℕ)
    → get_elem? (e ∷ c) (draw (length (e ∷ c))) ≡ some v
    → pick_victims (suc k) draw (e ∷ c) victims
      ≡ pick_victims k draw (erase_idx (e ∷ c) (draw (length (e ∷ c)))) (add_to v victims)
unfolding pick_victims eviction_policy
pick_victims_round draw e c victims v k q = ground (arith, q)

-- The loop of doDownscaling picks distinct endpoints of the list, keeps the others in their order,
-- and picks as many as it has rounds, or all.
pick_victims-IsPicked :
    (draw : ℕ → ℕ)
    → IsDraw draw
    → (es : List Endpoint) → IsDistinct es
    → (k : ℕ) (current victims : List Endpoint) → IsPicked es current victims
    → (let (v, c) = pick_victims k draw current victims in
        IsPicked es c v × (length c ≡ length current - k))
unfolding pick_victims eviction_policy
pick_victims-IsPicked draw r es d zero current victims p = (p, omega arith)
pick_victims-IsPicked draw r es d (suc k) [] victims p =
    let (q, l) = pick_victims-IsPicked draw r es d k [] victims p in (q, omega arith)
pick_victims-IsPicked draw r es d (suc k) (e ∷ c) victims p =
    let i = draw (length (e ∷ c)) in
    let (v, q) = get_elem?-some (e ∷ c) i (r (length (e ∷ c)) (omega arith)) in
    rw (pick_victims_round draw e c victims v k q) (
      let (picked, left) =
        pick_victims-IsPicked draw r es d k (erase_idx (e ∷ c) i) (add_to v victims)
          (evict_one v es (e ∷ c) victims i d p q) in
      (picked, omega (arith, left, length-erase_idx (e ∷ c) i (r (length (e ∷ c)) (omega arith)))))

-- doDownscaling of distinct endpoints removes actualScale - desiredCount of them, or all there are.
-- Those that stay keep their order, and the victims, which the drain request names, are distinct
-- endpoints of the list that are as many as it loses.
pub do_downscaling-IsPicked :
    (draw : ℕ → ℕ)
    → IsDraw draw
    → (actual desired : ℤ) (s : Service) → IsDistinct s.endpoints
    → (let t = do_downscaling draw actual desired s in
        let victims = (pick_victims (pos_part (actual -ℤ desired)) draw s.endpoints []).0 in
        IsPicked s.endpoints t.endpoints victims
        × (length t.endpoints ≡ length s.endpoints - pos_part (actual -ℤ desired))
        × (length victims + length t.endpoints ≡ length s.endpoints)
        × (t.sent ≡ s.sent ++ drain_sandbox (prepare_endpoint_info victims) ∷ deletions victims))
unfolding do_downscaling
do_downscaling-IsPicked draw r actual desired s d =
    let (p, l) =
      pick_victims-IsPicked draw r s.endpoints d (pos_part (actual -ℤ desired)) s.endpoints []
        (record { left = exclude_endpoints_nil s.endpoints; distinct = tt; among = tt }) in
    (
      record { left = refl; distinct = p.distinct; among = p.among },
      rw p.left l,
      length-exclude_endpoints _ s.endpoints p.distinct d p.among,
      refl,
    )
