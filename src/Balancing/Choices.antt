-- ===== src/Balancing/Choices.antt =====
-- What the policies of internal/data_plane/proxy/load_balancing/load_balancing.go choose.
use dirigent.Prelude.{
  ℕ, suc, ◌<◌, ◌≤◌, ◌≡◌, ◌≢◌, ◌⊎◌, inl, inr, refl, List, [], ◌∷◌, none, some, sym, ap, Bool-cases,
  length, get_elem?, ltb, All, arith,
}
use dirigent.Functions.{UpstreamEndpoint, FunctionMetadata}
use dirigent.Balancing.{
  least_of, least_processed_load_balancing, two_indices, best_of_two_randoms, longer_queue,
  get_local_queue_length, first_available, kubernetes_first_available_load_balancing,
  random_endpoint,
}

-- generateTwoUniformRandomEndpoints draws two different indices of the list.
pub two_indices-distinct :
    (n r1 r2 : ℕ)
    → r1 < n
    → suc r2 < n
    → (let (i, j) = two_indices r1 r2 in (i < n) × (j < n) × (i ≢ j))
unfolding two_indices
two_indices-distinct n r1 r2 h k = ground arith

-- An endpoint at some index of the list.
abbrev pub IsIn : UpstreamEndpoint → List UpstreamEndpoint → Type 0
IsIn e es = (i : ℕ) × (get_elem? es i ≡ some e)

abbrev pub IsLeast : (ℕ → ℕ) → UpstreamEndpoint → List UpstreamEndpoint → Type 0
IsLeast count b es = All (λ (e : UpstreamEndpoint). count b.addr ≤ count e.addr) es

IsLeast-le :
    (count : ℕ → ℕ) (a b : UpstreamEndpoint) (es : List UpstreamEndpoint)
    → count a.addr ≤ count b.addr
    → IsLeast count b es
    → IsLeast count a es
IsLeast-le count a b [] h l = tt
IsLeast-le count a b (e ∷ es) h l = (omega (arith, l.0), IsLeast-le count a b es h l.1)

least_of-IsLeast :
    (count : ℕ → ℕ) (b : UpstreamEndpoint) (es : List UpstreamEndpoint)
    → IsLeast count (least_of count b es) (b ∷ es)
unfolding least_of
least_of-IsLeast count b [] = (omega arith, tt)
least_of-IsLeast count b (e ∷ es) =
    ground (arith, least_of-IsLeast count e es, least_of-IsLeast count b es)

least_of-IsIn :
    (count : ℕ → ℕ) (b : UpstreamEndpoint) (es : List UpstreamEndpoint)
    → (least_of count b es ≡ b) ⊎ IsIn (least_of count b es) es
unfolding least_of
least_of-IsIn count b [] = inl refl
least_of-IsIn count b (e ∷ es) = elim (Bool-cases (ltb (count e.addr) (count b.addr))) [
  | inl t ↦
      rw (least_of, t)
        (elim (least_of-IsIn count e es) [
          | inl q ↦ inr (0, sym (ap some q))
          | inr (i, q) ↦ inr (suc i, q)
        ])
  | inr f ↦
      rw (least_of, f)
        (elim (least_of-IsIn count b es) [ inl q ↦ inl q | inr (i, q) ↦ inr (suc i, q) ])
]

least_of_all :
    (count : ℕ → ℕ) (b : UpstreamEndpoint) (es : List UpstreamEndpoint)
    → IsIn (least_of count b (b ∷ es)) (b ∷ es)
least_of_all count b es = elim (least_of-IsIn count b (b ∷ es)) [
  | inl q ↦ (0, sym (ap some q))
  | inr p ↦ p
]

chosen-IsLeast :
    (count : ℕ → ℕ) (es : List UpstreamEndpoint)
    → 0 < length es
    → (e : UpstreamEndpoint) × ((elim es [ [] ↦ none | b ∷ bs ↦ some (least_of count b (b ∷ bs)) ])
        ≡ some e)
      × IsIn e es
      × IsLeast count e es
chosen-IsLeast count [] h = absurd (omega arith)
chosen-IsLeast count (b ∷ bs) h = (
  least_of count b (b ∷ bs),
  refl,
  least_of_all count b bs,
  (least_of-IsLeast count b (b ∷ bs)).1,
)

-- The endpoint that leastProcessedLoadBalancing chooses is one of the function's, and none of them
-- has processed fewer requests.
pub least_processed_load_balancing-IsLeast :
    (m : FunctionMetadata)
    → 0 < length m.upstream_endpoints
    → (e : UpstreamEndpoint) × (least_processed_load_balancing m ≡ some e)
      × IsIn e m.upstream_endpoints
      × IsLeast m.request_count_per_instance e m.upstream_endpoints
unfolding least_processed_load_balancing
least_processed_load_balancing-IsLeast m h =
    chosen-IsLeast m.request_count_per_instance m.upstream_endpoints h

first_available_cases :
    (es : List UpstreamEndpoint)
    → ((e : UpstreamEndpoint) × (first_available es ≡ some e) × IsIn e es × (0 < e.capacity))
      ⊎ (All (λ (e : UpstreamEndpoint). e.capacity ≡ 0) es × (first_available es ≡ none))
unfolding first_available
first_available_cases [] = inr (tt, refl)
first_available_cases (e ∷ es) = elim (Bool-cases (ltb 0 e.capacity)) [
  | inl t ↦ inl (e, rw (first_available, t) refl, (0, refl), ground arith)
  | inr f ↦ elim (first_available_cases es) [
    | inl (a, q, (i, p), c) ↦ inl (a, rw (first_available, f) q, (suc i, p), c)
    | inr (all, q) ↦ inr ((ground arith, all), rw (first_available, f) q)
  ]
]

-- kubernetesFirstAvailableLoadBalancing takes the first endpoint that has capacity, and a random
-- one when none has.
pub kubernetes_first_available_load_balancing-available :
    (r : ℕ) (m : FunctionMetadata)
    → ((e : UpstreamEndpoint) × (kubernetes_first_available_load_balancing r m ≡ some e)
        × IsIn e m.upstream_endpoints
        × (0 < e.capacity))
      ⊎ (All (λ (e : UpstreamEndpoint). e.capacity ≡ 0) m.upstream_endpoints
          × (kubernetes_first_available_load_balancing r m ≡ get_elem? m.upstream_endpoints r))
unfolding kubernetes_first_available_load_balancing random_endpoint
kubernetes_first_available_load_balancing-available r m =
    elim (first_available_cases m.upstream_endpoints) [
      | inl (e, q, i, c) ↦ inl (e, rw (kubernetes_first_available_load_balancing, q) refl, i, c)
      | inr (all, q) ↦ inr (all, rw (kubernetes_first_available_load_balancing, q) refl)
    ]

-- With two endpoints or more, bestOfTwoRandoms draws two different ones and takes the one with the
-- longer queue, the second when both are as long.
pub best_of_two_randoms-longer :
    (r1 r2 : ℕ) (m : FunctionMetadata) (a b : UpstreamEndpoint)
    → r1 < length m.upstream_endpoints
    → suc r2 < length m.upstream_endpoints
    → get_elem? m.upstream_endpoints (two_indices r1 r2).0 ≡ some a
    → get_elem? m.upstream_endpoints (two_indices r1 r2).1 ≡ some b
    → ((two_indices r1 r2).0 ≢ (two_indices r1 r2).1)
      × (get_local_queue_length m b < get_local_queue_length m a
          → best_of_two_randoms r1 r2 m ≡ some a)
      × (get_local_queue_length m a ≤ get_local_queue_length m b
          → best_of_two_randoms r1 r2 m ≡ some b)
unfolding best_of_two_randoms longer_queue
best_of_two_randoms-longer r1 r2 m a b h k p q = (
  (two_indices-distinct (length m.upstream_endpoints) r1 r2 h k).2,
  (λ l. ground (arith, p, q)),
  (λ l. ground (arith, p, q)),
)
