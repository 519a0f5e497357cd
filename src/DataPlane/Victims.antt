-- ===== src/DataPlane/Victims.antt =====
-- The victims of a downscaling are endpoints of the service (internal/control_plane/scaling_loop.go,
-- eviction_policy/eviction_policy.go).
use dirigent.Prelude.{
  ℕ, zero, suc, ◌≡◌, refl, subst, List, [], ◌∷◌, some, arith, length, get_elem?, erase_idx,
  Option-cases, Bool-cases, inl, inr,
}
use dirigent.Endpoints.{Endpoint, add_to, pick_victims, eviction_policy, has}
use dirigent.DataPlane.Follows.{IsMember, AreMembers}

AreMembers-cons : (e : Endpoint) (vs es : List Endpoint) → AreMembers vs es → AreMembers vs (e ∷ es)
AreMembers-cons e [] es m = tt
AreMembers-cons e (v ∷ vs) es m = (inr m.0, AreMembers-cons e vs es m.1)

pub AreMembers-refl : (es : List Endpoint) → AreMembers es es
AreMembers-refl [] = tt
AreMembers-refl (e ∷ es) = (inl refl, AreMembers-cons e es es (AreMembers-refl es))

AreMembers-erase_idx :
    (vs es : List Endpoint) (i : ℕ) → AreMembers vs es → AreMembers (erase_idx vs i) es
AreMembers-erase_idx [] es i m = tt
AreMembers-erase_idx (v ∷ vs) es zero m = m.1
AreMembers-erase_idx (v ∷ vs) es (suc i) m = (m.0, AreMembers-erase_idx vs es i m.1)

IsMember-get_elem? :
    (vs es : List Endpoint) (i : ℕ) (v : Endpoint)
    → AreMembers vs es
    → get_elem? vs i ≡ some v
    → IsMember v es
IsMember-get_elem? [] es i v m q = absurd (ground (arith, q))
IsMember-get_elem? (w ∷ vs) es zero v m q = subst (λ x. IsMember x es) (ground (arith, q)) m.0
IsMember-get_elem? (w ∷ vs) es (suc i) v m q = IsMember-get_elem? vs es i v m.1 q

AreMembers-add_to :
    (v : Endpoint) (vs es : List Endpoint)
    → IsMember v es
    → AreMembers vs es
    → AreMembers (add_to v vs) es
unfolding add_to
AreMembers-add_to v vs es h m = elim (Bool-cases (has v.addr vs)) [
  | inl q ↦ rw (add_to, q) m
  | inr q ↦ rw (add_to, q) (h, m)
]

pub pick_victims-AreMembers :
    (draw : ℕ → ℕ) (es : List Endpoint) (k : ℕ) (current victims : List Endpoint)
    → AreMembers current es
    → AreMembers victims es
    → AreMembers (pick_victims k draw current victims).0 es
unfolding pick_victims eviction_policy
pick_victims-AreMembers draw es zero current victims c v = v
pick_victims-AreMembers draw es (suc k) [] victims c v =
    pick_victims-AreMembers draw es k [] victims c v
pick_victims-AreMembers draw es (suc k) (e ∷ current) victims c v =
    let i = draw (length (e ∷ current)) in
    elim (Option-cases (get_elem? (e ∷ current) i)) [
      | inl n ↦ rw (pick_victims, n) (pick_victims-AreMembers draw es k (e ∷ current) victims c v)
      | inr (w, n) ↦
          rw (pick_victims, n)
            (pick_victims-AreMembers draw es k (erase_idx (e ∷ current) i) (add_to w victims)
              (AreMembers-erase_idx (e ∷ current) es i c)
              (AreMembers-add_to w victims es (IsMember-get_elem? (e ∷ current) es i w c n) v))
    ]
