-- ===== src/Endpoints/Pointers.antt =====
-- Sets of endpoints: the maps of internal/control_plane/scaling_loop.go that are keyed by pointers.
use dirigent.Prelude.{
  ℕ, zero, suc, ◌+◌, ◌≡◌, refl, true, false, List, [], ◌∷◌, some, length, get_elem?, erase_idx,
  arith, if◌then◌else◌,
}
use dirigent.Endpoints.{Endpoint, has, exclude_endpoints}

-- No endpoint stands twice.
abbrev pub IsDistinct : List Endpoint → Type 0
IsDistinct [] = Unit
IsDistinct (e ∷ es) = (has e.addr es ≡ false) × IsDistinct es

pub has-exclude_endpoints :
    (x : ℕ) (out es : List Endpoint)
    → has x (exclude_endpoints out es) ≡ (if has x out then false else has x es)
unfolding has exclude_endpoints
has-exclude_endpoints x out [] = ground arith
has-exclude_endpoints x out (e ∷ es) = ground (arith, has-exclude_endpoints x out es)

pub exclude_endpoints-IsDistinct :
    (out es : List Endpoint) → IsDistinct es → IsDistinct (exclude_endpoints out es)
unfolding exclude_endpoints
exclude_endpoints-IsDistinct out [] h = tt
exclude_endpoints-IsDistinct out (e ∷ es) h =
    ground (arith, exclude_endpoints-IsDistinct out es h.1, has-exclude_endpoints e.addr out es)

pub exclude_endpoints_nil : (es : List Endpoint) → exclude_endpoints [] es ≡ es
unfolding has exclude_endpoints
exclude_endpoints_nil [] = refl
exclude_endpoints_nil (e ∷ es) = ground (arith, exclude_endpoints_nil es)

pub exclude_endpoints_cons :
    (e : Endpoint) (out es : List Endpoint)
    → exclude_endpoints (e ∷ out) es ≡ exclude_endpoints (e ∷ []) (exclude_endpoints out es)
unfolding has exclude_endpoints
exclude_endpoints_cons e out [] = refl
exclude_endpoints_cons e out (f ∷ fs) = ground (arith, exclude_endpoints_cons e out fs)

pub exclude_endpoints_absent :
    (e : Endpoint) (es : List Endpoint) → has e.addr es ≡ false → exclude_endpoints (e ∷ []) es ≡ es
unfolding has exclude_endpoints
exclude_endpoints_absent e [] h = refl
exclude_endpoints_absent e (f ∷ fs) h = ground (arith, exclude_endpoints_absent e fs)

pub has_of_get_elem? :
    (es : List Endpoint) (i : ℕ) (e : Endpoint) → get_elem? es i ≡ some e → has e.addr es ≡ true
unfolding has
has_of_get_elem? [] i e h = ground arith
has_of_get_elem? (f ∷ fs) zero e h = ground arith
has_of_get_elem? (f ∷ fs) (suc i) e h = ground (arith, has_of_get_elem? fs i e h)

-- In a list of distinct endpoints, to exclude one is to erase it where it stands.
pub exclude_endpoints-get_elem? :
    (es : List Endpoint) (i : ℕ) (e : Endpoint)
    → IsDistinct es
    → get_elem? es i ≡ some e
    → exclude_endpoints (e ∷ []) es ≡ erase_idx es i
unfolding has exclude_endpoints
exclude_endpoints-get_elem? [] i e d h = refl
exclude_endpoints-get_elem? (f ∷ fs) zero e d h = ground (arith, exclude_endpoints_absent e fs)
exclude_endpoints-get_elem? (f ∷ fs) (suc i) e d h =
    ground (arith, exclude_endpoints-get_elem? fs i e d.1 h, has_of_get_elem? fs i e h)

pub length-exclude_endpoints_one :
    (e : Endpoint) (es : List Endpoint)
    → IsDistinct es
    → has e.addr es ≡ true
    → suc (length (exclude_endpoints (e ∷ []) es)) ≡ length es
unfolding has exclude_endpoints
length-exclude_endpoints_one e [] d h = ground arith
length-exclude_endpoints_one e (f ∷ fs) d h =
    ground (arith, length-exclude_endpoints_one e fs d.1, exclude_endpoints_absent e fs)

-- Every endpoint of the first list stands in the second.
abbrev pub IsAmong : List Endpoint → List Endpoint → Type 0
IsAmong [] es = Unit
IsAmong (v ∷ vs) es = (has v.addr es ≡ true) × IsAmong vs es

-- To exclude distinct endpoints of the list shortens it by their number.
pub length-exclude_endpoints :
    (out es : List Endpoint)
    → IsDistinct out
    → IsDistinct es
    → IsAmong out es
    → length out + length (exclude_endpoints out es) ≡ length es
length-exclude_endpoints [] es o d a = ground (arith, exclude_endpoints_nil es)
length-exclude_endpoints (v ∷ vs) es o d a = ground (
  arith,
  length-exclude_endpoints vs es o.1 d a.1,
  exclude_endpoints_cons v vs es,
  has-exclude_endpoints v.addr vs es,
  length-exclude_endpoints_one v (exclude_endpoints vs es) (exclude_endpoints-IsDistinct vs es d),
)
