-- ===== src/Autoscaling/Total.antt =====
-- The cached scaling metric against the per-data-plane metrics
-- (RemoveDataplane and SetCachedScalingMetric of internal/control_plane/autoscaling/autoscaling.go).
use dirigent.Prelude.{◌≡◌, String, List, [], ◌∷◌, none, subst}
use mathlib.Core.Logic.{if_pos, if_neg}
use dirigent.Prelude.Int.{ℤ, pos, ◌+ℤ◌, ◌-ℤ◌, wrap32, wrap32-add, wrap32-sub, int_laws}
use dirigent.Prelude.Maps.{
  lookup, insert, remove, IsMap, insert-IsMap, remove-IsMap, remove_of_none,
}
use dirigent.Prelude.Names.{string_discrete}
use dirigent.Autoscaling.Metadata.{
  AutoscalingMetadata, AutoscalingMetric, inflight_of, remove_dataplane, set_cached_scaling_metric,
}

-- The exact sum of the metrics that the data planes have reported last.
unfoldable pub total : List (String × ℤ) → ℤ
total [] = pos 0
total ((k, v) ∷ m) = v +ℤ total m

total-insert :
    (k : String) (v : ℤ) (m : List (String × ℤ))
    → total (insert string_discrete k v m) ≡ total m +ℤ (v -ℤ inflight_of k m)
unfolding total insert lookup
total-insert k v [] = omega int_laws
total-insert k v ((j, w) ∷ m) = elim (string_discrete j k) [
  | yes p ↦ rw (if_pos _ p, if_pos _ p) (omega int_laws)
  | no p ↦ rw (if_neg _ p, if_neg _ p, total-insert k v m) (omega int_laws)
]

total-remove :
    (k : String) (m : List (String × ℤ))
    → IsMap string_discrete m
    → total (remove string_discrete k m) ≡ total m -ℤ inflight_of k m
unfolding total remove lookup
total-remove k [] h = omega int_laws
total-remove k ((j, w) ∷ m) h = elim (string_discrete j k) [
  | yes p ↦
      rw (if_pos _ p, if_pos _ p)
        (rw
          (remove_of_none string_discrete k m
            (subst (λ i. lookup string_discrete i m ≡ none) p h.0))
          (omega int_laws))
  | no p ↦ rw (if_neg _ p, if_neg _ p, total-remove k m h.1) (omega int_laws)
]

-- The cached metric is the sum of what the data planes reported last, as an int32, and the map of
-- these reports is a map.
pub record IsTotal {F : Type 0} (s : AutoscalingMetadata F) : Type 0 where
  pub sums : s.cached_scaling_metric ≡ wrap32 (total s.inflight_requests)
  pub is_map : IsMap string_discrete s.inflight_requests

module _ {F : Type 0} where
  -- A report of a data plane keeps the cached metric the sum of the reports.
  pub set_cached_scaling_metric-IsTotal :
      (m : AutoscalingMetric) (s : AutoscalingMetadata F)
      → IsTotal s
      → IsTotal (set_cached_scaling_metric m s)
  unfolding set_cached_scaling_metric
  set_cached_scaling_metric-IsTotal m s t = record {
    sums =
        rw (
          t.sums,
          wrap32-add,
          total-insert m.dataplane_name m.inflight_requests s.inflight_requests,
        );
    is_map =
        insert-IsMap string_discrete m.dataplane_name m.inflight_requests s.inflight_requests
          t.is_map;
  }

  -- The removal of a data plane keeps the cached metric the sum of the other reports, whether or not
  -- the data plane has reported.
  pub remove_dataplane-IsTotal :
      (name : String) (s : AutoscalingMetadata F) → IsTotal s → IsTotal (remove_dataplane name s)
  unfolding remove_dataplane
  remove_dataplane-IsTotal name s t = record {
    sums = rw (t.sums, wrap32-sub, total-remove name s.inflight_requests t.is_map);
    is_map = remove-IsMap string_discrete name s.inflight_requests t.is_map;
  }
