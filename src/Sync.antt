-- ===== src/Sync.antt =====
-- pkg/synchronization/control_plane_sync.go: a map with its lock, which is not reentrant. A call that
-- asks for a lock while its own goroutine holds it waits for ever. The locks of other goroutines are
-- released in the end, so that they do not show here; `locked` is what the running one holds.
use dirigent.Prelude.{
  ℕ, Bool, true, false, String, List, [], Option, none, some, if◌then◌else◌, length,
}
use dirigent.Prelude.Maps.{lookup, insert, remove, keys, values}
use dirigent.Prelude.Names.{string_discrete}
use dirigent.Prelude.Results.{Result, returns, waits, ◌>>=◌}

pub record Structure (V : Type 0) : Type 0 where
  pub internal_map : List (String × V)
  pub locked : Bool

module _ {V : Type 0} where
  -- NewControlPlaneSyncStructure
  unfoldable pub new_structure : Structure V
  new_structure = record { internal_map = []; locked = false }

  -- Lock, and RLock, which waits for the same goroutine's Lock as well.
  unfoldable pub lock : Structure V → Result (Structure V)
  lock s = if s.locked then waits else returns (record s { locked = true })

  unfoldable pub unlock : Structure V → Structure V
  unlock s = record s { locked = false }

  unfoldable pub set : String → V → Structure V → Structure V
  set key value s = record s { internal_map = insert string_discrete key value s.internal_map }

  unfoldable pub get : String → Structure V → Option V
  get key s = lookup string_discrete key s.internal_map

  unfoldable pub remove_key : String → Structure V → Structure V
  remove_key key s = record s { internal_map = remove string_discrete key s.internal_map }

  unfoldable pub present : String → Structure V → Bool
  unfolding get
  present key s = elim (get key s) [ none ↦ false | some v ↦ true ]

  unfoldable pub atomic_set : String → V → Structure V → Result (Structure V)
  unfolding lock set unlock
  atomic_set key value s = do s' ← lock s; returns (unlock (set key value s'))

  unfoldable pub atomic_get : String → Structure V → Result (Option V)
  unfolding lock get
  atomic_get key s = do s' ← lock s; returns (get key s')

  unfoldable pub atomic_remove : String → Structure V → Result (Structure V)
  unfolding lock remove_key unlock
  atomic_remove key s = do s' ← lock s; returns (unlock (remove_key key s'))

  unfoldable pub len : Structure V → ℕ
  len s = length s.internal_map

  unfoldable pub atomic_len : Structure V → Result ℕ
  unfolding lock len
  atomic_len s = do s' ← lock s; returns (len s')

  -- In the order in which the map happens to be visited.
  unfoldable pub get_keys : Structure V → List String
  get_keys s = keys s.internal_map

  unfoldable pub get_values : Structure V → List V
  get_values s = values s.internal_map
