-- ===== src/AsyncProxy/Garbage.antt =====
-- The responses that the garbage collector drops (internal/data_plane/proxy/async_proxy_handler.go).
use dirigent.Prelude.{
  ℕ, ◌+◌, ◌≤◌, ◌≡◌, refl, Bool, true, false, String, List, [], ◌∷◌, none, some, arith,
  if◌then◌else◌,
}
use dirigent.Prelude.Int.{pos, ◌-ℤ◌, ltb_ℤ}
use dirigent.Prelude.Maps.{lookup, insert, IsMap, lookup-insert, insert-IsMap}
use dirigent.Prelude.Names.{string_discrete}
use dirigent.AsyncProxy.{
  BufferedRequest, BufferedResponse, AsyncProxyingService, give_up, drop_old, collect_garbage,
  read_response, gave_up,
}

-- Whether a response is dropped.
abbrev pub is_old : ℕ → BufferedResponse → Bool
is_old now r = ltb_ℤ (pos 60_000_000_000) (pos now -ℤ r.timestamp)

lookup-drop_old :
    (now : ℕ) (rs : List (String × BufferedResponse)) (code : String)
    → IsMap string_discrete rs
    → lookup string_discrete code (drop_old now rs) ≡ (elim (lookup string_discrete code rs) [
      | none ↦ none
      | some r ↦ if is_old now r then none else some r
    ])
unfolding drop_old lookup
lookup-drop_old now [] code m = refl
lookup-drop_old now ((key, r) ∷ rs) code m = ground (arith, lookup-drop_old now rs code m.1, m.0)

gave_up_old : (now : ℕ) → is_old now gave_up ≡ true
unfolding ◌-ℤ◌
gave_up_old now = ground arith

young :
    (now t : ℕ) (x : BufferedResponse)
    → x.timestamp ≡ pos t
    → now ≤ t + 60_000_000_000
    → is_old now x ≡ false
unfolding ◌-ℤ◌
young now t x e h = ground (arith, e, h)

-- The failure response of a request that was given up is dropped by the next garbage collection,
-- whatever the time, since it has no time of its own; a response with a time stays for 60 billion
-- seconds after it.
pub collect_garbage-give_up :
    (now : ℕ) (r : BufferedRequest) (s : AsyncProxyingService) (code : String)
    (x : BufferedResponse) (t : ℕ)
    → IsMap string_discrete s.responses
    → read_response code s ≡ some x
    → x.timestamp ≡ pos t
    → now ≤ t + 60_000_000_000
    → (let after = give_up r s in
        (read_response r.code after ≡ some gave_up)
        × (read_response r.code (collect_garbage now after) ≡ none)
        × (read_response code (collect_garbage now s) ≡ some x))
unfolding give_up read_response collect_garbage
collect_garbage-give_up now r s code x t map l e late =
    let after = insert string_discrete r.code gave_up s.responses in
    let found = lookup-insert string_discrete r.code r.code gave_up s.responses in
    let map' = insert-IsMap string_discrete r.code gave_up s.responses map in
    (
      ground (arith, found),
      ground (arith, found, lookup-drop_old now after r.code map', gave_up_old now),
      ground (arith, lookup-drop_old now s.responses code map, l, young now t x e late),
    )
