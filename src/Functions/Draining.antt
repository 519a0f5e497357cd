-- ===== src/Functions/Draining.antt =====
-- The requests in flight at an endpoint and its draining
-- (internal/data_plane/function_metadata/function_metadata.go, internal/data_plane/proxy/utils.go).
use dirigent.Prelude.{
  ℕ, suc, ◌-◌, ◌<◌, ◌≤◌, ◌^◌, ◌≡◌, ◌⊎◌, refl, Bool, true, false, Option, some, none, arith,
  if◌then◌else◌,
}
use dirigent.Prelude.Int.{pos, ◌+ℤ◌, ◌-ℤ◌, ◌==ℤ◌, wrap32, wrap32_of_IsInt32}
use dirigent.Functions.{UpstreamEndpoint, mark, give_back_cc_capacity, take_capacity, receive}

-- A request takes the endpoint, or gives it back, or the endpoint is to be drained, or DrainEndpoints
-- receives the endpoint's message.
pub data Use : Type 0 where
  taken given marked released : Use

unfoldable pub apply : Use → UpstreamEndpoint → Option UpstreamEndpoint
apply taken e = take_capacity e
apply given e = give_back_cc_capacity e
apply marked e = some (mark e)
apply released e = receive e

-- The number of messages in the buffer of DrainingCallback.
abbrev pub buffered : Option ℕ → ℕ
buffered none = 0
buffered (some n) = n

abbrev pub is_some : Option ℕ → Bool
is_some none = false
is_some (some n) = true

-- Whether DrainEndpoints has had the endpoint's message after a use of it.
abbrev pub is_released : Use → Bool → Bool
is_released released b = true
is_released u b = b

-- DrainingCallback is there once the endpoint is drained, with at most one message, and then, whenever
-- no request is in flight, the message is there or has been received.
pub record HasBarrier (has_had : Bool) (e : UpstreamEndpoint) : Type 0 where
  pub open_until : is_some e.draining_callback ≡ e.drained
  pub room : buffered e.draining_callback ≤ 1
  pub sent :
      e.drained ≡ true → e.in_flight ≡ pos 0 → (buffered e.draining_callback ≡ 1) ⊎ (has_had ≡ true)

-- The requests in flight are as many as the tokens that are out of the Capacity channel.
pub record HasTokens (k : ℕ) (e : UpstreamEndpoint) : Type 0 where
  pub fits : e.capacity ≤ k
  pub counts : e.in_flight ≡ pos (k - e.capacity)

next_int32 : (n : ℕ) → suc n < 2 ^ 31 → wrap32 (pos n +ℤ pos 1) ≡ pos (suc n)
unfolding ◌+ℤ◌
next_int32 n h = ground (arith, wrap32_of_IsInt32 (pos (suc n)))

last_int32 : (n : ℕ) → suc n < 2 ^ 31 → wrap32 (pos (suc n) -ℤ pos 1) ≡ pos n
unfolding ◌-ℤ◌
last_int32 n h = ground (arith, wrap32_of_IsInt32 (pos n))

-- At an endpoint with k tokens never more than k requests are in flight, as long as every request
-- that is given back was in flight.
pub apply-HasTokens :
    (k : ℕ) (u : Use) (e e' : UpstreamEndpoint)
    → k < 2 ^ 31
    → (u ≡ given → e.capacity < k)
    → apply u e ≡ some e'
    → HasTokens k e
    → HasTokens k e'
unfolding apply mark give_back_cc_capacity take_capacity receive
apply-HasTokens k taken e e' b g a t = ground (arith, next_int32 (k - e.capacity))
apply-HasTokens k given e e' b g a t = ground (arith, last_int32 (k - e.capacity - 1))
apply-HasTokens k marked e e' b g a t = ground arith
apply-HasTokens k released e e' b g a t = ground arith

-- Draining waits for the requests in flight and no longer: whatever uses of an endpoint follow each
-- other, for a drained endpoint that has no request in flight the message that releases
-- DrainEndpoints waits to be received or has been received, a message is only sent when the last
-- request has been given back, and a request waits to give it back only while an earlier message
-- has not been received. The requests in flight are those that hold a token of its k.
pub apply-HasBarrier :
    (k : ℕ) (u : Use) (has_had : Bool) (e e' : UpstreamEndpoint)
    → k < 2 ^ 31
    → (u ≡ given → e.capacity < k)
    → apply u e ≡ some e'
    → HasTokens k e
    → HasBarrier has_had e
    → HasBarrier (is_released u has_had) e'
      × (buffered e.draining_callback < buffered e'.draining_callback
          → (e'.in_flight ≡ pos 0) × (e'.drained ≡ true))
      × (give_back_cc_capacity e' ≡ none → buffered e'.draining_callback ≡ 1)
unfolding apply mark give_back_cc_capacity take_capacity receive
apply-HasBarrier k taken w e e' b g a t h = ground (arith, next_int32 (k - e.capacity))
apply-HasBarrier k given w e e' b g a t h = ground (arith, last_int32 (k - e.capacity - 1))
apply-HasBarrier k marked w e e' b g a t h = ground arith
apply-HasBarrier k released w e e' b g a t h = ground arith

-- An endpoint that is drained while no request is in flight releases DrainEndpoints at once, and
-- yet a request that chose it before can still take it.
pub take_capacity-mark :
    (e : UpstreamEndpoint)
    → e.drained ≡ false
    → e.in_flight ≡ pos 0
    → 0 < e.capacity
    → (e' : UpstreamEndpoint) × (take_capacity (mark e) ≡ some e')
      × (e'.draining_callback ≡ some 1)
      × (e'.in_flight ≡ pos 1)
unfolding mark take_capacity
take_capacity-mark e d f c =
    let one : ◌≡◌ {A = ℕ} (if e.in_flight ==ℤ pos 0 then 1 else 0) 1 = rw f refl in
    (
      record e {
        drained = true;
        draining_callback = some 1;
        capacity = e.capacity - 1;
        in_flight = pos 1;
      },
      ground (arith, one, next_int32 0),
      refl,
      refl,
    )

-- A request that takes a drained endpoint after the last message, while that has not been received,
-- waits to give the endpoint back.
pub give_back_cc_capacity-take_capacity :
    (e e' : UpstreamEndpoint)
    → e.drained ≡ true
    → e.draining_callback ≡ some 1
    → e.in_flight ≡ pos 0
    → take_capacity e ≡ some e'
    → give_back_cc_capacity e' ≡ none
unfolding take_capacity give_back_cc_capacity
give_back_cc_capacity-take_capacity e e' d c f t = ground (arith, next_int32 0, last_int32 0)
