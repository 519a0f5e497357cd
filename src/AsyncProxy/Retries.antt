-- ===== src/AsyncProxy/Retries.antt =====
-- The retries of a request come to their end (internal/data_plane/proxy/async_proxy_handler.go).
use dirigent.Prelude.{
  ℕ, zero, suc, ◌+◌, ◌-◌, ◌≤◌, ◌≡◌, ◌⊎◌, inl, inr, refl, sym, subst, Bool, true, false, String,
  List, [], ◌∷◌, ◌++◌, ◌||◌, ◌==◌, Option, none, some, leb, arith, Bool-cases, Option-cases, ◌≢◌,
}
use dirigent.Prelude.Maps.{lookup, insert, lookup-insert}
use dirigent.Prelude.Int.{pos}
use dirigent.Prelude.Names.{string_discrete}
use dirigent.AsyncProxy.{
  Messages, BufferedRequest, BufferedResponse, Attempt, no_endpoint, give_up, settle, Writes,
  AsyncProxyingService, handle_request, serve, fire_request, read_response, gave_up,
}

-- The tries that the waiting requests have left, the one in which they are given up included.
abbrev pub tries_left : ℕ → List BufferedRequest → ℕ
tries_left allowed [] = 0
tries_left allowed (r ∷ rs) = (allowed - r.number_tries + 1) + tries_left allowed rs

tries_left-append :
    (a : ℕ) (rs : List BufferedRequest) (r : BufferedRequest)
    → tries_left a (rs ++ r ∷ []) ≡ tries_left a rs + (a - r.number_tries + 1)
tries_left-append a [] r = omega arith
tries_left-append a (q ∷ rs) r = omega (arith, tries_left-append a rs r)

-- A request with the code waits.
abbrev pub IsQueued : String → List BufferedRequest → Type 0
IsQueued code [] = ⊥
IsQueued code (r ∷ rs) = (r.code ≡ code) ⊎ IsQueued code rs

IsQueued-append :
    (code : String) (rs : List BufferedRequest) (r : BufferedRequest)
    → IsQueued code rs ⊎ (r.code ≡ code)
    → IsQueued code (rs ++ r ∷ [])
IsQueued-append code [] r (inl h) = absurd h
IsQueued-append code [] r (inr h) = inl h
IsQueued-append code (q ∷ rs) r (inl (inl h)) = inl h
IsQueued-append code (q ∷ rs) r (inl (inr h)) = inr (IsQueued-append code rs r (inl h))
IsQueued-append code (q ∷ rs) r (inr h) = inr (IsQueued-append code rs r (inr h))

abbrev pub is_some {ℓ} : {A : Type ℓ} → Option A → Bool
is_some none = false
is_some (some x) = true

-- A response for the code is there.
abbrev pub IsAnswered : String → AsyncProxyingService → Type 0
IsAnswered code s = is_some (read_response code s) ≡ true

-- A response for the code is there, or a request with it waits.
abbrev pub IsPending : String → AsyncProxyingService → Type 0
IsPending code s = IsAnswered code s ⊎ IsQueued code s.request_channel

is_some-insert :
    (key code : String) (x : BufferedResponse) (rs : List (String × BufferedResponse))
    → (is_some (lookup string_discrete code rs) ≡ true) ⊎ (key ≡ code)
    → is_some (lookup string_discrete code (insert string_discrete key x rs)) ≡ true
is_some-insert key code x rs h = ground (arith, lookup-insert string_discrete key code x rs, h)

give_up-tries_left :
    (r : BufferedRequest) (s : AsyncProxyingService)
    → (let t = give_up r s in
        (t.allowed_retries ≡ s.allowed_retries)
        × (tries_left t.allowed_retries t.request_channel + 1
            ≤ tries_left s.allowed_retries (r ∷ s.request_channel)))
unfolding give_up
give_up-tries_left r s = ground arith

settle-tries_left :
    (now : ℕ) (w : Writes) (response : BufferedResponse) (r : BufferedRequest)
    (s : AsyncProxyingService)
    → leb s.allowed_retries r.number_tries ≡ false
    → (let t = settle now w response r s in
        (t.allowed_retries ≡ s.allowed_retries)
        × (tries_left t.allowed_retries t.request_channel + 1
            ≤ tries_left s.allowed_retries (r ∷ s.request_channel)))
unfolding settle
settle-tries_left now w response r s left = ground (
  arith,
  left,
  tries_left-append s.allowed_retries s.request_channel
      (record r { number_tries = r.number_tries + 1 }),
)

-- A request gets a response, or waits for another try.
abbrev IsHandled : BufferedRequest → AsyncProxyingService → AsyncProxyingService → Type 0
IsHandled r s t =
    ((x : BufferedResponse) × ((t.responses ≡ insert string_discrete r.code x s.responses)
        × (t.request_channel ≡ s.request_channel)))
    ⊎ ((t.responses ≡ s.responses)
        × (t.request_channel
            ≡ s.request_channel ++ record r { number_tries = r.number_tries + 1 } ∷ []))

give_up-IsHandled : (r : BufferedRequest) (s : AsyncProxyingService) → IsHandled r s (give_up r s)
unfolding give_up
give_up-IsHandled r s = inl (gave_up, (refl, refl))

settle-IsHandled :
    (now : ℕ) (w : Writes) (response : BufferedResponse) (r : BufferedRequest)
    (s : AsyncProxyingService)
    → IsHandled r s (settle now w response r s)
unfolding settle
settle-IsHandled now w response r s =
    let stamped : BufferedResponse = record response { timestamp = pos now; code = r.code } in
    elim (Bool-cases (response.status_code == 200 || response.status_code == 400)) [
      | inl g ↦ inl (stamped, (ground (arith, g), ground (arith, g)))
      | inr g ↦ inr (ground (arith, g), ground (arith, g))
    ]

IsHandled-IsPending :
    (r : BufferedRequest) (s t : AsyncProxyingService) (code : String)
    → IsHandled r s t
    → IsPending code (record s { request_channel = r ∷ s.request_channel })
    → IsPending code t
unfolding read_response
IsHandled-IsPending r s t code handled p =
    let answered =
      λ (rs : List (String × BufferedResponse)). is_some (lookup string_discrete code rs) ≡ true in
    let again : BufferedRequest = record r { number_tries = r.number_tries + 1 } in
    let queue = s.request_channel in
    elim handled [
      | inl (x, h) ↦ elim p [
        | inl k ↦ inl (subst answered (sym h.0) (is_some-insert r.code code x s.responses (inl k)))
        | inr (inl k) ↦
            inl (subst answered (sym h.0) (is_some-insert r.code code x s.responses (inr k)))
        | inr (inr k) ↦ inr (subst (IsQueued code) (sym h.1) k)
      ]
      | inr h ↦ elim p [
        | inl k ↦ inl (subst answered (sym h.0) k)
        | inr (inl k) ↦
            inr (subst (IsQueued code) (sym h.1) (IsQueued-append code queue again (inr k)))
        | inr (inr k) ↦
            inr (subst (IsQueued code) (sym h.1) (IsQueued-append code queue again (inl k)))
      ]
    ]

-- The load balancer has an endpoint to ask, so that the try does not panic.
abbrev pub HasEndpoint : Attempt → Type 0
HasEndpoint a = a.choice ≢ no_endpoint

module _ (m : Messages) (now : ℕ) where
  fire_request-some :
      (service : String) (a : Attempt)
      → HasEndpoint a
      → (response : BufferedResponse) × (fire_request m service a ≡ some response)
  unfolding fire_request
  fire_request-some service a h = elim (Option-cases (fire_request m service a)) [
    | inl n ↦ absurd (ground (arith, h, n))
    | inr (response, e) ↦ (response, e)
  ]

  -- What a round keeps of a service: fewer tries are left, and no code is forgotten.
  abbrev HasAdvanced : BufferedRequest → AsyncProxyingService → AsyncProxyingService → Type 0
  HasAdvanced r s t =
      ((t.allowed_retries ≡ s.allowed_retries)
        × (tries_left t.allowed_retries t.request_channel + 1
            ≤ tries_left s.allowed_retries (r ∷ s.request_channel)))
      × IsHandled r s t

  handle_request-HasAdvanced :
      (w : Writes) (a : Attempt) (r : BufferedRequest) (s : AsyncProxyingService)
      → HasEndpoint a
      → (t : AsyncProxyingService) × ((handle_request m now w a r s ≡ some t) × HasAdvanced r s t)
  unfolding handle_request
  handle_request-HasAdvanced w a r s h =
      let (response, e) = fire_request-some r.service_name a h in
      elim (Bool-cases (leb s.allowed_retries r.number_tries)) [
        | inl used ↦ (give_up r s, (rw used refl, (give_up-tries_left r s, give_up-IsHandled r s)))
        | inr left ↦ (
          settle now w response r s,
          (
            rw left (rw e refl),
            (settle-tries_left now w response r s left, settle-IsHandled now w response r s),
          ),
        )
      ]

  -- A service whose request channel is empty, with a response for the code.
  abbrev pub HasServed : String → Option AsyncProxyingService → Type 0
  HasServed code none = ⊥
  HasServed code (some t) = (t.request_channel ≡ []) × IsAnswered code t

  serve-HasServed :
      (writes : BufferedRequest → Writes) (attempts : BufferedRequest → Attempt) (rounds : ℕ)
      (s : AsyncProxyingService) (queue : List BufferedRequest) (code : String)
      → ((r : BufferedRequest) → HasEndpoint (attempts r))
      → s.request_channel ≡ queue
      → tries_left s.allowed_retries queue ≤ rounds
      → IsPending code s
      → HasServed code (serve m now writes attempts rounds s)
  unfolding serve read_response
  serve-HasServed writes attempts zero s [] code h q l p =
      (q, elim p [ inl k ↦ k | inr k ↦ absurd (subst (IsQueued code) q k) ])
  serve-HasServed writes attempts (suc rounds) s [] code h q l p =
      rw (HasServed, q) (q, elim p [ inl k ↦ k | inr k ↦ absurd (subst (IsQueued code) q k) ])
  serve-HasServed writes attempts zero s (r ∷ rs) code h q l p = absurd (omega (arith, l))
  serve-HasServed writes attempts (suc rounds) s (r ∷ rs) code h q l p =
      let s' : AsyncProxyingService = record s { request_channel = rs } in
      let (t, k) = handle_request-HasAdvanced (writes r) (attempts r) r s' (h r) in
      rw (HasServed, q)
        (rw (HasServed, k.0)
          (serve-HasServed writes attempts rounds t t.request_channel code h refl
            (omega (arith, k.1.0, l))
            (IsHandled-IsPending r s' t code k.1.1
              (elim p [ inl a ↦ inl a | inr a ↦ inr (subst (IsQueued code) q a) ]))))

  -- However the tries of the requests end, as long as none of them finds its function without an
  -- endpoint, which ends the process, as many rounds as there are tries left empty the request
  -- channel: every code that waited has a response then, and every code that had one has one still.
  pub serve-IsAnswered :
      (writes : BufferedRequest → Writes) (attempts : BufferedRequest → Attempt) (rounds : ℕ)
      (s : AsyncProxyingService) (code : String)
      → ((r : BufferedRequest) → HasEndpoint (attempts r))
      → tries_left s.allowed_retries s.request_channel ≤ rounds
      → IsPending code s
      → HasServed code (serve m now writes attempts rounds s)
  serve-IsAnswered writes attempts rounds s code h l p =
      serve-HasServed writes attempts rounds s s.request_channel code h refl l p
