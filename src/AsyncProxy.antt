-- ===== src/AsyncProxy.antt =====
-- internal/data_plane/proxy/async_proxy_handler.go and requests/requests.go: requests that are
-- answered later. What a try of a request finds on its way is an `Attempt`. Times are Unix seconds, and
-- the zero time.Time is in the year 1. A send to the request channel waits for a receiver; the
-- senders that wait are a queue.
pub mod Retries
pub mod Garbage
mod Tests
use dirigent.Prelude.{
  ℕ, zero, suc, ◌+◌, ◌==◌, Bool, true, false, String, List, [], ◌∷◌, ◌++◌, ◌||◌, Option, none, some,
  ltb, leb, if◌then◌else◌,
}
use dirigent.Prelude.Int.{ℤ, pos, negsuc, ◌-ℤ◌, ltb_ℤ}
use dirigent.Prelude.Maps.{lookup, insert, remove}
use dirigent.Prelude.Names.{string_discrete}
use dirigent.Functions.{ColdStartOutcome, successful_cold_start, canceled_cold_start}

-- The parts of a request that decide what becomes of it.
pub record BufferedRequest : Type 0 where
  pub code : String
  pub service_name : String
  pub number_tries : ℕ

pub record BufferedResponse : Type 0 where
  pub status_code : ℕ
  pub body : String
  pub timestamp : ℤ
  pub code : String

abbrev pub zero_time : ℤ
zero_time = negsuc 62_135_596_799

-- What the endpoint answers: no answer, one whose body cannot be read, or a body.
pub data Reply : Type 0 where
  failed unreadable ok : String → Reply

-- What DoLoadBalancing ends with: an endpoint with capacity, no endpoint with capacity after its
-- retries, or a panic, since a function without endpoints has no endpoint to ask for its capacity.
pub data Choice : Type 0 where
  chosen no_capacity no_endpoint : Choice

-- What a try finds on its way: the deployment of the service, the outcome of a cold start if it has
-- to wait for one, the load balancer's choice, and the endpoint's reply.
pub record Attempt : Type 0 where
  pub deployed : Bool
  pub cold_start : Option ColdStartOutcome
  pub choice : Choice
  pub reply : Reply

-- The messages that name the service.
pub record Messages : Type 0 where
  pub dumped : String → String
  pub canceled : String → String
  pub no_sandbox : String → String

abbrev pub respond : ℕ → String → BufferedResponse
respond status body = record { status_code = status; body = body; timestamp = zero_time; code = "" }

abbrev pub proxied : Reply → BufferedResponse
proxied (failed error) = respond 500 error
proxied (unreadable error) = respond 500 error
proxied (ok body) = respond 200 body

-- fireRequest, less the counts of requests in flight and the measured times; `none` is a panic, which
-- ends the process.
unfoldable pub fire_request : Messages → String → Attempt → Option BufferedResponse
fire_request m service a =
    let balanced : Option BufferedResponse = elim a.choice [
      | chosen ↦ some (proxied a.reply)
      | no_capacity ↦ some (respond 410 (m.no_sandbox service))
      | no_endpoint ↦ none
    ] in
    if a.deployed
    then elim a.cold_start [
      | none ↦ balanced
      | some ColdStartOutcome.successful_cold_start ↦ balanced
      | some ColdStartOutcome.canceled_cold_start ↦ some (respond 504 (m.canceled service))
    ]
    else some (respond 400 (m.dumped service))

-- `stored_requests` and `stored_responses` are what the persistence layer holds.
pub record AsyncProxyingService : Type 0 where
  pub request_channel : List BufferedRequest
  pub responses : List (String × BufferedResponse)
  pub stored_requests : List (String × BufferedRequest)
  pub stored_responses : List (String × BufferedResponse)
  pub allowed_retries : ℕ

-- createAsyncInvocationHandler: the code that the caller is given, if the request can be persisted.
unfoldable pub accept :
    Bool → BufferedRequest → AsyncProxyingService → AsyncProxyingService × Option String
accept persisted r s =
    let s' : AsyncProxyingService = record s {
      stored_requests = insert string_discrete r.code r s.stored_requests;
      request_channel = s.request_channel ++ r ∷ [];
    } in
    if persisted then (s', some r.code) else (s, none)

abbrev pub gave_up : BufferedResponse
gave_up = respond 500 "Server failed many times"

-- Whether the writes to the persistence layer succeed.
pub record Writes : Type 0 where
  pub response : Bool
  pub request : Bool

-- The goroutine of asyncRequestHandler for a request whose tries are used up.
unfoldable pub give_up : BufferedRequest → AsyncProxyingService → AsyncProxyingService
give_up r s = record s { responses = insert string_discrete r.code gave_up s.responses }

-- What it does with the response of fireRequest.
unfoldable pub settle :
    ℕ → Writes → BufferedResponse → BufferedRequest → AsyncProxyingService → AsyncProxyingService
settle now w response r s =
    let stamped : BufferedResponse = record response { timestamp = pos now; code = r.code } in
    if response.status_code == 200 || response.status_code == 400
    then record s {
      responses = insert string_discrete r.code stamped s.responses;
      stored_responses =
          if w.response
          then insert string_discrete r.code stamped s.stored_responses
          else s.stored_responses;
      stored_requests =
          if w.request then remove string_discrete r.code s.stored_requests else s.stored_requests;
    }
    else record s {
      request_channel = s.request_channel ++ record r { number_tries = r.number_tries + 1 } ∷ [];
    }

-- The goroutine of asyncRequestHandler; `none` once fireRequest has ended the process.
unfoldable pub handle_request :
    Messages
    → ℕ
    → Writes
    → Attempt
    → BufferedRequest
    → AsyncProxyingService
    → Option AsyncProxyingService
unfolding fire_request give_up settle
handle_request m now w attempt r s =
    if leb s.allowed_retries r.number_tries
    then some (give_up r s)
    else elim (fire_request m r.service_name attempt) [
      | none ↦ none
      | some response ↦ some (settle now w response r s)
    ]

-- asyncRequestHandler, for a number of rounds. `attempts` and `writes` give what happens to a
-- request at each try.
unfoldable pub serve :
    Messages
    → ℕ
    → (BufferedRequest → Writes)
    → (BufferedRequest → Attempt)
    → ℕ
    → AsyncProxyingService
    → Option AsyncProxyingService
unfolding handle_request
serve m now writes attempts zero s = some s
serve m now writes attempts (suc rounds) s = elim s.request_channel [
  | [] ↦ some s
  | (r ∷ rs) ↦
      elim (handle_request m now (writes r) (attempts r) r (record s { request_channel = rs })) [
        | none ↦ none
        | some t ↦ serve m now writes attempts rounds t
      ]
]

-- createAsyncReadHandler
unfoldable pub read_response : String → AsyncProxyingService → Option BufferedResponse
read_response code s = lookup string_discrete code s.responses

-- The loop of startGarbageCollector, which compares seconds with the nanoseconds of a minute.
unfoldable pub drop_old : ℕ → List (String × BufferedResponse) → List (String × BufferedResponse)
drop_old now [] = []
drop_old now ((key, response) ∷ rest) =
    if ltb_ℤ (pos 60_000_000_000) (pos now -ℤ response.timestamp)
    then drop_old now rest
    else (key, response) ∷ drop_old now rest

unfoldable pub collect_garbage : ℕ → AsyncProxyingService → AsyncProxyingService
unfolding drop_old
collect_garbage now s = record s { responses = drop_old now s.responses }

-- The loops of StartProxyServer over what was persisted.
unfoldable pub recover_responses :
    List (String × BufferedResponse)
    → List (String × BufferedResponse)
    → List (String × BufferedResponse)
recover_responses [] responses = responses
recover_responses ((key, response) ∷ rest) responses =
    recover_responses rest (insert string_discrete response.code response responses)

unfoldable pub unanswered :
    List (String × BufferedRequest) → List (String × BufferedResponse) → List BufferedRequest
unanswered [] responses = []
unanswered ((key, r) ∷ rest) responses = elim (lookup string_discrete r.code responses) [
  | none ↦ r ∷ unanswered rest responses
  | some x ↦ unanswered rest responses
]

unfoldable pub recover : AsyncProxyingService → AsyncProxyingService
unfolding recover_responses unanswered
recover s =
    let responses = recover_responses s.stored_responses s.responses in
    record s {
      responses = responses;
      request_channel = s.request_channel ++ unanswered s.stored_requests responses;
    }
