-- ===== src/AsyncProxy/Tests.antt =====
-- A service that allows two tries, with a request whose sandbox fails.
use dirigent.Prelude.{◌≡◌, inl, inr, refl, true, [], ◌∷◌, none, some, arith}
use dirigent.Prelude.Int.{pos}
use dirigent.Prelude.Maps.{IsMap, lookup}
use dirigent.Prelude.Names.{string_discrete}
use dirigent.AsyncProxy.{
  Messages, BufferedRequest, BufferedResponse, Attempt, chosen, failed, Writes,
  AsyncProxyingService, serve, read_response,
}
use dirigent.AsyncProxy.Retries.{HasServed, serve-IsAnswered}

abbrev messages : Messages
messages = record { dumped = λ s. s; canceled = λ s. s; no_sandbox = λ s. s }

abbrev request : BufferedRequest
request = record { code = "c1"; service_name = "f"; number_tries = 0 }

abbrev tired : BufferedRequest
tired = record { code = "c1"; service_name = "f"; number_tries = 2 }

abbrev old : BufferedResponse
old = record { status_code = 200; body = "done"; timestamp = pos 1_700_000_000; code = "c0" }

abbrev proxy : AsyncProxyingService
proxy = record {
  request_channel = request ∷ [];
  responses = ("c0", old) ∷ [];
  stored_requests = ("c1", request) ∷ [];
  stored_responses = ("c0", old) ∷ [];
  allowed_retries = 2;
}

abbrev saved : BufferedRequest → Writes
saved r = record { response = true; request = true }

abbrev failing : BufferedRequest → Attempt
failing r = record {
  deployed = true;
  cold_start = none;
  choice = chosen;
  reply = failed "connection refused";
}

serve-IsAnswered_example : HasServed messages 9 "c1" (serve messages 9 saved failing 3 proxy)
serve-IsAnswered_example =
    serve-IsAnswered messages 9 saved failing 3 proxy "c1" (λ r. ground arith) (omega arith)
      (inr (inl refl))

proxy-IsMap : IsMap string_discrete proxy.responses
unfolding lookup
proxy-IsMap = (refl, tt)

old_found : read_response "c0" proxy ≡ some old
unfolding read_response lookup string_discrete
old_found = refl
