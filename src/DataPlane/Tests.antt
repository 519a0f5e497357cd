-- ===== src/DataPlane/Tests.antt =====
-- A service with two endpoints, and a data plane that knows them.
use dirigent.Prelude.{ℕ, zero, suc, ◌-◌, refl, false, List, [], ◌∷◌, some, arith}
use dirigent.Prelude.Int.{pos}
use dirigent.Prelude.Names.{string_discrete}
use dirigent.Endpoints.{
  Endpoint, Service, Creation, no_node, update_endpoint_list, prepare_endpoint_info, get_all_urls,
  scaling_round, has,
}
use dirigent.Endpoints.Pointers.{IsDistinct}
use dirigent.Endpoints.Evict.{IsDraw}
use dirigent.Functions.{
  new_function_metadata, add_endpoints, add_to_endpoint_list, add_to_list, store_active,
}
use dirigent.DataPlane.Follows.{HasDistinctUrls}
use dirigent.DataPlane.Messages.{HasFollowed, deliver, scaling_round-HasFollowed}

abbrev endpoints : List Endpoint
endpoints =
    record { addr = 1; sandbox_id = "a"; url = "h1:1"; node = some "n1"; host_port = 1 }
    ∷ record { addr = 2; sandbox_id = "b"; url = "h1:2"; node = some "n1"; host_port = 2 }
    ∷ []

abbrev service : Service
service = record {
  actual_scale = pos 2;
  endpoints = endpoints;
  sent = update_endpoint_list (prepare_endpoint_info endpoints) ∷ [];
}

abbrev last : ℕ → ℕ
last n = n - 1

last-IsDraw : IsDraw last
last-IsDraw n h = omega arith

abbrev none_placed : ℕ → List Creation
none_placed zero = []
none_placed (suc n) = no_node ∷ none_placed n

service-IsDistinct : IsDistinct service.endpoints
unfolding has
service-IsDistinct = (refl, (refl, tt))

service-HasDistinctUrls : HasDistinctUrls service.endpoints
unfolding get_all_urls string_discrete
service-HasDistinctUrls = (refl, (refl, tt))

service-HasFollowed : HasFollowed new_function_metadata service
unfolding deliver add_endpoints add_to_endpoint_list add_to_list store_active prepare_endpoint_info
    get_all_urls new_function_metadata
service-HasFollowed = refl

scaling_round-HasFollowed_example :
    HasFollowed new_function_metadata
      (scaling_round none_placed last false (pos 5) (pos 1 ∷ []) service)
scaling_round-HasFollowed_example =
    scaling_round-HasFollowed none_placed last last-IsDraw false (pos 5) (pos 1 ∷ [])
      new_function_metadata service service-IsDistinct service-HasDistinctUrls service-HasFollowed
