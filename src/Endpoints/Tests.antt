-- ===== src/Endpoints/Tests.antt =====
-- Runs of the scaling of a service with three endpoints.
use dirigent.Prelude.{
  ℕ, zero, suc, ◌+◌, ◌-◌, ◌≡◌, refl, false, List, [], ◌∷◌, ◌++◌, some, length, arith,
}
use dirigent.Prelude.Int.{pos, ◌-ℤ◌, pos_part}
use dirigent.Prelude.Names.{string_discrete}
use dirigent.Endpoints.{
  Service, Creation, no_node, do_downscaling, pick_victims, scaling_round, drain_sandbox, add_to,
  exclude_endpoints, prepare_endpoint_info, deletions, has, last_desired,
}
use dirigent.Endpoints.Nodes.{remove_endpoints_associated_with_node, collect_on_node}
use dirigent.Endpoints.Pointers.{IsDistinct}
use dirigent.Endpoints.Evict.{IsDraw, IsPicked, do_downscaling-IsPicked}
use dirigent.Endpoints.Balance.{IsBalanced, scaling_round-IsBalanced}

abbrev three : Service
three = record {
  actual_scale = pos 3;
  endpoints =
      record { addr = 1; sandbox_id = "a"; url = "h1:1"; node = some "n1"; host_port = 1 }
      ∷ record { addr = 2; sandbox_id = "b"; url = "h1:2"; node = some "n1"; host_port = 2 }
      ∷ record { addr = 3; sandbox_id = "c"; url = "h2:1"; node = some "n2"; host_port = 1 }
      ∷ [];
  sent = [];
}

three-IsDistinct : IsDistinct three.endpoints
unfolding has
three-IsDistinct = (refl, (refl, (refl, tt)))

-- The last endpoint of the list.
abbrev last : ℕ → ℕ
last n = n - 1

last-IsDraw : IsDraw last
last-IsDraw n h = omega arith

abbrev none_placed : ℕ → List Creation
none_placed zero = []
none_placed (suc n) = no_node ∷ none_placed n

length-none_placed : (n : ℕ) → length (none_placed n) ≡ n
length-none_placed zero = refl
length-none_placed (suc n) = omega (arith, length-none_placed n)

do_downscaling-IsPicked_example :
    (let t = do_downscaling last (pos 3) (pos 1) three in
      let victims = (pick_victims (pos_part (pos 3 -ℤ pos 1)) last three.endpoints []).0 in
      IsPicked three.endpoints t.endpoints victims
      × (length t.endpoints ≡ 3 - pos_part (pos 3 -ℤ pos 1))
      × (length victims + length t.endpoints ≡ 3)
      × (t.sent ≡ [] ++ drain_sandbox (prepare_endpoint_info victims) ∷ deletions victims))
do_downscaling-IsPicked_example =
    do_downscaling-IsPicked last last-IsDraw (pos 3) (pos 1) three three-IsDistinct

scaling_round-IsBalanced_example :
    IsBalanced (scaling_round none_placed last false (pos 4) (pos 1 ∷ []) three)
unfolding last_desired
scaling_round-IsBalanced_example =
    scaling_round-IsBalanced none_placed length-none_placed last last-IsDraw (pos 4) (pos 1 ∷ []) 1
      refl three three-IsDistinct refl

-- The service once the node of the first two endpoints is gone.
abbrev left : Service
left = record three {
  actual_scale = pos 1;
  endpoints =
      record { addr = 3; sandbox_id = "c"; url = "h2:1"; node = some "n2"; host_port = 1 } ∷ [];
}

left_of_three : remove_endpoints_associated_with_node "n1" three ≡ some left
unfolding remove_endpoints_associated_with_node collect_on_node has add_to exclude_endpoints ◌-ℤ◌
    string_discrete
left_of_three = refl
