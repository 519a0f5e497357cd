-- ===== src/HaProxy/Tests.antt =====
-- A configuration that is two lists of servers.
use dirigent.Prelude.{
  zero, suc, ◌≡◌, refl, Bool, true, false, String, List, [], ◌∷◌, ◌++◌, some, arith, ite, All, ◌||◌,
}
use dirigent.Prelude.Int.{pos}
use dirigent.Prelude.Names.{string_discrete}
use dirigent.Functions.Delta.{difference}
use dirigent.HaProxy.{
  Backend, data_planes, registration_servers, Server, HaproxyClient, Addresses, HaproxyApi,
  generic_revise, urls_of, is_nonempty_urls, split_address,
}
use dirigent.HaProxy.Revisions.{
  drop_name, drop_name_fresh, IsClient, CarriesOut, AreFresh, IsAddress, generic_revise-urls_of,
}

record File : Type 0 where
  planes : List Server
  registration : List Server

abbrev servers : Backend → File → List Server
servers data_planes f = f.planes
servers registration_servers f = f.registration

abbrev change : Backend → (List Server → List Server) → File → File
change data_planes g f = record f { planes = g f.planes }
change registration_servers g f = record f { registration = g f.registration }

servers-change :
    (b : Backend) (g : List Server → List Server) (f : File)
    → servers b (change b g f) ≡ g (servers b f)
servers-change data_planes g f = refl
servers-change registration_servers g f = refl

abbrev files : HaproxyClient
files = record {
  State = File;
  get_version = λ f. some 1;
  start_transaction = λ v f. some f;
  get_servers = λ b f. some (servers b f);
  create_server = λ b s f. (true, change b (λ ss. ss ++ s ∷ []) f);
  delete_server = λ b n f. (true, change b (drop_name n) f);
  commit_transaction = λ f. some f;
}

files-IsClient : IsClient files
files-IsClient = record {
  creates = λ b s st ss g h. ground (arith, g, servers-change b (λ ss. ss ++ s ∷ []) st);
  deletes = λ b n st ss g h. ground (arith, g, servers-change b (drop_name n) st);
  missing =
      λ b n st ss g h. ground (arith, g, servers-change b (drop_name n) st, drop_name_fresh n ss h);
  started = λ b v st st' e. ground (arith, e);
  committed = λ b st st' e. ground (arith, e);
}

files-CarriesOut : CarriesOut files
files-CarriesOut = record { create = λ b s st ss g h. refl; delete = λ b n st ss g h. refl }

abbrev plain : Addresses
plain = record {
  join = λ ip port. ip;
  split_host_port = λ a. some (a, "80");
  atoi = λ a. some (pos 80);
  server_name = λ b n. elim n [ zero ↦ "rs_0" | suc k ↦ "rs_1" ];
}

abbrev api : HaproxyApi files plain
api = record {
  state = record {
    planes = [];
    registration = record { name = "rs_1"; address = "10.0.0.9"; port = pos 80 } ∷ [];
  };
  address_to_name = [];
}

differ : ite (string_discrete "rs_0" "rs_1") true false ≡ false
unfolding string_discrete
differ = refl

two-AreFresh : AreFresh files plain files-IsClient files-CarriesOut 2 (λ n. n)
two-AreFresh zero zero p q e = refl
two-AreFresh zero (suc j) p q e = absurd (ground (arith, e, differ))
two-AreFresh (suc i) zero p q e = absurd (ground (arith, e, differ))
two-AreFresh (suc i) (suc j) p q e = omega (arith, p, q)

abbrev keep : List String
keep = "10.0.0.1" ∷ "10.0.0.2" ∷ []

abbrev revised : HaproxyApi files plain
revised = record api {
  state = record {
    planes = [];
    registration =
        record { name = "rs_0"; address = "10.0.0.1"; port = pos 80 }
        ∷ record { name = "rs_1"; address = "10.0.0.2"; port = pos 80 }
        ∷ [];
  };
}

abbrev changed : Bool
changed =
    is_nonempty_urls files plain (difference keep ("10.0.0.9" ∷ []))
    || is_nonempty_urls files plain (difference ("10.0.0.9" ∷ []) keep)

revised_lem :
    generic_revise files plain registration_servers (λ n. n) keep api
    ≡ some (revised, true, changed)
unfolding generic_revise string_discrete
revised_lem = refl

keep-IsAddress : All (IsAddress files plain files-IsClient files-CarriesOut) keep
unfolding split_address
keep-IsAddress = (("10.0.0.1", (pos 80, (refl, refl))), (("10.0.0.2", (pos 80, (refl, refl))), tt))

generic_revise-urls_of_example :
    (ss : List Server) × ((files.get_servers registration_servers revised.state ≡ some ss)
      × (urls_of files plain ss ≡ keep))
generic_revise-urls_of_example =
    generic_revise-urls_of files plain files-IsClient files-CarriesOut (λ n. n) keep api revised
      changed two-AreFresh keep-IsAddress revised_lem
