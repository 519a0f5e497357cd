-- ===== src/HaProxy/Revisions.antt =====
-- A revision of the registration servers (internal/data_plane/haproxy/manager.go).
use dirigent.Prelude.{
  ℕ, suc, ◌<◌, ◌≡◌, ◌≢◌, length, refl, sym, ap, ◌∙◌, Bool, true, false, String, List, [], ◌∷◌, ◌++◌,
  some, arith, ite, inl, inr, Option-cases, Bool-cases, All,
}
use dirigent.Prelude.Int.{ℤ}
use dirigent.Prelude.Names.{string_discrete}
use dirigent.HaProxy.{
  Backend, registration_servers, Server, HaproxyClient, Addresses, HaproxyApi,
  add_registration_server, delete_each, remove_registration_servers, register_each, urls_of,
  apply_changes, generic_revise, commit, split_address,
}

abbrev pub has_name : String → List Server → Bool
has_name n [] = false
has_name n (s ∷ ss) = ite (string_discrete s.name n) true (has_name n ss)

abbrev pub drop_name : String → List Server → List Server
drop_name n [] = []
drop_name n (s ∷ ss) = ite (string_discrete s.name n) (drop_name n ss) (s ∷ drop_name n ss)

-- The documented behaviour of the library: a creation that succeeds adds its server, a deletion that
-- succeeds drops what has the name, one of a name that is not there changes nothing, and the start of
-- a transaction and its commit keep the servers.
pub record IsClient (client : HaproxyClient) : Type 0 where
  pub creates :
      (b : Backend) (s : Server) (st : client.State) (ss : List Server)
      → client.get_servers b st ≡ some ss
      → (client.create_server b s st).0 ≡ true
      → client.get_servers b (client.create_server b s st).1 ≡ some (ss ++ s ∷ [])
  pub deletes :
      (b : Backend) (name : String) (st : client.State) (ss : List Server)
      → client.get_servers b st ≡ some ss
      → (client.delete_server b name st).0 ≡ true
      → client.get_servers b (client.delete_server b name st).1 ≡ some (drop_name name ss)
  pub missing :
      (b : Backend) (name : String) (st : client.State) (ss : List Server)
      → client.get_servers b st ≡ some ss
      → has_name name ss ≡ false
      → client.get_servers b (client.delete_server b name st).1 ≡ some ss
  pub started :
      (b : Backend) (v : ℕ) (st st' : client.State)
      → client.start_transaction v st ≡ some st'
      → client.get_servers b st' ≡ client.get_servers b st
  pub committed :
      (b : Backend) (st st' : client.State)
      → client.commit_transaction st ≡ some st'
      → client.get_servers b st' ≡ client.get_servers b st

-- A library that refuses no server under a name that is free and no deletion of a server that is
-- there. The code logs a refusal and goes on.
pub record CarriesOut (client : HaproxyClient) : Type 0 where
  pub create :
      (b : Backend) (s : Server) (st : client.State) (ss : List Server)
      → client.get_servers b st ≡ some ss
      → has_name s.name ss ≡ false
      → (client.create_server b s st).0 ≡ true
  pub delete :
      (b : Backend) (name : String) (st : client.State) (ss : List Server)
      → client.get_servers b st ≡ some ss
      → has_name name ss ≡ true
      → (client.delete_server b name st).0 ≡ true

pub drop_name_fresh : (n : String) (ss : List Server) → has_name n ss ≡ false → drop_name n ss ≡ ss
drop_name_fresh n [] h = refl
drop_name_fresh n (s ∷ ss) h = ground (arith, h, drop_name_fresh n ss)

module _ (client : HaproxyClient) (laws : IsClient client) (ok : CarriesOut client) where
  pub created :
      (b : Backend) (s : Server) (st : client.State) (ss : List Server)
      → client.get_servers b st ≡ some ss
      → has_name s.name ss ≡ false
      → client.get_servers b (client.create_server b s st).1 ≡ some (ss ++ s ∷ [])
  created b s st ss g h = laws.creates b s st ss g (ok.create b s st ss g h)

  pub deleted :
      (b : Backend) (name : String) (st : client.State) (ss : List Server)
      → client.get_servers b st ≡ some ss
      → client.get_servers b (client.delete_server b name st).1 ≡ some (drop_name name ss)
  deleted b name st ss g = elim (Bool-cases (has_name name ss)) [
    | inl h ↦ laws.deletes b name st ss g (ok.delete b name st ss g h)
    | inr h ↦ laws.missing b name st ss g h ∙ ap some (sym (drop_name_fresh name ss h))
  ]

-- Every name of the first list is one of the second.
abbrev AreNamed : List Server → List Server → Type 0
AreNamed [] ss = Unit
AreNamed (t ∷ ts) ss = (has_name t.name ss ≡ true) × AreNamed ts ss

AreNamed-cons : (s : Server) (ts ss : List Server) → AreNamed ts ss → AreNamed ts (s ∷ ss)
AreNamed-cons s [] ss a = tt
AreNamed-cons s (t ∷ ts) ss a = (ground (arith, a.0), AreNamed-cons s ts ss a.1)

AreNamed-refl : (ss : List Server) → AreNamed ss ss
AreNamed-refl [] = tt
AreNamed-refl (s ∷ ss) = (ground arith, AreNamed-cons s ss ss (AreNamed-refl ss))

AreNamed-drop_name :
    (s : Server) (ts ss : List Server) → AreNamed ts (s ∷ ss) → AreNamed (drop_name s.name ts) ss
AreNamed-drop_name s [] ss a = tt
AreNamed-drop_name s (t ∷ ts) ss a = ground (arith, a.0, AreNamed-drop_name s ts ss a.1)

has_name-append :
    (n : String) (ss : List Server) (s : Server)
    → has_name n ss ≡ false
    → s.name ≢ n
    → has_name n (ss ++ s ∷ []) ≡ false
has_name-append n [] s h d = ground (arith, d)
has_name-append n (t ∷ ss) s h d = ground (arith, h, has_name-append n ss s (ground (arith, h)) d)

module _ (client : HaproxyClient) (ad : Addresses) (laws : IsClient client)
    (ok : CarriesOut client) where
  get_servers-delete_each :
      (ss ts : List Server) (st : client.State)
      → client.get_servers registration_servers st ≡ some ts
      → AreNamed ts ss
      → client.get_servers registration_servers (delete_each client ad ss st) ≡ some []
  unfolding delete_each
  get_servers-delete_each [] [] st g a = g
  get_servers-delete_each [] (t ∷ ts) st g a = absurd (ground (arith, a.0))
  get_servers-delete_each (s ∷ ss) ts st g a =
      get_servers-delete_each ss (drop_name s.name ts)
        (client.delete_server registration_servers s.name st).1
        (deleted client laws ok registration_servers s.name st ts g) (AreNamed-drop_name s ts ss a)

  urls_of-append :
      (ss : List Server) (s : Server)
      → urls_of client ad (ss ++ s ∷ []) ≡ urls_of client ad ss ++ ad.join s.address s.port ∷ []
  unfolding urls_of
  urls_of-append [] s = refl
  urls_of-append (t ∷ ss) s = ground (arith, urls_of-append ss s)

  -- The names of n new servers are different.
  abbrev pub AreFresh : ℕ → (ℕ → ℕ) → Type 0
  AreFresh n names =
      (i j : ℕ)
      → i < n
      → j < n
      → ad.server_name registration_servers (names i)
        ≡ ad.server_name registration_servers (names j)
      → i ≡ j

  append_one : (xs ys : List String) (x : String) → (xs ++ x ∷ []) ++ ys ≡ xs ++ x ∷ ys
  append_one [] ys x = refl
  append_one (z ∷ xs) ys x = ground (arith, append_one xs ys x)

  append_nil : (xs : List String) → xs ++ [] ≡ xs
  append_nil [] = refl
  append_nil (x ∷ xs) = ground (arith, append_nil xs)

  -- An address that SplitAddress reads, and that is the text of what it reads.
  abbrev pub IsAddress : String → Type 0
  IsAddress a =
      (ip : String) × ((port : ℤ) × ((split_address ad a ≡ some (ip, port))
          × (ad.join ip port ≡ a)))

  register_each_urls :
      (names : ℕ → ℕ) (keep : List String) (api : HaproxyApi client ad) (ss : List Server)
      → AreFresh (length keep) names
      → ((n : ℕ)
          → n < length keep
          → has_name (ad.server_name registration_servers (names n)) ss ≡ false)
      → All IsAddress keep
      → client.get_servers registration_servers api.state ≡ some ss
      → (api' : HaproxyApi client ad) × ((register_each client ad names keep api ≡ some api')
          × ((ss' : List Server) × ((client.get_servers registration_servers api'.state ≡ some ss')
                × (urls_of client ad ss' ≡ urls_of client ad ss ++ keep))))
  unfolding register_each add_registration_server
  register_each_urls names [] api ss i f j g =
      (api, (refl, (ss, (g, sym (append_nil (urls_of client ad ss))))))
  register_each_urls names (a ∷ keep) api ss i f ((ip, (port, (e, k))), j) g =
      let s : Server = record {
        name = ad.server_name registration_servers (names 0);
        address = ip;
        port = port;
      } in
      let fresh = λ (n : ℕ) (p : n < length keep).
        has_name-append (ad.server_name registration_servers (names (suc n))) ss s
          (f (suc n) (omega (arith, p)))
          (λ e. absurd (omega (arith, i 0 (suc n) (omega arith) (omega (arith, p)) e))) in
      let (api', q) =
        register_each_urls (λ n. names (suc n)) keep
          (add_registration_server client ad (names 0) (ip, port) api) (ss ++ s ∷ [])
          (λ x y p q e. omega (arith, i (suc x) (suc y) (omega (arith, p)) (omega (arith, q)) e))
          fresh j
          (created client laws ok registration_servers s api.state ss g (f 0 (omega arith))) in
      (
        api',
        (
          rw e q.0,
          (
            q.1.0,
            (
              q.1.1.0,
              q.1.1.1
                  ∙ ap (λ (xs : List String). xs ++ keep) (urls_of-append ss s)
                  ∙ append_one (urls_of client ad ss) keep (ad.join s.address s.port)
                  ∙ ap (λ (x : String). urls_of client ad ss ++ x ∷ keep) k,
            ),
          ),
        ),
      )

  -- A revision of the registration servers that succeeds leaves exactly the servers of the list, in
  -- its order, whatever servers there were, when the addresses of the list are the texts of what
  -- SplitAddress reads of them, the names that are drawn differ, and the library refuses no server
  -- under a free name and no deletion of a server that is there.
  pub generic_revise-urls_of :
      (names : ℕ → ℕ) (keep : List String) (api api' : HaproxyApi client ad) (changed : Bool)
      → AreFresh (length keep) names
      → All IsAddress keep
      → generic_revise client ad registration_servers names keep api ≡ some (api', true, changed)
      → (ss : List Server) × ((client.get_servers registration_servers api'.state ≡ some ss)
          × (urls_of client ad ss ≡ keep))
  unfolding generic_revise apply_changes remove_registration_servers urls_of commit
  generic_revise-urls_of names keep api api' changed i j e =
      elim (Option-cases (client.get_version api.state)) [
        | inl n ↦ absurd (ground (arith, n, e))
        | inr (v, n) ↦ elim (Option-cases (client.start_transaction v api.state)) [
          | inl t ↦ absurd (ground (arith, n, t, e))
          | inr (st, t) ↦ elim (Option-cases (client.get_servers registration_servers st)) [
            | inl g ↦ absurd (ground (arith, n, t, g, e))
            | inr (ss, g) ↦
                let cleared : HaproxyApi client ad = record {
                  state = delete_each client ad ss st;
                  address_to_name = api.address_to_name;
                } in
                let empty = get_servers-delete_each ss ss st g (AreNamed-refl ss) in
                let (final, q) = register_each_urls names keep cleared [] i (λ n p. refl) j empty in
                elim (Option-cases (client.commit_transaction final.state)) [
                  | inl c ↦ absurd (ground (arith, n, t, g, c, e, q.0))
                  | inr (done, c) ↦
                      let same = laws.committed registration_servers final.state done c in
                      (q.1.0, (ground (arith, n, t, g, c, e, q.0, same, q.1.1.0), q.1.1.1))
                ]
          ]
        ]
      ]
