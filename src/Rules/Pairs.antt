-- ===== src/Rules/Pairs.antt =====
-- The rules that are added for a sandbox are the ones that are deleted with it
-- (internal/worker_node/managers/iptables_manager.go).
use dirigent.Prelude.{
  ℕ, ◌+◌, ◌-◌, ◌≡◌, Bool, true, false, String, arith, if◌then◌else◌, ◌==◌, ◌&&◌, ite,
}
use dirigent.Prelude.Names.{string_discrete}
use dirigent.Rules.{
  Iptables, Rule, prerouting, output, masquerade, append, append_unique, delete, accept_forward,
  add_rules, delete_rules,
}

abbrev pub same_rule : Rule → Rule → Bool
same_rule (prerouting p i q) (prerouting p' i' q') =
    p == p' && q == q' && ite (string_discrete i i') true false
same_rule (output p i q) (output p' i' q') =
    p == p' && q == q' && ite (string_discrete i i') true false
same_rule masquerade masquerade = true
same_rule r r' = false

-- The documented behaviour of iptables: a rule can be there more than once, and a deletion takes one.
pub record IsIptables (ipt : Iptables) : Type 0 where
  pub append_at :
      (s : ipt.State) (r r' : Rule)
      → ipt.rules_of (ipt.run (append r) s).1 r'
        ≡ ipt.rules_of s r' + (if (ipt.run (append r) s).0 && same_rule r r' then 1 else 0)
  pub append_unique_at :
      (s : ipt.State) (r r' : Rule)
      → same_rule r r' ≡ false
      → ipt.rules_of (ipt.run (append_unique r) s).1 r' ≡ ipt.rules_of s r'
  pub accept_at :
      (s : ipt.State) (r : Rule) → ipt.rules_of (ipt.run accept_forward s).1 r ≡ ipt.rules_of s r
  pub delete_at :
      (s : ipt.State) (r r' : Rule)
      → ipt.rules_of (ipt.run (delete r) s).1 r'
        ≡ ipt.rules_of s r' - (if same_rule r r' then 1 else 0)

module _ (ipt : Iptables) (l : IsIptables ipt) where
  -- Deleting the rules of a sandbox leaves each rule other than the MASQUERADE as often in the table
  -- as before they were added, if both could be added.
  pub delete_rules-add_rules :
      (port : ℕ) (ip : String) (guest : ℕ) (s : ipt.State) (r : Rule)
      → same_rule masquerade r ≡ false
      → (ipt.run (append (prerouting port ip guest)) s).0 ≡ true
      → (ipt.run
          (append (output port ip guest))
          (ipt.run (append (prerouting port ip guest)) s).1).0
        ≡ true
      → ipt.rules_of (delete_rules ipt port ip guest (add_rules ipt port ip guest s)) r
        ≡ ipt.rules_of s r
  unfolding add_rules delete_rules
  delete_rules-add_rules port ip guest s r other a b =
      let p = prerouting port ip guest in
      let o = output port ip guest in
      let s1 = (ipt.run (append p) s).1 in
      let s2 = (ipt.run (append o) s1).1 in
      let s3 = (ipt.run (append_unique masquerade) s2).1 in
      let s4 = (ipt.run accept_forward s3).1 in
      let s5 = (ipt.run (delete p) s4).1 in
      ground (
        arith,
        a,
        b,
        l.append_at s p r,
        l.append_at s1 o r,
        l.append_unique_at s2 masquerade r other,
        l.accept_at s3 r,
        l.delete_at s4 p r,
        l.delete_at s5 o r,
      )
