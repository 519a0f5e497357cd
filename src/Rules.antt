-- ===== src/Rules.antt =====
-- internal/worker_node/managers/iptables_manager.go: the forwarding of a host's port to a sandbox. The
-- library go-iptables is a parameter, with the command `iptables` for the policy of FORWARD; its
-- errors are logged only.
pub mod Pairs
mod Tests
use dirigent.Prelude.{ℕ, Bool, String}

-- The rules of the table `nat`: a port of the host, an address and a port of it.
pub data Rule : Type 0 where
  prerouting output : ℕ → String → ℕ → Rule
  masquerade : Rule

pub data RuleCommand : Type 0 where
  append append_unique delete : Rule → RuleCommand
  accept_forward : RuleCommand

-- `rules_of` says how often a rule is in the table.
pub record Iptables : Type 1 where
  pub State : Type 0
  pub run : RuleCommand → State → Bool × State
  pub rules_of : State → Rule → ℕ

module _ (ipt : Iptables) where
  unfoldable pub add_rules : ℕ → String → ℕ → ipt.State → ipt.State
  add_rules source_port dest_ip dest_port s =
      let s1 = (ipt.run (append (prerouting source_port dest_ip dest_port)) s).1 in
      let s2 = (ipt.run (append (output source_port dest_ip dest_port)) s1).1 in
      let s3 = (ipt.run (append_unique masquerade) s2).1 in (ipt.run accept_forward s3).1

  unfoldable pub delete_rules : ℕ → String → ℕ → ipt.State → ipt.State
  delete_rules source_port dest_ip dest_port s =
      let s1 = (ipt.run (delete (prerouting source_port dest_ip dest_port)) s).1 in
      (ipt.run (delete (output source_port dest_ip dest_port)) s1).1
