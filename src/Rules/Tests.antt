-- ===== src/Rules/Tests.antt =====
-- Runs of the forwarding rules.
use dirigent.Prelude.{ℕ, ◌+◌, ◌-◌, ◌≡◌, refl, Bool, true, arith, if◌then◌else◌}
use dirigent.Rules.{
  Iptables, Rule, RuleCommand, prerouting, append, append_unique, delete, accept_forward, add_rules,
  delete_rules,
}
use dirigent.Rules.Pairs.{same_rule, IsIptables, delete_rules-add_rules}

abbrev run_table : RuleCommand → (Rule → ℕ) → Bool × (Rule → ℕ)
run_table (append r) t = (true, λ r'. t r' + (if same_rule r r' then 1 else 0))
run_table (append_unique r) t = (true, λ r'. if same_rule r r' then 1 else t r')
run_table (delete r) t = (true, λ r'. t r' - (if same_rule r r' then 1 else 0))
run_table accept_forward t = (true, t)

-- A table that counts its rules.
abbrev table : Iptables
table = record { State = Rule → ℕ; run = run_table; rules_of = λ t r. t r }

table-IsIptables : IsIptables table
table-IsIptables = record {
  append_at = λ s r r'. ground arith;
  append_unique_at = λ s r r' n. ground (arith, n);
  accept_at = λ s r. refl;
  delete_at = λ s r r'. refl;
}

forwarding_undone :
    table.rules_of
      (delete_rules table 5_000 "10.0.0.1" 80 (add_rules table 5_000 "10.0.0.1" 80 (λ r. 0)))
      (prerouting 5_000 "10.0.0.1" 80)
    ≡ 0
forwarding_undone =
    delete_rules-add_rules table table-IsIptables 5_000 "10.0.0.1" 80 (λ r. 0)
      (prerouting 5_000 "10.0.0.1" 80) refl refl refl
