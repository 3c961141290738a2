-- ===== src/Server/Domains/Lookups.antt =====
-- The lookup of a domain rule in the groups of src/dns_conf.rs.
use smartdns_rs.Prelude.{List, ap, inl, inr, subst, sym, ◌≤◌, ◌⊎◌}
use Prim.Native.String.{String}
use smartdns_rs.Server.Domains.{Names, WildcardName}
use smartdns_rs.Server.Domains.Map.{DomainMap, asked, find, or_else}
use smartdns_rs.Server.Domains.Matching.{depth}
use smartdns_rs.Server.Domains.Turns.{IsCovered}
use smartdns_rs.Server.Domains.Sound.{IsSound}
use smartdns_rs.Server.Domains.Answers.{IsAnswer, IsHit, find-IsAnswer}
use smartdns_rs.Server.Domains.Nodes.{DomainRuleTreeNode, domain_rule_group, find_domain_rule}

module _ {N L W : Type 0} (H : Names N L W) (K : WildcardName N W → Type 0) {V : Type 0} where
  -- On sound maps, a name that matches a rule of its group gets a most specific one of these, and a
  -- name that matches none gets the answer of the default group. The name asked for is not the
  -- root, and the rules that are asked for are among the rules in use, of which the soundness of
  -- the map speaks.
  pub find_domain_rule-IsAnswer :
      (groups : List (String × DomainMap N W (DomainRuleTreeNode N W V))) (name : N)
      (group : String)
      → IsSound H K (domain_rule_group H groups group)
      → IsSound H K (domain_rule_group H groups "default")
      → 1 ≤ depth H (asked H name)
      → IsCovered H K (asked H name)
      → let q = asked H name in
        let own = domain_rule_group H groups group in
        IsAnswer H K own q (find_domain_rule H groups name group)
          × ((w : WildcardName N W) × (node : DomainRuleTreeNode N W V) × IsHit H K own q w node)
        ⊎ ((w : WildcardName N W) (node : DomainRuleTreeNode N W V) → ¬ IsHit H K own q w node)
          × IsAnswer H K
              (domain_rule_group H groups "default")
              q
              (find_domain_rule H groups name group)
  unfolding find_domain_rule
  find_domain_rule-IsAnswer groups name group sound fallback deep covered =
      let q = asked H name in
      let own = domain_rule_group H groups group in
      let other = find H (domain_rule_group H groups "default") name in
      let answer = find-IsAnswer H K own name sound deep covered in
      elim answer [
        | inl (nothing, never) ↦ inr (
          never,
          subst (IsAnswer H K (domain_rule_group H groups "default") q)
              (ap (λ o. or_else o other) (sym nothing))
              (find-IsAnswer H K (domain_rule_group H groups "default") name fallback deep covered),
        )
        | inr (w, v, found, hit, best) ↦
            inl (inr (w, v, ap (λ o. or_else o other) found, hit, best), (w, v, hit))
      ]
