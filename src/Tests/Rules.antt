-- ===== src/Tests/Rules.antt =====
-- Concrete inputs for the theorems on the tree of domain rules.
use smartdns_rs.Prelude.{
  All, All-snoc, List, String, [], if◌then◌else◌, refl, reverse, some, subst, sym, true, ℕ, ◌∷◌,
  ◌≡◌, ◌≢◌,
}
use mathlib.Core.List.{reverse-cons}
use smartdns_rs.Tests.Names.{Any, NumName, numbers}
use smartdns_rs.Tests.Order.{by_labels}
use smartdns_rs.Tests.Domains.{example, known, www}
use smartdns_rs.Server.QueryLog.{unwrap_or}
use smartdns_rs.Server.Domains.{
  Wildcard_is_match, WildcardName, default_rule, first_label_is_match, full, hash_code, is_match,
  is_sub, kind_order, on_base, rule_base, same_rule,
}
use smartdns_rs.Server.Domains.Map.{
  DomainMap, at_level, find, find_from, first_wildcard, get, insert, is_some, push_wildcard, put,
  store_rule,
}
use smartdns_rs.Server.Domains.Rules.{
  DomainRule, RuleSources, add_assign, append_rules, domain_set, expand_domain, get_set,
  name_rule_map, no_rule, on_entries, on_entry, one_name,
}
use smartdns_rs.Server.Domains.Nodes.{
  DomainRuleTreeNode, add_items, cmp_rules, create, get_of_node, get_of_option, insert_item,
  node_rule, sort_items, top_node, tree_node, zone,
}
use smartdns_rs.Server.Domains.Zones.{IsUsed}
use smartdns_rs.Server.Domains.Settings.{IsMerged, IsMergedItem, create-IsMerged}

-- `domain-rules /example.com/ -n dns -rr-ttl-min 60 -rr-ttl-max 600 -subnet ...` and
-- `address /*.example.com/...`
abbrev pub for_example : DomainRule ℕ
for_example = record no_rule {
  nameserver = some "dns";
  rr_ttl_min = some 60;
  rr_ttl_max = some 600;
  subnet = some 1;
}

abbrev pub sources : RuleSources NumName ℕ ℕ
sources = record {
  domain_rules = record { domain = one_name (default_rule example); config = for_example } ∷ [];
  address_rules = record { domain = domain_set "home"; config = 4 } ∷ [];
  forward_rules = [];
  domain_sets = ("home", full www ∷ []) ∷ [];
  cnames = [];
  srv_records = [];
  https_records = [];
  txt_records = [];
  ipset_rules = [];
  nftsets = [];
}

abbrev pub rule_hash : DomainRule ℕ → ℕ
rule_hash rule = if is_some rule.nameserver then 1 else 2

abbrev created : DomainMap NumName ℕ (DomainRuleTreeNode NumName ℕ ℕ)
created = (create numbers by_labels rule_hash reverse [] sources).1

pub any-IsUsed :
    (xs : List (WildcardName NumName ℕ × DomainRule ℕ))
    → All (λ (x : WildcardName NumName ℕ × DomainRule ℕ). IsUsed numbers Any x.0) xs
any-IsUsed [] = tt
any-IsUsed (x ∷ xs) = ((known, λ k n same. (known, known, known)), any-IsUsed xs)

-- The zone of the second rule is the first.
zone_run :
    (get_of_option (λ n. (node_rule n).address) (find numbers created www) ≡ some 4)
    × (get_of_node
          (λ n. (node_rule n).nameserver)
          (unwrap_or (find numbers created www) (top_node (full www) no_rule))
        ≡ some "dns")
unfolding create sort_items insert_item cmp_rules add_items name_rule_map append_rules on_entries
    on_entry expand_domain get_set same_rule add_assign tree_node node_rule zone get_of_node
    get_of_option find find_from at_level first_wildcard get put insert store_rule push_wildcard
    on_base rule_base kind_order is_sub hash_code is_match first_label_is_match Wildcard_is_match
zone_run = (refl, refl)

abbrev pub groups : List (String × DomainMap NumName ℕ (DomainRuleTreeNode NumName ℕ ℕ))
groups = ("default", (create numbers by_labels rule_hash (λ es. es) [] sources).1) ∷ []

pub none_shared : (k : ℕ) (rule : DomainRule ℕ) → get k [] ≢ some rule
unfolding get
none_shared k rule found = absurd (cc found)

abbrev example_key : ℕ
example_key = hash_code numbers (default_rule (5 ∷ 7 ∷ [], true))

abbrev example_node : DomainRuleTreeNode NumName ℕ ℕ
example_node = top_node (default_rule example) (add_assign no_rule for_example)

example_found :
    get example_key (create numbers by_labels rule_hash reverse [] sources).1.rule_values
    ≡ some example_node
unfolding create sort_items insert_item cmp_rules add_items name_rule_map append_rules on_entries
    on_entry expand_domain get_set same_rule add_assign tree_node node_rule zone find find_from
    at_level first_wildcard get put insert store_rule push_wildcard on_base rule_base kind_order
    is_sub hash_code is_match first_label_is_match Wildcard_is_match
example_found = refl

reverse_kept :
    (es : List (WildcardName NumName ℕ × DomainRule ℕ))
    → All (IsMergedItem numbers) es
    → All (IsMergedItem numbers) (reverse es)
reverse_kept [] h = tt
reverse_kept (x ∷ es) (p, h) =
    subst (All (IsMergedItem numbers)) (sym (reverse-cons x es))
      (All-snoc (IsMergedItem numbers) (reverse es) (reverse_kept es h) p)

create-IsMerged_example : IsMerged (node_rule example_node)
create-IsMerged_example =
    create-IsMerged numbers by_labels rule_hash reverse [] sources example_key example_node
      reverse_kept (λ k rule found. absurd (none_shared k rule found)) example_found
