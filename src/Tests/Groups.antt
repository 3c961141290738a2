-- ===== src/Tests/Groups.antt =====
-- Concrete inputs for the theorems on the readers of domain rules.
use smartdns_rs.Prelude.{All, List, [], arith, none, refl, some, true, ℕ, ◌∷◌, ◌≡◌, ◌⊎◌}
use smartdns_rs.Tests.Names.{Any, NumName, any_apart, numbers}
use smartdns_rs.Tests.Order.{by_labels}
use smartdns_rs.Tests.Domains.{all_covered, dot_com, example, www}
use smartdns_rs.Tests.Rules.{any-IsUsed, none_shared, groups, rule_hash, sources}
use smartdns_rs.Tests.Handling.{home}
use smartdns_rs.Server.Dns.{Record, as_u32}
use smartdns_rs.Server.DnsCache.Policy.{clamp_ttl_bounds, rr_ttl_bounds}
use smartdns_rs.Server.Domains.{
  Wildcard_is_match, WildcardName, default_rule, first_label_is_match, full, hash_code, is_match,
  is_sub, kind_order, on_base, rule_base, same_rule,
}
use smartdns_rs.Server.Domains.Map.{
  at_level, find, find_from, first_wildcard, get, insert, push_wildcard, put, store_rule,
}
use smartdns_rs.Server.Domains.Sound.{IsSound, empty_map-IsSound}
use smartdns_rs.Server.Domains.Answers.{IsAnswer, IsHit}
use smartdns_rs.Server.Domains.Rules.{
  add_assign, append_rules, expand_domain, get_set, name_rule_map, no_rule, on_entries, on_entry,
}
use smartdns_rs.Server.Domains.Nodes.{
  DomainRuleTreeNode, add_items, cmp_rules, create, domain_rule_group, find_domain_rule, get_group,
  get_of_node, get_of_option, insert_item, node_rule, resolve_server_group_name, sort_items,
  top_node, tree_node, walk_zones, zone, zone_node,
}
use smartdns_rs.Server.Domains.Created.{create-IsTree}
use smartdns_rs.Server.Domains.Settings.{create-IsMerged}
use smartdns_rs.Server.Domains.Lookups.{find_domain_rule-IsAnswer}
use smartdns_rs.Server.Domains.Context.{ServerOpts, new_context, rule_ttl-All}

-- Rules for three names one above the other: only that of `com` names a server.
abbrev three : DomainRuleTreeNode NumName ℕ ℕ
three = zone_node (full www) no_rule (
    zone_node (default_rule example) (record no_rule { no_cache = some true })
      (top_node (default_rule dot_com) (record no_rule { nameserver = some "dns" })))

readers_run :
    (resolve_server_group_name none (some three) ≡ "dns")
    × (get_of_node (λ n. (node_rule n).nameserver) three ≡ none)
    × (get_of_node (λ n. (node_rule n).no_cache) three ≡ some true)
    × (get_of_option (λ n. (node_rule n).no_cache) (some three) ≡ none)
unfolding resolve_server_group_name walk_zones get_of_node get_of_option node_rule zone
readers_run = (refl, refl, refl, refl)

default-IsSound : IsSound numbers Any (domain_rule_group numbers groups "default")
unfolding domain_rule_group get_group
default-IsSound =
    (create-IsTree numbers by_labels Any any_apart rule_hash (λ es. es) [] sources
      (any-IsUsed (name_rule_map numbers sources))).sound

lan-IsSound : IsSound numbers Any (domain_rule_group numbers groups "lan")
unfolding domain_rule_group get_group
lan-IsSound = empty_map-IsSound numbers Any

find_domain_rule-IsAnswer_example :
    let own = domain_rule_group numbers groups "lan" in
    IsAnswer numbers Any own www (find_domain_rule numbers groups www "lan")
      × ((w : WildcardName NumName ℕ) × (node : DomainRuleTreeNode NumName ℕ ℕ) × IsHit numbers Any
            own www w node)
    ⊎ ((w : WildcardName NumName ℕ) (node : DomainRuleTreeNode NumName ℕ ℕ)
        → ¬ IsHit numbers Any own www w node)
      × IsAnswer numbers Any
          (domain_rule_group numbers groups "default")
          www
          (find_domain_rule numbers groups www "lan")
find_domain_rule-IsAnswer_example =
    find_domain_rule-IsAnswer numbers Any groups www "lan" lan-IsSound default-IsSound (omega arith)
      (all_covered www)

abbrev no_opts : ServerOpts
no_opts = record { group = none; rule_group = none }

-- The rule for `example.com` gives 60 and 600 as the limits.
sixty : (new_context numbers groups example no_opts home).rule_ttl_min ≡ some 60
unfolding new_context find_domain_rule domain_rule_group get_group create sort_items insert_item
    cmp_rules add_items name_rule_map append_rules on_entries on_entry expand_domain get_set
    same_rule add_assign tree_node node_rule zone get_of_option find find_from at_level
    first_wildcard get put insert store_rule push_wildcard on_base rule_base kind_order is_sub
    hash_code is_match first_label_is_match Wildcard_is_match
sixty = refl

abbrev some_records : List (Record ℕ ℕ)
some_records =
    record { name = 1; record_type = 1; dns_class = 1; ttl = 5; rdata = 1 }
    ∷ record { name = 1; record_type = 1; dns_class = 1; ttl = 300; rdata = 2 }
    ∷ []

rule_ttl-All_example :
    let bounds = rr_ttl_bounds (new_context numbers groups example no_opts home) in
    All (λ (r : Record ℕ ℕ). r.ttl ≡ as_u32 60) (clamp_ttl_bounds bounds.0 bounds.1 some_records)
rule_ttl-All_example =
    rule_ttl-All numbers groups example no_opts home 60 some_records
      (
        λ k node found.
            create-IsMerged numbers by_labels rule_hash (λ es. es) [] sources k node (λ es h. h)
              (λ i rule shared. absurd (none_shared i rule shared)) found,
        tt,
      )
      sixty
