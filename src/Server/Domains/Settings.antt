-- ===== src/Server/Domains/Settings.antt =====
-- What `create` of src/dns_rule.rs keeps of the settings of domain-rules (src/config/domain_rule.rs).
use smartdns_rs.Prelude.{
  All, Bool-cases, List, Option, String, [], ap, inl, inr, none, refl, some, subst, sym, ℕ, ◌∷◌,
  ◌≡◌,
}
use smartdns_rs.Server.QueryLog.{unwrap_or}
use smartdns_rs.Server.Domains.{Names, WildcardName, rule_base, same_rule}
use smartdns_rs.Server.Domains.Map.{
  DomainMap, empty_map, find, get, insert, or_else, put, store_rule,
}
use smartdns_rs.Server.Domains.Entries.{put-values}
use smartdns_rs.Server.Domains.Rules.{
  ConfigForDomain, DomainRule, RuleSources, add_assign, append_rules, expand_domain, name_rule_map,
  no_rule, on_entries, on_entry,
}
use smartdns_rs.Server.Domains.Nodes.{
  DomainRuleTreeNode, NameOrder, add_items, create, node_rule, sort_items, tree_node,
}
use smartdns_rs.Server.Domains.Zones.{node_name-tree_node}
use smartdns_rs.Server.Domains.Sorted.{All-sort_items}

-- One limit of TTLs is the other, and no response mode and no subnet are set.
abbrev pub IsMerged : {V : Type 0} → DomainRule V → Type 0
IsMerged rule =
    (rule.rr_ttl_max ≡ rule.rr_ttl_min) × (rule.response_mode ≡ none) × (rule.subnet ≡ none)

module _ {V : Type 0} where
  add_assign-IsMerged : (rule rhs : DomainRule V) → IsMerged rule → IsMerged (add_assign rule rhs)
  unfolding add_assign
  add_assign-IsMerged rule rhs (limits, mode, subnet) =
      (ap (or_else rhs.rr_ttl_min) limits, mode, subnet)

module _ {N L W : Type 0} (H : Names N L W) {V : Type 0} where
  abbrev pub IsMergedItem : WildcardName N W × DomainRule V → Type 0
  IsMergedItem (name, rule) = IsMerged rule

  on_entry-IsMerged :
      (f : DomainRule V → DomainRule V) (name : WildcardName N W)
      (es : List (WildcardName N W × DomainRule V))
      → ((rule : DomainRule V) → IsMerged rule → IsMerged (f rule))
      → All IsMergedItem es
      → All IsMergedItem (on_entry H f name es)
  unfolding on_entry
  on_entry-IsMerged f name [] keeps h = (keeps no_rule (refl, refl, refl), tt)
  on_entry-IsMerged f name ((n, rule) ∷ es) keeps (p, h) =
      let rest = on_entry-IsMerged f name es keeps h in
      elim (Bool-cases (same_rule H n name)) [
        | inl same ↦ rw same (keeps rule p, h)
        | inr other ↦ rw other (p, rest)
      ]

  on_entries-IsMerged :
      (f : DomainRule V → DomainRule V) (names : List (WildcardName N W))
      (es : List (WildcardName N W × DomainRule V))
      → ((rule : DomainRule V) → IsMerged rule → IsMerged (f rule))
      → All IsMergedItem es
      → All IsMergedItem (on_entries H f names es)
  unfolding on_entries
  on_entries-IsMerged f [] es keeps h = h
  on_entries-IsMerged f (name ∷ names) es keeps h =
      on_entries-IsMerged f names (on_entry H f name es) keeps (on_entry-IsMerged f name es keeps h)

  append_rules-IsMerged :
      {C : Type 0} (f : C → DomainRule V → DomainRule V)
      (sets : List (String × List (WildcardName N W))) (rules : List (ConfigForDomain N W C))
      (es : List (WildcardName N W × DomainRule V))
      → ((c : C) (rule : DomainRule V) → IsMerged rule → IsMerged (f c rule))
      → All IsMergedItem es
      → All IsMergedItem (append_rules H f sets rules es)
  unfolding append_rules
  append_rules-IsMerged f sets [] es keeps h = h
  append_rules-IsMerged f sets (rule ∷ rules) es keeps h =
      append_rules-IsMerged f sets rules _ keeps (
        on_entries-IsMerged (f rule.config) (expand_domain sets rule.domain) es (keeps rule.config)
          h)

  -- The later loops touch none of the three.
  pub name_rule_map-IsMerged : (src : RuleSources N W V) → All IsMergedItem (name_rule_map H src)
  unfolding name_rule_map
  name_rule_map-IsMerged src =
      let sets = src.domain_sets in
      append_rules-IsMerged _ sets src.nftsets _ (λ c rule h. h)
        (append_rules-IsMerged _ sets src.txt_records _ (λ c rule h. h)
          (append_rules-IsMerged _ sets src.ipset_rules _ (λ c rule h. h)
            (append_rules-IsMerged _ sets src.https_records _ (λ c rule h. h)
              (append_rules-IsMerged _ sets src.srv_records _ (λ c rule h. h)
                (append_rules-IsMerged _ sets src.cnames _ (λ c rule h. h)
                  (append_rules-IsMerged _ sets src.forward_rules _ (λ c rule h. h)
                    (append_rules-IsMerged _ sets src.address_rules _ (λ c rule h. h)
                      (append_rules-IsMerged _ sets src.domain_rules []
                        (λ c rule h. add_assign-IsMerged rule c h) tt))))))))

  -- All the rules that a list of entries has.
  abbrev pub IsMergedRules : List (ℕ × DomainRule V) → Type 0
  IsMergedRules rule_map =
      (k : ℕ) (rule : DomainRule V) → get k rule_map ≡ some rule → IsMerged rule

  abbrev pub IsMergedMap : DomainMap N W (DomainRuleTreeNode N W V) → Type 0
  IsMergedMap m =
      (k : ℕ) (node : DomainRuleTreeNode N W V)
      → get k m.rule_values ≡ some node
      → IsMerged (node_rule node)

  shared-IsMerged :
      (o : Option (DomainRule V)) (v : DomainRule V)
      → ((rule : DomainRule V) → o ≡ some rule → IsMerged rule)
      → IsMerged v
      → IsMerged (unwrap_or o v)
  shared-IsMerged none v h p = p
  shared-IsMerged (some rule) v h p = h rule refl

  module _ (O : NameOrder H) where
    add_items-IsMerged :
        (rule_hash : DomainRule V → ℕ) (items : List (WildcardName N W × DomainRule V))
        (rule_map : List (ℕ × DomainRule V)) (m : DomainMap N W (DomainRuleTreeNode N W V))
        → All IsMergedItem items
        → IsMergedRules rule_map
        → IsMergedMap m
        → IsMergedMap (add_items H O rule_hash items (rule_map, m)).1
    unfolding add_items insert store_rule
    add_items-IsMerged rule_hash [] rule_map m merged shared old = old
    add_items-IsMerged rule_hash ((name, v) ∷ items) rule_map m (p, merged) shared old =
        let rule = unwrap_or (get (rule_hash v) rule_map) v in
        let zone = find H m (H.base_name (rule_base name)) in
        let is_merged = shared-IsMerged (get (rule_hash v) rule_map) v (shared (rule_hash v)) p in
        add_items-IsMerged rule_hash items (put (rule_hash v) rule rule_map)
          (insert H name (tree_node name rule zone) m).0 merged
          (put-values IsMerged (rule_hash v) rule rule_map is_merged shared)
          (put-values (λ node. IsMerged (node_rule node)) _ (tree_node name rule zone) m.rule_values
            (subst IsMerged (sym (node_name-tree_node name rule zone).1) is_merged) old)

    -- Whatever settings are configured, every rule that create stores has the same upper and lower
    -- limit of TTLs and neither a response mode nor a subnet, if that holds of the rules that other
    -- groups share with it, and if the iteration over the collected rules yields these in some
    -- order.
    pub create-IsMerged :
        (rule_hash : DomainRule V → ℕ)
        (into_iter : List (WildcardName N W × DomainRule V)
          → List (WildcardName N W × DomainRule V))
        (rule_map : List (ℕ × DomainRule V)) (src : RuleSources N W V) (k : ℕ)
        (node : DomainRuleTreeNode N W V)
        → ((es : List (WildcardName N W × DomainRule V))
            → All IsMergedItem es
            → All IsMergedItem (into_iter es))
        → IsMergedRules rule_map
        → get k (create H O rule_hash into_iter rule_map src).1.rule_values ≡ some node
        → IsMerged (node_rule node)
    unfolding create get
    create-IsMerged rule_hash into_iter rule_map src k node keeps shared =
        add_items-IsMerged rule_hash (sort_items H O (into_iter (name_rule_map H src))) rule_map
          empty_map (All-sort_items H O IsMergedItem _ (keeps _ (name_rule_map-IsMerged src)))
          shared (λ i other found. absurd (cc found)) k node
