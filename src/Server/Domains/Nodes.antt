-- ===== src/Server/Domains/Nodes.antt =====
-- src/dns_rule.rs: the tree of a group's domain rules, in which each rule knows the rule of the zone
-- above it; the lookup of a name's rule in the groups of src/dns_conf.rs; and what a request of
-- src/dns.rs takes from the tree.
use smartdns_rs.Prelude.{
  List, Option, Ordering, [], compare, drop, false, if◌then◌else◌, is_empty, length, none, some,
  true, ℕ, ◌=s=◌, ◌∷◌, ◌≡◌, ◌≤◌,
}
use Prim.Native.String.{String}
use smartdns_rs.Server.QueryLog.{unwrap_or}
use smartdns_rs.Server.Domains.{Names, WildcardName, kind_order, rule_base}
use smartdns_rs.Server.Domains.Map.{DomainMap, empty_map, find, get, insert, or_else, put}
use smartdns_rs.Server.Domains.Rules.{DomainRule, RuleSources, name_rule_map}
use smartdns_rs.Server.Ranking.{is_greater, then_with}

-- A node without a zone, and one in a zone.
pub data DomainRuleTreeNode (N W V : Type 0) : Type 0 where
  top_node : WildcardName N W → DomainRule V → DomainRuleTreeNode N W V
  zone_node : WildcardName N W → DomainRule V → DomainRuleTreeNode N W V → DomainRuleTreeNode N W V

abbrev pub and_then : {A B : Type 0} → (A → Option B) → Option A → Option B
and_then f none = none
and_then f (some a) = f a

-- `Ordering::reverse`
abbrev pub flip : Ordering → Ordering
flip Ordering.lt = Ordering.gt
flip Ordering.eq = Ordering.eq
flip Ordering.gt = Ordering.lt

module _ {N W V : Type 0} where
  unfoldable pub node_name : DomainRuleTreeNode N W V → WildcardName N W
  node_name (top_node name rule) = name
  node_name (zone_node name rule z) = name

  unfoldable pub node_rule : DomainRuleTreeNode N W V → DomainRule V
  node_rule (top_node name rule) = rule
  node_rule (zone_node name rule z) = rule

  unfoldable pub zone : DomainRuleTreeNode N W V → Option (DomainRuleTreeNode N W V)
  zone (top_node name rule) = none
  zone (zone_node name rule z) = some z

  -- `DomainRuleTreeNode { name, rule, zone }`
  unfoldable pub tree_node :
      WildcardName N W → DomainRule V → Option (DomainRuleTreeNode N W V) → DomainRuleTreeNode N W V
  tree_node name rule none = top_node name rule
  tree_node name rule (some z) = zone_node name rule z

  -- `get` of a node
  unfoldable pub get_of_node :
      {A : Type 0} → (DomainRuleTreeNode N W V → Option A) → DomainRuleTreeNode N W V → Option A
  get_of_node f node = or_else (f node) (and_then f (zone node))

  -- `get` of an `Option<Arc<DomainRuleTreeNode>>`
  unfoldable pub get_of_option :
      {A : Type 0}
      → (DomainRuleTreeNode N W V → Option A)
      → Option (DomainRuleTreeNode N W V)
      → Option A
  get_of_option f node = and_then f node

  -- The loop of `resolve_server_group_name`, from a node up.
  unfoldable pub walk_zones : DomainRuleTreeNode N W V → String
  walk_zones (top_node name rule) = unwrap_or rule.nameserver "default"
  walk_zones (zone_node name rule z) = unwrap_or rule.nameserver (walk_zones z)

  unfoldable pub resolve_server_group_name :
      Option String → Option (DomainRuleTreeNode N W V) → String
  resolve_server_group_name (some group) domain_rule = group
  resolve_server_group_name none none = "default"
  resolve_server_group_name none (some node) = walk_zones node

-- `Ord` of names, label by label from the root, as the crate documents it: a total order in which a
-- name stands behind the names above it.
pub record NameOrder {N L W : Type 0} (H : Names N L W) : Type 0 where
  pub cmp_names : N → N → Ordering
  pub cmp_reverse : (a b : N) → cmp_names b a ≡ flip (cmp_names a b)
  pub cmp_trans :
      (a b c : N)
      → is_greater (cmp_names a b) ≡ false
      → is_greater (cmp_names b c) ≡ false
      → is_greater (cmp_names a c) ≡ false
  pub cmp_above :
      (k : ℕ) (a b : N)
      → 1 ≤ k
      → k ≤ length (H.labels b)
      → H.labels a ≡ drop k (H.labels b)
      → is_greater (cmp_names b a) ≡ true

module _ {N L W : Type 0} (H : Names N L W) (O : NameOrder H) where
  -- `cmp` of rules
  unfoldable pub cmp_rules : WildcardName N W → WildcardName N W → Ordering
  cmp_rules a b =
      then_with (O.cmp_names (rule_base a) (rule_base b)) (compare (kind_order a) (kind_order b))

module _ {N L W : Type 0} (H : Names N L W) (O : NameOrder H) {V : Type 0} where
  -- `sort_by`, which is stable.
  unfoldable pub insert_item :
      WildcardName N W × DomainRule V
      → List (WildcardName N W × DomainRule V)
      → List (WildcardName N W × DomainRule V)
  insert_item item [] = item ∷ []
  insert_item item (x ∷ xs) =
      if is_greater (cmp_rules H O item.0 x.0) then x ∷ insert_item item xs else item ∷ x ∷ xs

  unfoldable pub sort_items :
      List (WildcardName N W × DomainRule V) → List (WildcardName N W × DomainRule V)
  sort_items [] = []
  sort_items (x ∷ xs) = insert_item x (sort_items xs)

  -- The last loop of `create`, with the rules that the groups share by their hash.
  unfoldable pub add_items :
      (DomainRule V → ℕ)
      → List (WildcardName N W × DomainRule V)
      → List (ℕ × DomainRule V) × DomainMap N W (DomainRuleTreeNode N W V)
      → List (ℕ × DomainRule V) × DomainMap N W (DomainRuleTreeNode N W V)
  add_items rule_hash [] state = state
  add_items rule_hash ((name, v) ∷ items) (rule_map, rules) =
      let rule = unwrap_or (get (rule_hash v) rule_map) v in
      let above = find H rules (H.base_name (rule_base name)) in
      add_items rule_hash items
        (put (rule_hash v) rule rule_map, (insert H name (tree_node name rule above) rules).0)

  -- `into_iter` gives the entries of a hash map in some order.
  unfoldable pub create :
      (DomainRule V → ℕ)
      → (List (WildcardName N W × DomainRule V) → List (WildcardName N W × DomainRule V))
      → List (ℕ × DomainRule V)
      → RuleSources N W V
      → List (ℕ × DomainRule V) × DomainMap N W (DomainRuleTreeNode N W V)
  create rule_hash into_iter rule_map src =
      add_items rule_hash (sort_items (into_iter (name_rule_map H src))) (rule_map, empty_map)

module _ {N L W : Type 0} (H : Names N L W) {V : Type 0} where
  -- `domain_rule_group_map`: the rules of each group by the group's name.
  unfoldable pub get_group :
      String
      → List (String × DomainMap N W (DomainRuleTreeNode N W V))
      → Option (DomainMap N W (DomainRuleTreeNode N W V))
  get_group name [] = none
  get_group name ((key, rules) ∷ groups) =
      if key =s= name then some rules else get_group name groups

  unfoldable pub domain_rule_group :
      List (String × DomainMap N W (DomainRuleTreeNode N W V))
      → String
      → DomainMap N W (DomainRuleTreeNode N W V)
  domain_rule_group groups name =
      unwrap_or (get_group (if is_empty name then "default" else name) groups) empty_map

  unfoldable pub find_domain_rule :
      List (String × DomainMap N W (DomainRuleTreeNode N W V))
      → N
      → String
      → Option (DomainRuleTreeNode N W V)
  find_domain_rule groups domain group =
      or_else (find H (domain_rule_group groups group) domain)
        (find H (domain_rule_group groups "default") domain)
