-- ===== src/Server/Domains/Zones.antt =====
-- What `create` of src/dns_rule.rs builds: the zone of each rule.
use smartdns_rs.Prelude.{Option, ap, inl, inr, none, refl, some, subst, sym, ◌∙◌, ◌≡◌, ◌≤◌, ◌⊎◌}
use smartdns_rs.Server.Domains.{Names, WildcardName, rule_base}
use smartdns_rs.Server.Domains.Map.{DomainMap, asked, find, insert}
use smartdns_rs.Server.Domains.Matching.{depth}
use smartdns_rs.Server.Domains.Turns.{IsCovered}
use smartdns_rs.Server.Domains.Rules.{DomainRule}
use smartdns_rs.Server.Domains.Nodes.{
  DomainRuleTreeNode, NameOrder, node_name, node_rule, tree_node, zone,
}
use smartdns_rs.Server.Domains.Kept.{insert-IsSound, qualified_rule}
use smartdns_rs.Server.Domains.Others.{find-insert_other}
use smartdns_rs.Server.Domains.Sorted.{IsBefore-refl, IsBefore, zone_mismatch}
use smartdns_rs.Server.Domains.Sound.{IsApart, IsSound, IsStored, store_rule-cases}

module _ {N W V : Type 0} where
  pub node_name-tree_node :
      (name : WildcardName N W) (rule : DomainRule V) (o : Option (DomainRuleTreeNode N W V))
      → (node_name (tree_node name rule o) ≡ name)
        × (node_rule (tree_node name rule o) ≡ rule)
        × (zone (tree_node name rule o) ≡ o)
  unfolding node_name node_rule zone tree_node
  node_name-tree_node name rule none = (refl, refl, refl)
  node_name-tree_node name rule (some z) = (refl, refl, refl)

module _ {N L W : Type 0} (H : Names N L W) where
  -- The name above that of a rule.
  abbrev pub base_of : WildcardName N W → N
  base_of w = H.base_name (rule_base w)

module _ {N L W : Type 0} (H : Names N L W) (K : WildcardName N W → Type 0) where
  -- The rule, and the rules that are asked for above it, are in use.
  abbrev pub IsUsed : WildcardName N W → Type 0
  IsUsed w = K (qualified_rule H w) × IsCovered H K (asked H (base_of H w))

module _ {N L W : Type 0} (H : Names N L W) (O : NameOrder H) (K : WildcardName N W → Type 0)
    (apart : IsApart H K) {V : Type 0} where
  abbrev pub node_base : DomainRuleTreeNode N W V → N
  node_base node = rule_base (node_name node)

  -- The zone of a node is what the name above it finds, unless that is the root.
  abbrev pub IsZoned : DomainMap N W (DomainRuleTreeNode N W V) → DomainRuleTreeNode N W V → Type 0
  IsZoned m node =
      1 ≤ depth H (asked H (base_of H (node_name node)))
      → zone node ≡ find H m (base_of H (node_name node))

  pub record IsTree (m : DomainMap N W (DomainRuleTreeNode N W V)) : Type 0 where
    pub sound : IsSound H K m
    pub used :
        (w : WildcardName N W) (node : DomainRuleTreeNode N W V)
        → IsStored H K m w node
        → IsUsed H K (node_name node)
    pub zoned :
        (w : WildcardName N W) (node : DomainRuleTreeNode N W V)
        → IsStored H K m w node
        → IsZoned m node

  -- No stored rule sorts behind the name.
  abbrev pub IsBelow : DomainMap N W (DomainRuleTreeNode N W V) → N → Type 0
  IsBelow m n =
      (w : WildcardName N W) (node : DomainRuleTreeNode N W V)
      → IsStored H K m w node
      → IsBefore H O (node_base node) n

  abbrev pub with_item :
      WildcardName N W
      → DomainRule V
      → DomainMap N W (DomainRuleTreeNode N W V)
      → DomainMap N W (DomainRuleTreeNode N W V)
  with_item name rule m = (insert H name (tree_node name rule (find H m (base_of H name))) m).0

  pub with_item-cases :
      (name : WildcardName N W) (rule : DomainRule V) (m : DomainMap N W (DomainRuleTreeNode N W V))
      (w : WildcardName N W) (node : DomainRuleTreeNode N W V)
      → K (qualified_rule H name)
      → IsStored H K (with_item name rule m) w node
      → (node ≡ tree_node name rule (find H m (base_of H name))) ⊎ IsStored H K m w node
  unfolding insert
  with_item-cases name rule m w node known stored =
      let new = tree_node name rule (find H m (base_of H name)) in
      elim (store_rule-cases H K (qualified_rule H name) new m w node apart known stored) [
        | inl (same, found) ↦ inl (sym found)
        | inr before ↦ inr before
      ]

  -- An item that sorts behind all the stored rules.
  with_item-zoned :
      (name : WildcardName N W) (rule : DomainRule V) (m : DomainMap N W (DomainRuleTreeNode N W V))
      (n : WildcardName N W)
      → IsUsed H K name
      → IsSound H K m
      → IsCovered H K (asked H (base_of H n))
      → IsBefore H O (rule_base n) (rule_base name)
      → 1 ≤ depth H (asked H (base_of H n))
      → find H (with_item name rule m) (base_of H n) ≡ find H m (base_of H n)
  with_item-zoned name rule m n (known, above) sound covered before deep =
      find-insert_other H K name _ m (base_of H n) apart known sound deep covered
        (zone_mismatch H O (rule_base n) name deep before)

  new-IsZoned :
      (name : WildcardName N W) (m after : DomainMap N W (DomainRuleTreeNode N W V))
      (node : DomainRuleTreeNode N W V)
      → node_name node ≡ name
      → zone node ≡ find H m (base_of H name)
      → (1 ≤ depth H (asked H (base_of H name))
          → find H after (base_of H name) ≡ find H m (base_of H name))
      → IsZoned after node
  new-IsZoned name m after node named zone_of same deep =
      let deep_name = subst (λ n. 1 ≤ depth H (asked H (base_of H n))) named deep in
      zone_of ∙ sym (same deep_name) ∙ ap (λ n. find H after (base_of H n)) (sym named)

  pub with_item-IsTree :
      (name : WildcardName N W) (rule : DomainRule V) (m : DomainMap N W (DomainRuleTreeNode N W V))
      → IsUsed H K name
      → IsBelow m (rule_base name)
      → IsTree m
      → IsTree (with_item name rule m)
  with_item-IsTree name rule m used below old =
      let new = node_name-tree_node name rule (find H m (base_of H name)) in
      let unaffected = λ (n : WildcardName N W). with_item-zoned name rule m n used old.sound in
      record {
        sound = insert-IsSound H K name _ m apart used.0 old.sound;
        used = λ w node stored. elim (with_item-cases name rule m w node used.0 stored) [
          | inl same ↦ subst (IsUsed H K) (sym (ap node_name same ∙ new.0)) used
          | inr before ↦ old.used w node before
        ];
        zoned = λ w node stored. elim (with_item-cases name rule m w node used.0 stored) [
          | inl same ↦
              new-IsZoned name m (with_item name rule m) node (ap node_name same ∙ new.0)
                (ap zone same ∙ new.2) (unaffected name used.1 (IsBefore-refl H O (rule_base name)))
          | inr before ↦ λ deep.
              old.zoned w node before deep
              ∙ sym (
                  unaffected (node_name node) (old.used w node before).1 (below w node before) deep)
        ];
      }
