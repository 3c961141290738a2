-- ===== src/Server/Domains/Created.antt =====
-- The map that `create` of src/dns_rule.rs builds, item by item.
use smartdns_rs.Prelude.{All, List, [], ap, inl, inr, some, subst, sym, ℕ, ◌∙◌, ◌∷◌, ◌≢◌}
use smartdns_rs.Server.QueryLog.{unwrap_or}
use smartdns_rs.Server.Domains.{Names, WildcardName, rule_base}
use smartdns_rs.Server.Domains.Map.{DomainMap, empty_map, find, get, put, value_of}
use smartdns_rs.Server.Domains.Rules.{DomainRule, RuleSources, name_rule_map}
use smartdns_rs.Server.Domains.Nodes.{
  DomainRuleTreeNode, NameOrder, add_items, create, node_name, sort_items,
}
use smartdns_rs.Server.Domains.Sorted.{All-sort_items, IsBefore, IsSorted, sort_items-IsSorted}
use smartdns_rs.Server.Domains.Sound.{IsApart, empty_map-IsSound}
use smartdns_rs.Server.Domains.Zones.{
  IsBelow, IsTree, IsUsed, base_of, node_name-tree_node, with_item, with_item-IsTree,
  with_item-cases,
}

module _ {N L W : Type 0} (H : Names N L W) (O : NameOrder H) (K : WildcardName N W → Type 0)
    (apart : IsApart H K) {V : Type 0} where
  -- What comes behind an item and behind all that was stored comes behind all that is.
  still-IsBelow :
      (name : WildcardName N W) (rule : DomainRule V) (m : DomainMap N W (DomainRuleTreeNode N W V))
      (items : List (WildcardName N W × DomainRule V))
      → IsUsed H K name
      → All
          (λ (x : WildcardName N W × DomainRule V). IsBefore H O (rule_base name) (rule_base x.0))
          items
      → All (λ (x : WildcardName N W × DomainRule V). IsBelow H O K apart m (rule_base x.0)) items
      → All
          (λ (x : WildcardName N W × DomainRule V).
            IsBelow H O K apart (with_item H O K apart name rule m) (rule_base x.0))
          items
  still-IsBelow name rule m [] used first below = tt
  still-IsBelow name rule m ((n, v) ∷ items) used (f, first) (b, below) = (
    λ w node stored. elim (with_item-cases H O K apart name rule m w node used.0 stored) [
      | inl same ↦
          let named =
            ap node_name same ∙ (node_name-tree_node name rule (find H m (base_of H name))).0 in
          subst (λ x. IsBefore H O (rule_base x) (rule_base n)) (sym named) f
      | inr before ↦ b w node before
    ],
    still-IsBelow name rule m items used first below,
  )

  empty :
      (w : WildcardName N W) (node : DomainRuleTreeNode N W V) → value_of H empty_map w ≢ some node
  unfolding get
  empty w node found = absurd (cc found)

  none-IsBelow :
      (items : List (WildcardName N W × DomainRule V))
      → All
          (λ (x : WildcardName N W × DomainRule V).
            IsBelow H O K apart {V = V} empty_map (rule_base x.0))
          items
  none-IsBelow [] = tt
  none-IsBelow (x ∷ items) =
      (λ w node (known, found). absurd (empty w node found), none-IsBelow items)

  -- What is stored in the end, item by item.
  add_items-IsTree :
      (rule_hash : DomainRule V → ℕ) (items : List (WildcardName N W × DomainRule V))
      (rule_map : List (ℕ × DomainRule V)) (m : DomainMap N W (DomainRuleTreeNode N W V))
      → All (λ (x : WildcardName N W × DomainRule V). IsUsed H K x.0) items
      → IsSorted H O items
      → All (λ (x : WildcardName N W × DomainRule V). IsBelow H O K apart m (rule_base x.0)) items
      → IsTree H O K apart m
      → IsTree H O K apart (add_items H O rule_hash items (rule_map, m)).1
  unfolding add_items
  add_items-IsTree rule_hash [] rule_map m used sorted below old = old
  add_items-IsTree rule_hash ((name, v) ∷ items) rule_map m (u, used) (first, sorted) (b, below)
        old =
      let rule = unwrap_or (get (rule_hash v) rule_map) v in
      add_items-IsTree rule_hash items (put (rule_hash v) rule rule_map)
        (with_item H O K apart name rule m) used sorted
        (still-IsBelow name rule m items u first below)
        (with_item-IsTree H O K apart name rule m u b old)

  pub create-IsTree :
      (rule_hash : DomainRule V → ℕ)
      (into_iter : List (WildcardName N W × DomainRule V) → List (WildcardName N W × DomainRule V))
      (rule_map : List (ℕ × DomainRule V)) (src : RuleSources N W V)
      → All
          (λ (x : WildcardName N W × DomainRule V). IsUsed H K x.0)
          (into_iter (name_rule_map H src))
      → IsTree H O K apart (create H O rule_hash into_iter rule_map src).1
  unfolding create
  create-IsTree rule_hash into_iter rule_map src used =
      let items = into_iter (name_rule_map H src) in
      add_items-IsTree rule_hash (sort_items H O items) rule_map empty_map
        (All-sort_items H O (λ x. IsUsed H K x.0) items used) (sort_items-IsSorted H O items)
        (none-IsBelow (sort_items H O items))
        (record {
          sound = empty_map-IsSound H K;
          used = λ w node (known, found). absurd (empty w node found);
          zoned = λ w node (known, found). absurd (empty w node found);
        })
