-- ===== src/Server/Domains/Context.antt =====
-- `DnsContext::new` of src/dns.rs: what a request takes from the domain rules, as the cache's
-- middleware reads it; and the TTLs that the rules' limits leave to the cache.
use smartdns_rs.Prelude.{
  All, Bool-cases, List, Option, Option-cases, [], arith, false, if◌then◌else◌, inl, inr, is_empty,
  refl, some, ℕ, ◌=s=◌, ◌∙◌, ◌∷◌, ◌≡◌,
}
use Prim.Native.String.{String}
use smartdns_rs.Server.QueryLog.{unwrap_or}
use smartdns_rs.Server.Dns.{Record, as_u32}
use smartdns_rs.Server.DnsCache.Policy.{DnsContext, clamp_ttl_bounds, rr_ttl_bounds}
use smartdns_rs.Server.Domains.{Names}
use smartdns_rs.Server.Domains.Map.{DomainMap, empty_map, find, get}
use smartdns_rs.Server.Domains.Values.{find-IsValue}
use smartdns_rs.Server.Domains.Best.{or_else-some}
use smartdns_rs.Server.Domains.Settings.{IsMerged, IsMergedMap}
use smartdns_rs.Server.Domains.Nodes.{
  DomainRuleTreeNode, domain_rule_group, find_domain_rule, get_group, get_of_option, node_rule,
  resolve_server_group_name,
}

-- The options of the listening server, of which `group` and `rule_group` matter here.
pub record ServerOpts : Type 0 where
  pub group : Option String
  pub rule_group : Option String

module _ {N L W : Type 0} (H : Names N L W) {V : Type 0} where
  -- `config` has the other fields, which come from the configuration and the request.
  unfoldable pub new_context :
      List (String × DomainMap N W (DomainRuleTreeNode N W V))
      → N
      → ServerOpts
      → DnsContext
      → DnsContext
  new_context groups name server_opts config =
      let group_name = unwrap_or server_opts.rule_group "" in
      let domain_rule = find_domain_rule H groups name group_name in
      record config {
        no_cache = unwrap_or (get_of_option (λ n. (node_rule n).no_cache) domain_rule) false;
        server_group_name = resolve_server_group_name server_opts.group domain_rule;
        no_serve_expired = get_of_option (λ n. (node_rule n).no_serve_expired) domain_rule;
        rule_ttl_min = get_of_option (λ n. (node_rule n).rr_ttl_min) domain_rule;
        rule_ttl_max = get_of_option (λ n. (node_rule n).rr_ttl_max) domain_rule;
      }

  -- Every group has merged rules only.
  abbrev pub IsMergedGroups : List (String × DomainMap N W (DomainRuleTreeNode N W V)) → Type 0
  IsMergedGroups groups =
      All (λ (g : String × DomainMap N W (DomainRuleTreeNode N W V)). IsMergedMap H g.1) groups

  get_group-IsMerged :
      (name : String) (groups : List (String × DomainMap N W (DomainRuleTreeNode N W V)))
      → IsMergedGroups groups
      → IsMergedMap H (unwrap_or (get_group H name groups) empty_map)
  unfolding get_group get
  get_group-IsMerged name [] h = λ k node found. absurd (cc found)
  get_group-IsMerged name ((key, rules) ∷ groups) (p, h) =
      let rest = get_group-IsMerged name groups h in
      elim (Bool-cases (key =s= name)) [ inl same ↦ rw same p | inr other ↦ rw other rest ]

  find_domain_rule-IsMerged :
      (groups : List (String × DomainMap N W (DomainRuleTreeNode N W V))) (name : N)
      (group : String) (node : DomainRuleTreeNode N W V)
      → IsMergedGroups groups
      → find_domain_rule H groups name group ≡ some node
      → IsMerged (node_rule node)
  unfolding find_domain_rule domain_rule_group
  find_domain_rule-IsMerged groups name group node merged found =
      let of_group = λ (g : String) (h : find H (domain_rule_group H groups g) name ≡ some node).
        let (k, stored) = find-IsValue H (domain_rule_group H groups g) name node h in
        get_group-IsMerged (if is_empty g then "default" else g) groups merged k node stored in
      elim (or_else-some _ _ node found) [
        | inl own ↦ of_group group own
        | inr (absent, fallback) ↦ of_group "default" fallback
      ]

  -- The limits of a rule are the same, so that all TTLs are.
  rule_ttl-same :
      (groups : List (String × DomainMap N W (DomainRuleTreeNode N W V))) (name : N)
      (opts : ServerOpts) (config : DnsContext)
      → IsMergedGroups groups
      → let ctx = new_context groups name opts config in ctx.rule_ttl_max ≡ ctx.rule_ttl_min
  unfolding new_context get_of_option
  rule_ttl-same groups name opts config merged =
      let group = unwrap_or opts.rule_group "" in
      let rule = find_domain_rule H groups name group in
      elim (Option-cases rule) [
        | inl absent ↦ rw absent refl
        | inr (node, found) ↦
            rw found (find_domain_rule-IsMerged groups name group node merged found).0
      ]

clamp-All :
    {N D : Type 0} (n : ℕ) (rs : List (Record N D))
    → All (λ (r : Record N D). r.ttl ≡ n) (clamp_ttl_bounds (some n) (some n) rs)
unfolding clamp_ttl_bounds
clamp-All n [] = tt
clamp-All n (r ∷ rs) = (ground arith, clamp-All n rs)

module _ {N L W : Type 0} (H : Names N L W) {V : Type 0} where
  -- Where the groups hold rules such as create stores and the rule of a name has a lower limit of
  -- TTLs, the limits that the request hands to the cache give every record of an answer just that
  -- TTL.
  pub rule_ttl-All :
      {P D : Type 0} (groups : List (String × DomainMap N W (DomainRuleTreeNode N W V))) (name : N)
      (opts : ServerOpts) (config : DnsContext) (n : ℕ) (rs : List (Record P D))
      → IsMergedGroups H groups
      → (new_context H groups name opts config).rule_ttl_min ≡ some n
      → let bounds = rr_ttl_bounds (new_context H groups name opts config) in
        All (λ (r : Record P D). r.ttl ≡ as_u32 n) (clamp_ttl_bounds bounds.0 bounds.1 rs)
  rule_ttl-All groups name opts config n rs merged least =
      let most = rule_ttl-same H groups name opts config merged ∙ least in
      rw (least, most) (clamp-All (as_u32 n) rs)
