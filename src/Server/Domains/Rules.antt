-- ===== src/Server/Domains/Rules.antt =====
-- src/config/domain_rule.rs: what is configured for a domain, and how a later rule adds to an
-- earlier one; and the collection of the rules by name in `DomainRuleMap::create` of
-- src/dns_rule.rs. `V` are the values of settings that the rules only carry; TTLs have 64 bits.
use smartdns_rs.Prelude.{Bool, List, Option, [], if◌then◌else◌, none, some, ℕ, ◌++◌, ◌=s=◌, ◌∷◌}
use Prim.Native.String.{String}
use smartdns_rs.Server.QueryLog.{unwrap_or}
use smartdns_rs.Server.Domains.{Names, WildcardName, same_rule}
use smartdns_rs.Server.Domains.Map.{or_else}

pub record DomainRule (V : Type 0) : Type 0 where
  pub nameserver : Option String
  pub address : Option V
  pub cname : Option V
  pub srv : Option (List V)
  pub https : Option V
  pub txt : Option (List String)
  pub speed_check_mode : Option V
  pub dualstack_ip_selection : Option Bool
  pub response_mode : Option V
  pub no_cache : Option Bool
  pub no_serve_expired : Option Bool
  pub nftset : Option V
  pub ipsets : Option (List String)
  pub rr_ttl : Option ℕ
  pub rr_ttl_min : Option ℕ
  pub rr_ttl_max : Option ℕ
  pub subnet : Option V

-- `/domain/` or `domain-set:name`
pub data Domain (N W : Type 0) : Type 0 where
  one_name : WildcardName N W → Domain N W
  domain_set : String → Domain N W

-- A setting and what it is for; also an address rule and a forward rule.
pub record ConfigForDomain (N W C : Type 0) : Type 0 where
  pub domain : Domain N W
  pub config : C

module _ {V : Type 0} where
  -- `DomainRule::default()`
  abbrev pub no_rule : DomainRule V
  no_rule = record {
    nameserver = none;
    address = none;
    cname = none;
    srv = none;
    https = none;
    txt = none;
    speed_check_mode = none;
    dualstack_ip_selection = none;
    response_mode = none;
    no_cache = none;
    no_serve_expired = none;
    nftset = none;
    ipsets = none;
    rr_ttl = none;
    rr_ttl_min = none;
    rr_ttl_max = none;
    subnet = none;
  }

  unfoldable pub add_assign : DomainRule V → DomainRule V → DomainRule V
  add_assign rule rhs = record rule {
    nameserver = or_else rhs.nameserver rule.nameserver;
    address = or_else rhs.address rule.address;
    speed_check_mode = or_else rhs.speed_check_mode rule.speed_check_mode;
    dualstack_ip_selection = or_else rhs.dualstack_ip_selection rule.dualstack_ip_selection;
    no_cache = or_else rhs.no_cache rule.no_cache;
    no_serve_expired = or_else rhs.no_serve_expired rule.no_serve_expired;
    rr_ttl = or_else rhs.rr_ttl rule.rr_ttl;
    rr_ttl_min = or_else rhs.rr_ttl_min rule.rr_ttl_min;
    rr_ttl_max = or_else rhs.rr_ttl_min rule.rr_ttl_max;
  }

  -- The bodies of the loops of `create`, on the entry of a name.
  abbrev pub set_address : V → DomainRule V → DomainRule V
  set_address v rule = record rule { address = some v }

  abbrev pub set_nameserver : String → DomainRule V → DomainRule V
  set_nameserver s rule = record rule { nameserver = some s }

  abbrev pub set_cname : V → DomainRule V → DomainRule V
  set_cname v rule = record rule { cname = some v }

  abbrev pub push_srv : V → DomainRule V → DomainRule V
  push_srv v rule = record rule { srv = some (unwrap_or rule.srv [] ++ v ∷ []) }

  abbrev pub set_https : V → DomainRule V → DomainRule V
  set_https v rule = record rule { https = some v }

  abbrev pub push_ipset : String → DomainRule V → DomainRule V
  push_ipset s rule = record rule { ipsets = some (unwrap_or rule.ipsets [] ++ s ∷ []) }

  abbrev pub push_txt : String → DomainRule V → DomainRule V
  push_txt s rule = record rule { txt = some (unwrap_or rule.txt [] ++ s ∷ []) }

  abbrev pub set_nftset : V → DomainRule V → DomainRule V
  set_nftset v rule = record rule { nftset = some v }

-- What `create` is given for a group, and the sets of names, each in the order of its iteration.
pub record RuleSources (N W V : Type 0) : Type 0 where
  pub domain_rules : List (ConfigForDomain N W (DomainRule V))
  pub address_rules : List (ConfigForDomain N W V)
  pub forward_rules : List (ConfigForDomain N W String)
  pub domain_sets : List (String × List (WildcardName N W))
  pub cnames : List (ConfigForDomain N W V)
  pub srv_records : List (ConfigForDomain N W V)
  pub https_records : List (ConfigForDomain N W V)
  pub txt_records : List (ConfigForDomain N W String)
  pub ipset_rules : List (ConfigForDomain N W String)
  pub nftsets : List (ConfigForDomain N W V)

module _ {N W : Type 0} where
  -- `domain_sets.get(s)`
  unfoldable pub get_set :
      String → List (String × List (WildcardName N W)) → Option (List (WildcardName N W))
  get_set s [] = none
  get_set s ((key, names) ∷ sets) = if key =s= s then some names else get_set s sets

  unfoldable pub expand_domain :
      List (String × List (WildcardName N W)) → Domain N W → List (WildcardName N W)
  expand_domain sets (one_name name) = name ∷ []
  expand_domain sets (domain_set s) = unwrap_or (get_set s sets) []

module _ {N L W : Type 0} (H : Names N L W) {V : Type 0} where
  -- `entry(name).or_default()`, changed by `f`.
  unfoldable pub on_entry :
      (DomainRule V → DomainRule V)
      → WildcardName N W
      → List (WildcardName N W × DomainRule V)
      → List (WildcardName N W × DomainRule V)
  on_entry f name [] = (name, f no_rule) ∷ []
  on_entry f name ((n, rule) ∷ es) =
      if same_rule H n name then (n, f rule) ∷ es else (n, rule) ∷ on_entry f name es

  unfoldable pub on_entries :
      (DomainRule V → DomainRule V)
      → List (WildcardName N W)
      → List (WildcardName N W × DomainRule V)
      → List (WildcardName N W × DomainRule V)
  on_entries f [] es = es
  on_entries f (name ∷ names) es = on_entries f names (on_entry f name es)

  -- A loop over the rules of one kind.
  unfoldable pub append_rules :
      {C : Type 0}
      → (C → DomainRule V → DomainRule V)
      → List (String × List (WildcardName N W))
      → List (ConfigForDomain N W C)
      → List (WildcardName N W × DomainRule V)
      → List (WildcardName N W × DomainRule V)
  append_rules f sets [] es = es
  append_rules f sets (rule ∷ rules) es =
      append_rules f sets rules (on_entries (f rule.config) (expand_domain sets rule.domain) es)

  -- `name_rule_map` after the nine loops.
  unfoldable pub name_rule_map : RuleSources N W V → List (WildcardName N W × DomainRule V)
  name_rule_map src =
      let sets = src.domain_sets in
      let rules = append_rules (λ c rule. add_assign rule c) sets src.domain_rules [] in
      let addressed = append_rules set_address sets src.address_rules rules in
      let forwarded = append_rules set_nameserver sets src.forward_rules addressed in
      let named = append_rules set_cname sets src.cnames forwarded in
      let served = append_rules push_srv sets src.srv_records named in
      let secured = append_rules set_https sets src.https_records served in
      let listed = append_rules push_ipset sets src.ipset_rules secured in
      let noted = append_rules push_txt sets src.txt_records listed in
      append_rules set_nftset sets src.nftsets noted
