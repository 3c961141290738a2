-- ===== src/Server/Replies.antt =====
-- src/dns_mw_addr.rs: `AddressMiddleware`, which answers from the address rules of a name, and cuts
-- and clips what the other middlewares answer. IP addresses are numbers; the crate's record data and
-- the types that it has are the parameter `RDatas`.
pub mod Reply
pub mod Counts
pub mod Laws
use smartdns_rs.Prelude.{
  Bool, List, Option, [], any, if◌then◌else◌, map, none, not, some, ℕ, ◌&&◌, ◌==◌, ◌||◌, ◌∷◌,
}
use smartdns_rs.Server.QueryLog.{unwrap_or}
use smartdns_rs.Server.Dns.{
  DnsResponse, Query, Record, as_u32, from_secs, is_ip_addr, mark_from_cache, new_with_deadline,
  rr_a, rr_aaaa, clip_max, with_name_server_group,
}
use smartdns_rs.Server.DnsCache.Policy.{DnsError, clamp_ttl_bounds}
use smartdns_rs.Server.Domains.Map.{is_some}
use smartdns_rs.Server.Domains.Nodes.{DomainRuleTreeNode, top_node, zone_node}
use smartdns_rs.Server.Domains.Rules.{DomainRule}

pub data AddressRuleValue : Type 0 where
  soa soa_v4 soa_v6 ign ign_v4 ign_v6 : AddressRuleValue
  addr : Option (List ℕ) → Option (List ℕ) → AddressRuleValue

pub record RDatas (D : Type 0) : Type 0 where
  pub a : ℕ → D
  pub aaaa : ℕ → D
  pub to_ipv6_mapped : ℕ → ℕ
  pub default_soa : D
  pub record_type : D → ℕ

abbrev rr_https : ℕ
rr_https = 65

-- What the middleware reads of the context, the options of the server and the configuration. The
-- settings of a rule are `AddressRuleValue`s here, since no other is read.
pub record AddressContext (N W : Type 0) : Type 0 where
  pub domain_rule : Option (DomainRuleTreeNode N W AddressRuleValue)
  pub no_rule_soa : Bool
  pub no_rule_addr : Bool
  pub server_force_aaaa_soa : Bool
  pub server_force_https_soa : Bool
  pub force_aaaa_soa : Bool
  pub force_https_soa : Bool
  pub force_qtype_soa : List ℕ
  pub local_ttl : ℕ
  pub max_reply_ip_num : Option ℕ
  pub ttl_bounds : Option ℕ × Option ℕ
  pub rr_ttl_reply_max : Option ℕ

-- What a rule says: the end of the search with its result, or on to the zone above.
pub data Step (D : Type 0) : Type 0 where
  decided : Option (List D) → Step D
  go_on : Step D

module _ {D : Type 0} (rd : RDatas D) where
  abbrev pub soa_unless : Bool → Step D
  soa_unless no_rule_soa = if no_rule_soa then go_on else decided (some (rd.default_soa ∷ []))

  unfoldable pub answer_a : Option (List ℕ) → Bool → Step D
  answer_a (some v4) no_rule_soa = decided (some (map rd.a v4))
  answer_a none no_rule_soa = soa_unless no_rule_soa

  unfoldable pub answer_aaaa : Option (List ℕ) → Option (List ℕ) → Bool → Step D
  answer_aaaa v4 (some v6) no_rule_soa = decided (some (map rd.aaaa v6))
  answer_aaaa (some v4) none no_rule_soa =
      decided (some (map (λ ip. rd.aaaa (rd.to_ipv6_mapped ip)) v4))
  answer_aaaa none none no_rule_soa = soa_unless no_rule_soa

  -- The body of the loop for a rule with an address.
  unfoldable pub address_step : AddressRuleValue → ℕ → Bool → Step D
  address_step (addr v4 v6) query_type no_rule_soa =
      if query_type == rr_a
      then answer_a v4 no_rule_soa
      else if query_type == rr_aaaa
      then answer_aaaa v4 v6 no_rule_soa
      else decided none
  address_step soa query_type no_rule_soa = soa_unless no_rule_soa
  address_step soa_v4 query_type no_rule_soa =
      if query_type == rr_a then soa_unless no_rule_soa else go_on
  address_step soa_v6 query_type no_rule_soa =
      if query_type == rr_aaaa then soa_unless no_rule_soa else go_on
  address_step ign query_type no_rule_soa = decided none
  address_step ign_v4 query_type no_rule_soa = if query_type == rr_a then decided none else go_on
  address_step ign_v6 query_type no_rule_soa = if query_type == rr_aaaa then decided none else go_on

  unfoldable pub rule_step : DomainRule AddressRuleValue → ℕ → Bool → Step D
  rule_step rule query_type no_rule_soa = step_of rule.address
    where
      step_of : Option AddressRuleValue → Step D
      step_of none = go_on
      step_of (some address) = address_step address query_type no_rule_soa

  abbrev pub or_up : Step D → Option (List D) → Option (List D)
  or_up (decided found) up = found
  or_up go_on up = up

  module _ {N W : Type 0} where
    -- The loop from a node up.
    unfoldable pub walk_addresses :
        DomainRuleTreeNode N W AddressRuleValue → ℕ → Bool → Option (List D)
    walk_addresses (top_node name rule) query_type no_rule_soa =
        or_up (rule_step rule query_type no_rule_soa) none
    walk_addresses (zone_node name rule z) query_type no_rule_soa =
        or_up (rule_step rule query_type no_rule_soa) (walk_addresses z query_type no_rule_soa)

    abbrev pub is_forced : AddressContext N W → ℕ → Bool
    is_forced ctx query_type =
        query_type == rr_aaaa && (ctx.server_force_aaaa_soa || ctx.force_aaaa_soa)
        || (query_type == rr_https && (ctx.server_force_https_soa || ctx.force_https_soa)
            || any (λ t. t == query_type) ctx.force_qtype_soa)

    abbrev pub from_rule :
        Option (DomainRuleTreeNode N W AddressRuleValue) → ℕ → Bool → Option (List D)
    from_rule none query_type no_rule_soa = none
    from_rule (some node) query_type no_rule_soa = walk_addresses node query_type no_rule_soa

    unfoldable pub handle_rule_addr : ℕ → AddressContext N W → Option (List D)
    handle_rule_addr query_type ctx =
        if not ctx.no_rule_soa && is_forced ctx query_type
        then some (rd.default_soa ∷ [])
        else if ctx.no_rule_addr || not (is_ip_addr query_type)
        then none
        else from_rule ctx.domain_rule query_type ctx.no_rule_soa
