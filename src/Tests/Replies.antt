-- ===== src/Tests/Replies.antt =====
-- Concrete inputs for the theorems on the address middleware, and runs of its definitions.
use smartdns_rs.Prelude.{All, [], arith, false, inr, none, refl, some, ℕ, ◌+◌, ◌∷◌, ◌≡◌, ◌≤◌}
use smartdns_rs.Server.Dns.{
  DnsResponse, Query, Record, as_u32, new_with_deadline, no_error, nx_domain,
}
use smartdns_rs.Server.Domains.{default_rule, full}
use smartdns_rs.Server.Domains.Rules.{no_rule}
use smartdns_rs.Server.Domains.Nodes.{DomainRuleTreeNode, top_node, zone_node}
use smartdns_rs.Server.Replies.{
  AddressContext, AddressRuleValue, RDatas, addr, address_step, answer_a, answer_aaaa,
  handle_rule_addr, ign_v4, rule_step, walk_addresses,
}
use smartdns_rs.Server.Replies.Reply.{handle}
use smartdns_rs.Server.Replies.Counts.{count_ips}
use smartdns_rs.Server.Replies.Laws.{handle-limits, handle-bounds}

-- Data are a type and a number.
abbrev datas : RDatas (ℕ × ℕ)
datas = record {
  a = λ ip. (1, ip);
  aaaa = λ ip. (28, ip);
  to_ipv6_mapped = λ ip. ip + 1000;
  default_soa = (6, 0);
  record_type = λ d. d.0;
}

abbrev plain : AddressContext ℕ ℕ
plain = record {
  domain_rule = none;
  no_rule_soa = false;
  no_rule_addr = false;
  server_force_aaaa_soa = false;
  server_force_https_soa = false;
  force_aaaa_soa = false;
  force_https_soa = false;
  force_qtype_soa = [];
  local_ttl = 10;
  max_reply_ip_num = some 1;
  ttl_bounds = (none, none);
  rr_ttl_reply_max = some 60;
}

-- `address /www/-4` below `address /example/1,2`.
abbrev two_nodes : DomainRuleTreeNode ℕ ℕ AddressRuleValue
two_nodes =
    zone_node (full 3) (record no_rule { address = some ign_v4 })
      (top_node (default_rule 5)
        (record no_rule { address = some (addr (some (1 ∷ 2 ∷ [])) none) }))

abbrev asked_for : ℕ → Query ℕ
asked_for t = record { name = 3; query_type = t; query_class = 1 }

abbrev ip_record : ℕ → Record ℕ (ℕ × ℕ)
ip_record ip = record { name = 3; record_type = 1; dns_class = 1; ttl = 300; rdata = (1, ip) }

abbrev two_ips : DnsResponse ℕ (ℕ × ℕ)
two_ips = new_with_deadline (asked_for 1) (ip_record 7 ∷ ip_record 8 ∷ []) 1000

abbrev missing_name : DnsResponse ℕ (ℕ × ℕ)
missing_name = record (new_with_deadline (asked_for 1) [] 1000) { response_code = nx_domain }

-- The rule that ignores A leaves AAAA to the zone above, whose addresses are mapped.
rule_run :
    (handle_rule_addr datas 1 (record plain { domain_rule = some two_nodes }) ≡ none)
    × (handle_rule_addr datas 28 (record plain { domain_rule = some two_nodes })
        ≡ some ((28, 1001) ∷ (28, 1002) ∷ []))
unfolding handle_rule_addr walk_addresses rule_step address_step answer_a answer_aaaa
rule_run = (refl, refl)

no_address : handle_rule_addr datas 1 plain ≡ none
unfolding handle_rule_addr
no_address = refl

handle-bounds_example :
    (res : DnsResponse ℕ (ℕ × ℕ)) × (handle datas plain (asked_for 1) 0 (inr two_ips)
      ≡ (inr res, false))
    × (count_ips res.answers ≤ 1)
    × All (λ (r : Record ℕ (ℕ × ℕ)). r.ttl ≤ as_u32 60) res.answers
handle-bounds_example =
    handle-bounds datas plain (asked_for 1) 0 1 60 two_ips no_address refl (omega arith) refl refl

handle-limits_example :
    (res : DnsResponse ℕ (ℕ × ℕ)) × (handle datas plain (asked_for 1) 0 (inr missing_name)
      ≡ (inr res, false))
    × (res.response_code ≡ no_error)
    × (res.authorities ≡ [])
    × (res.query ≡ asked_for 1)
    × (res.valid_until ≡ missing_name.valid_until)
    × (res.from_cache ≡ missing_name.from_cache)
    × (res.name_server_group ≡ missing_name.name_server_group)
unfolding new_with_deadline
handle-limits_example = handle-limits datas plain (asked_for 1) 0 missing_name no_address refl
