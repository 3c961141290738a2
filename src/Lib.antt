-- ===== src/Lib.antt =====
-- smartdns-rs is a DNS server with a web console. The console (webui/src) is a React application
-- that calls the server's REST API (src/api); behind that API stand the query log that the audit
-- middleware writes (src/dns_mw_audit.rs), the DNS cache (src/dns_mw_cache.rs), the managed file
-- of address rules, and the dispatcher of src/app.rs that takes incoming queries in batches. The
-- domain rules of the configuration (src/dns_rule.rs) say what holds for the names of a request.
-- This library models the console and those parts of the server, and what holds of them
-- together.
--
-- Web, the console:
--   Web/Cache.antt, Web/Rules.antt, Web/QueryLog.antt, with the modules below them, are the tabs of
--   webui/src/app/dashboard/page.tsx: `CacheTab`, `AddressRulesTab`, `ForwardRulesTab`, `RulesTab`
--   and `QueryLogTab`. Web/Overview.antt and Web/Upstream.antt are `OverviewTab` and `UpstreamTab`,
--   which have no state; Web/Cards.antt is the head of the former. A component is a record of its `useState` values, a data type of messages,
--   one for each handler and each callback of a mutation, an `update` from a state and a message to
--   the next state and the mutations that it starts, and a `view` from the state and the results
--   of its queries to the elements shown. Elements are trees (Web/View.antt) whose handlers are
--   messages; styling is left out. Web/Parts.antt holds the pieces that the tabs repeat.
--   Web/Layout.antt is webui/src/app/dashboard/layout.tsx and `DashboardPage`.
--   Web/Api.antt, Web/Api/Client.antt and Web/Api/Hooks.antt are webui/src/lib/api.ts: the
--   responses, `apiGet`, `apiPost` and `apiDelete`, and each hook as its query key, path, refresh
--   interval or, for a mutation, request and invalidated keys.
--   Web/Format.antt is webui/src/lib/utils.ts and `formatQueryType`.
--   What the JavaScript runtime supplies (fractional numbers, their printing, dates, Unicode case,
--   JSON.stringify) is the record `Runtime` of Web/Runtime.antt, a parameter.
--
-- Server, the code behind the API:
--   Server/Audit.antt: the query log of src/dns_mw_audit.rs, a list with its oldest entry first.
--   Server/QueryLog.antt: src/api/query_log.rs. Server/Caches.antt: src/api/cache.rs and the
--   payload of src/api/mod.rs. Server/Ranking.antt: the rankings of src/api/stats.rs;
--   Server/Stats.antt: its handler `stats`, with the averages and the history of src/app.rs.
--   Server/Nameservers.antt: src/api/nameserver.rs.
--   Server/Addresses.antt: src/api/address.rs over the managed file as the lines that the parser
--   read. Whether the directory is configured, how the write of the file ends (it completes, the
--   file cannot be opened, or it breaks off and leaves another file) and whether the reload
--   succeeds is an argument of every call; what written lines read as is a parameter.
--   Server/Dispatch.antt: the loop of `serve` in src/app.rs, one `receive` for each batch; the
--   answers and ends of the spawned tasks are further steps of Server/Dispatch/Tasks.antt, in any
--   order.
--   Server/DnsCache.antt and the modules below it: the cache of src/dns_mw_cache.rs. Entry.antt is
--   `DnsCacheEntry`, Store.antt the state `DnsCache` with `new` and what the two insertions share,
--   Budget.antt the count of bytes and the eviction, Access.antt the insertions, `get`, `load_from`
--   and `clear`, Prefetch.antt `get_expired`, Policy.antt what is stored and for how long, and
--   Handle.antt the middleware's `handle`. A lock is held from the start to the end of the block
--   that takes it, and the blocks of one operation follow each other; what other requests do
--   while the upstreams are asked is part of what `handle` is given as the rest of the chain.
--   The crate `lru` is the record of Lru.antt, whose laws are its documentation; the hash of a
--   query, the comparison and length of a name and the sizes of structs are in Host.antt.
--   Server/Dns.antt holds the fields of responses and records that the cache reads (src/dns.rs,
--   src/libdns/mod.rs).
--   Server/Domains.antt and the modules below it: the domain rules. Domains.antt is `WildcardName`
--   of src/config/domain.rs and what the crates' names, labels and wildcards do, a parameter with
--   laws; names are taken in lower case. Map.antt is `DomainMap` of src/collections.rs, Rules.antt
--   `DomainRule` with its `add_assign` (src/config/domain_rule.rs) and the nine loops of
--   `DomainRuleMap::create`, Nodes.antt the rest of src/dns_rule.rs with `create`, the getters and
--   the groups of src/dns_conf.rs, and Context.antt `DnsContext::new` of src/dns.rs, in the fields
--   that Server/DnsCache/Policy.antt reads. A `HashMap` keyed by a hash is a list of entries; that
--   no two rules in use share a hash is a hypothesis where it is needed.
--   Server/Replies.antt is the address rules of src/dns_mw_addr.rs and Server/Replies/Reply.antt the
--   middleware's `handle`, which is given the answer of the rest of the chain.
--
-- The two sides meet in Web/Cache/Paging.antt (the pages of the cache tab against the listing),
-- Web/Upstream/Laws.antt and Web/Overview/Laws.antt (totals and chart against the statistics),
-- Web/Rules/Address/Submit.antt and Withdraw.antt beside it (form and list against the managed
-- file) and Web/QueryLog/Laws.antt (the filters of the tab against those of the server).
--
-- Numbers: counters and `usize` have 64 bits and wrap around, written out as `% 2 ^ 64`; page
-- numbers and counts of the console are natural numbers, which are exact up to 2 ^ 53; the totals of
-- the upstream tab are rounded after each addition. Every function is structural but three,
-- which run on fuel: the printing of a number, on one step more than its value; the eviction loop
-- of the cache, on one step more than there are entries, which is enough since a round that goes on
-- removes one; and the lookup of a domain rule, on two steps for each label and two more, which is
-- enough since a step on a qualified name goes on to the name above it. Instants and durations are
-- nanoseconds without a bound. Floats and the order in which a hash map yields its entries are
-- parameters, and so are case mapping, the comparison of domains and the reading of a rule's text.
--
-- Not modelled: the DNS middlewares other than the audit log, the cache and the address rules, the
-- format of the cache's file and its background tasks (saving, scanning the heap, the channel of
-- prefetch tasks), the configuration parser with the reading of rule files, upstream clients,
-- listeners and TLS, logging and the platform bindings; the data layer of the console, of which
-- only the results are used; and the styling of its elements. `DomainSet` only wraps a `DomainMap`
-- and has no definition. `PUT /addresses` of the server does nothing and has no definition.
pub mod Prelude
pub mod Server
pub mod Web
pub mod Tests
