-- ===== src/Server.antt =====
-- The server behind the console's REST API: the query log and its rankings, the cache listing and
-- the DNS cache itself, the statistics and their history, the upstream servers, the request
-- dispatcher and the managed address rules.
pub mod Audit
pub mod QueryLog
pub mod Caches
pub mod Addresses
pub mod Dispatch
pub mod Ranking
pub mod Stats
pub mod Nameservers
pub mod Dns
pub mod DnsCache
pub mod Domains
pub mod Replies
