-- ===== src/Server/DnsCache.antt =====
-- The cache of src/dns_mw_cache.rs: its entries and parameters, its operations, the handler of the
-- middleware, and what holds of them.
pub mod Lru
pub mod Entry
pub mod Host
pub mod Budget
pub mod Store
pub mod Access
pub mod Bytes
pub mod Eviction
pub mod BudgetLaws
pub mod Capacity
pub mod Prefetch
pub mod Invariant
pub mod Reach
pub mod Limits
pub mod Named
pub mod Lookup
pub mod Flags
pub mod Once
pub mod Waiting
pub mod Asked
pub mod Policy
pub mod Handle
pub mod Answers
pub mod Negative
