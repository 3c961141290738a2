-- ===== src/Tests.antt =====
-- Concrete inputs for the theorems, and runs of the definitions.
mod Server
mod Web
mod Names
mod Order
mod Domains
mod Rules
mod Groups
mod Replies
mod Dispatch
mod Stats
mod Overview
mod Caching
mod Handling
mod Prefetching
