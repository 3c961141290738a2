-- ===== src/Server/QueryLog.antt =====
-- src/api/query_log.rs: the listing of the query log, newest first, filtered and paged.
pub mod Laws
use smartdns_rs.Prelude.{
  ℕ, Bool, true, false, ◌&&◌, ◌||◌, not, Option, none, some, List, String, CaseMap, length, take,
  drop, keep_if, reverse, includes, ◌=s=◌, leb, min, max,
}
use smartdns_rs.Server.Audit.{QueryLogEntry}

pub record QueryLogList (F : Type 0) : Type 0 where
  pub total : ℕ
  pub entries : List (QueryLogEntry F)

pub record QueryLogParams : Type 0 where
  pub limit : Option ℕ
  pub offset : Option ℕ
  pub domain : Option String
  pub client : Option String
  pub qtype : Option String

-- `unwrap_or`.
abbrev pub unwrap_or {ℓ} : {A : Type ℓ} → Option A → A → A
unwrap_or none d = d
unwrap_or (some a) d = a

-- `n.clamp(lo, hi)`.
abbrev pub clamp : ℕ → ℕ → ℕ → ℕ
clamp n lo hi = min hi (max lo n)

-- A filter that is absent lets everything through.
abbrev pub allows : (String → Bool) → Option String → Bool
allows test none = true
allows test (some s) = test s

module _ (cm : CaseMap) {F : Type 0} where
  open cm use {to_lower, to_upper}

  -- The closure given to `filter`.
  unfoldable pub matches : QueryLogParams → QueryLogEntry F → Bool
  matches params e =
      allows (λ d. includes (to_lower e.domain) (to_lower d)) params.domain
      && allows (λ c. includes (to_lower e.client) (to_lower c)) params.client
      && allows (λ t. to_upper e.query_type =s= to_upper t) params.qtype

  unfoldable pub query_log : List (QueryLogEntry F) → QueryLogParams → QueryLogList F
  query_log ring params =
      let entries = keep_if (matches params) (reverse ring) in
      let offset = unwrap_or params.offset 0 in
      let limit = clamp (unwrap_or params.limit 100) 1 1000 in
      record { total = length entries; entries = take limit (drop offset entries) }
