-- ===== src/Server/Audit.antt =====
-- src/dns_mw_audit.rs: the middleware that writes each answered query to the in-memory query log
-- and offers it to the bounded audit channel.
pub mod Window
use smartdns_rs.Prelude.{
  Bool, List, Option, String, [], drop, false, if◌then◌else◌, length, ltb, not, true, ℕ, ◌&&◌, ◌++◌,
  ◌||◌, ◌∷◌,
}

-- The number of entries that the log keeps.
abbrev pub query_log_max : ℕ
query_log_max = 1000

-- `f64` is the parameter `F`; a time is its serialised text.
pub record QueryLogEntry (F : Type 0) : Type 0 where
  pub time : String
  pub client : String
  pub domain : String
  pub query_type : String
  pub elapsed_ms : F
  pub result : String
  pub speed_ms : Option F
  pub source : String

-- The record types that `is_soa_only` tells apart.
pub data RecordType : Type 0 where
  soa a aaaa other : RecordType

-- What the rest of the chain returned.
pub data Response : Type 0 where
  answered : List RecordType → Response
  failed : Response

abbrev is_soa : RecordType → Bool
is_soa soa = true
is_soa _ = false

abbrev is_ip : RecordType → Bool
is_ip a = true
is_ip aaaa = true
is_ip _ = false

-- The loop of `is_soa_only`, with its two flags.
unfoldable pub scan_soa : Bool → Bool → List RecordType → Bool
scan_soa has_soa has_ip [] = has_soa && not has_ip
scan_soa has_soa has_ip (r ∷ rs) = scan_soa (is_soa r || has_soa) (is_ip r || has_ip) rs

unfoldable pub is_soa_only : Response → Bool
unfolding scan_soa
is_soa_only failed = false
is_soa_only (answered rs) = scan_soa false false rs

module _ {F : Type 0} where
  -- `push_back`, then `pop_front` if the log is too long.
  unfoldable pub push_entry : List (QueryLogEntry F) → QueryLogEntry F → List (QueryLogEntry F)
  push_entry ring entry =
      let q = ring ++ entry ∷ [] in if ltb query_log_max (length q) then drop 1 q else q

-- One request that has run through the chain: its response, and its entry.
pub record Handled (F : Type 0) : Type 0 where
  pub response : Response
  pub entry : QueryLogEntry F

module _ {F : Type 0} where
  -- The log after `DnsAuditMiddleware::handle`: a SOA-only answer is skipped unless `audit_soa`.
  unfoldable pub handle : Bool → List (QueryLogEntry F) → Handled F → List (QueryLogEntry F)
  handle audit_soa ring done =
      if not audit_soa && is_soa_only done.response then ring else push_entry ring done.entry

  -- The requests in the order in which they are answered.
  unfoldable pub serve : Bool → List (QueryLogEntry F) → List (Handled F) → List (QueryLogEntry F)
  serve audit_soa ring [] = ring
  serve audit_soa ring (h ∷ hs) = serve audit_soa (handle audit_soa ring h) hs
