-- ===== src/Web/Api.antt =====
-- webui/src/lib/api.ts: the responses of the REST API, and the client that fetches them.
pub mod Client
pub mod Hooks
use smartdns_rs.Prelude.{Bool, List, Option, ℕ}
use Prim.Native.String.{String}
use smartdns_rs.Web.Runtime.{Json}

pub record StatsSnapshot : Type 0 where
  pub timestamp : ℕ
  pub total_queries : ℕ
  pub cache_hits : ℕ

-- `N` stands for the fractional numbers.
pub record StatsResponse (N : Type 0) : Type 0 where
  pub uptime_secs : ℕ
  pub active_queries : ℕ
  pub cache_size : ℕ
  pub cache_hits : ℕ
  pub cache_query_hits : ℕ
  pub total_queries : ℕ
  pub bg_total_queries : ℕ
  pub cache_hit_rate : N
  pub avg_query_time_ms : N
  pub cache_hit_avg_query_time_ms : N
  pub cache_miss_avg_query_time_ms : N
  pub cache_hit_queries : ℕ
  pub cache_miss_queries : ℕ
  pub bg_avg_query_time_ms : N
  pub version : String
  pub history : List StatsSnapshot

pub record CacheEntry : Type 0 where
  pub name : String
  pub hits : ℕ
  pub last_access : String
  pub query_type : Json
  pub records : List Json

pub record CachesResponse : Type 0 where
  pub count : ℕ
  pub total : ℕ
  pub items : List CacheEntry

-- The fields that the console reads of a response with more of them.
pub record CacheConfigResponse : Type 0 where
  pub size : ℕ
  pub serve_expired : Bool

pub record UpstreamServer (N : Type 0) : Type 0 where
  pub name : Option String
  pub server : String
  pub group : List String
  pub protocol : String
  pub security : String
  pub ip : String
  pub port : ℕ
  pub status : String
  pub query_total : ℕ
  pub success_total : ℕ
  pub failure_total : ℕ
  pub avg_time_ms : N
  pub success_rate : N

pub record NameserversResponse (N : Type 0) : Type 0 where
  pub count : ℕ
  pub total : ℕ
  pub items : List (UpstreamServer N)

pub record Listener : Type 0 where
  pub addr : String
  pub port : ℕ
  pub protocol : String

pub record ListenersResponse : Type 0 where
  pub count : ℕ
  pub items : List Listener

pub record QueryLogEntry (N : Type 0) : Type 0 where
  pub time : String
  pub client : String
  pub domain : String
  pub query_type : String
  pub elapsed_ms : N
  pub result : String
  pub speed_ms : Option N
  pub source : String

pub record QueryLogResponse (N : Type 0) : Type 0 where
  pub total : ℕ
  pub items : List (QueryLogEntry N)

pub record NameCount (N : Type 0) : Type 0 where
  pub name : String
  pub count : ℕ
  pub avg_time_ms : N

pub record AddressEntry : Type 0 where
  pub domain : String
  pub address : String

pub record AddressesResponse : Type 0 where
  pub count : ℕ
  pub items : List AddressEntry

pub record ForwardEntry : Type 0 where
  pub name : String
  pub count : ℕ
  pub forwards : List Json

pub record ForwardsResponse : Type 0 where
  pub count : ℕ
  pub items : List ForwardEntry

pub record ConfigResponse : Type 0 where
  pub server_name : String
  pub conf_dir : String

pub record VersionResponse : Type 0 where
  pub version : String
