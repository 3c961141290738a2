-- ===== src/Server/Nameservers.antt =====
-- src/api/nameserver.rs: the upstream servers of the configuration with the counts of the name
-- servers that run for them. `stats_key` is the key of src/config/nameserver.rs; the counts are 64
-- bits wide and wrap around.
pub mod Laws
use smartdns_rs.Prelude.{
  Bool, List, Option, [], false, if◌then◌else◌, keep_if, ltb, map, none, some, true, ℕ, ◌%◌, ◌+◌,
  ◌==◌, ◌=s=◌, ◌∷◌,
}
use Prim.Native.String.{String}
use smartdns_rs.Server.Caches.{DataListPayload, payload}
use smartdns_rs.Server.Dispatch.{word}
use smartdns_rs.Server.Ranking.{Float}

-- A name server of a group, with its counters.
pub record NameServer : Type 0 where
  pub stats_key : String
  pub query_count : ℕ
  pub success_count : ℕ
  pub failure_count : ℕ
  pub total_time_ns : ℕ
  pub is_failing : Bool

-- The paths and interfaces of the protocols are left out.
pub data ProtocolConfig : Type 0 where
  udp tcp tls https quic h3 system dhcp : ProtocolConfig

-- A configured server: the texts that its URL gives, and whether its protocol is encrypted.
pub record NameServerInfo : Type 0 where
  pub stats_key : String
  pub enabled : Bool
  pub name : Option String
  pub server : String
  pub group : List String
  pub proto : ProtocolConfig
  pub is_encrypted : Bool
  pub ip : Option String
  pub host : String
  pub port : ℕ

pub record Agg : Type 0 where
  pub query : ℕ
  pub success : ℕ
  pub failure : ℕ
  pub time_ns : ℕ
  pub failing : Bool

-- `Agg::default()`
abbrev pub no_agg : Agg
no_agg = record { query = 0; success = 0; failure = 0; time_ns = 0; failing = false }

-- The body of the inner loop, on the entry of the name server's key.
unfoldable pub merge : Agg → NameServer → Agg
merge a ns = record {
  query = (a.query + ns.query_count) % word;
  success = (a.success + ns.success_count) % word;
  failure = (a.failure + ns.failure_count) % word;
  time_ns = (a.time_ns + ns.total_time_ns) % word;
  failing = if ns.is_failing then true else a.failing;
}

-- `agg.entry(key).or_default()`, then the body.
unfoldable pub add_to : List (String × Agg) → NameServer → List (String × Agg)
add_to [] ns = (ns.stats_key, merge no_agg ns) ∷ []
add_to ((key, a) ∷ es) ns =
    if key =s= ns.stats_key then (key, merge a ns) ∷ es else (key, a) ∷ add_to es ns

unfoldable pub add_group : List (String × Agg) → List NameServer → List (String × Agg)
add_group agg [] = agg
add_group agg (ns ∷ group) = add_group (add_to agg ns) group

-- The default group and then the named ones.
unfoldable pub add_groups : List (String × Agg) → List (List NameServer) → List (String × Agg)
add_groups agg [] = agg
add_groups agg (group ∷ groups) = add_groups (add_group agg group) groups

-- `agg.get(&key)`
unfoldable pub get : String → List (String × Agg) → Option Agg
get k [] = none
get k ((key, a) ∷ es) = if key =s= k then some a else get k es

abbrev pub protocol_label : ProtocolConfig → String
protocol_label udp = "UDP"
protocol_label tcp = "TCP"
protocol_label system = "System"
protocol_label dhcp = "DHCP"
protocol_label tls = "DoT"
protocol_label https = "DoH"
protocol_label quic = "DoQ"
protocol_label h3 = "DoH3"

abbrev pub or_host : Option String → String → String
or_host none host = host
or_host (some ip) host = ip

pub record UpstreamServer (F : Type 0) : Type 0 where
  pub name : Option String
  pub server : String
  pub group : List String
  pub protocol : String
  pub security : String
  pub ip : String
  pub port : ℕ
  pub status : String
  pub query_total : ℕ
  pub success_total : ℕ
  pub failure_total : ℕ
  pub avg_time_ms : F
  pub success_rate : F

-- The tuple that the match on the entry gives.
pub record Totals (F : Type 0) : Type 0 where
  pub query : ℕ
  pub success : ℕ
  pub failure : ℕ
  pub avg : F
  pub failing : Bool

abbrev pub is_enabled : NameServerInfo → Bool
is_enabled info = info.enabled

module _ (fl : Float) where
  open fl use {F, zero_f, div, mul, of_nat}

  unfoldable pub avg_time_ms : Agg → F
  avg_time_ms a =
      if a.query == 0
      then zero_f
      else div (div (of_nat a.time_ns) (of_nat a.query)) (of_nat 1000000)

  abbrev pub totals : Option Agg → Totals F
  totals none = record { query = 0; success = 0; failure = 0; avg = zero_f; failing = false }
  totals (some a) = record {
    query = a.query;
    success = a.success;
    failure = a.failure;
    avg = avg_time_ms a;
    failing = a.failing;
  }

  unfoldable pub upstream_server : List (String × Agg) → NameServerInfo → UpstreamServer F
  upstream_server agg info =
      let t = totals (get info.stats_key agg) in
      record {
        name = info.name;
        server = info.server;
        group = info.group;
        protocol = protocol_label info.proto;
        security = if info.is_encrypted then "加密" else "明文";
        ip = or_host info.ip info.host;
        port = info.port;
        status = if t.failing then "error" else "ok";
        query_total = t.query;
        success_total = t.success;
        failure_total = t.failure;
        avg_time_ms = t.avg;
        success_rate =
            if ltb 0 t.query
            then mul (div (of_nat t.success) (of_nat t.query)) (of_nat 100)
            else zero_f;
      }

  -- The handler; without a client there are no groups.
  unfoldable pub nameservers :
      List (List NameServer) → List NameServerInfo → DataListPayload (UpstreamServer F)
  nameservers groups servers =
      payload (map (upstream_server (add_groups [] groups)) (keep_if is_enabled servers))
