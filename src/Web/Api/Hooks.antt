-- ===== src/Web/Api/Hooks.antt =====
-- The query and mutation hooks of webui/src/lib/api.ts: their keys, requests, polling intervals and
-- the keys that a mutation invalidates.
pub mod Keys
use smartdns_rs.Prelude.{
  Bool, List, Option, [], if◌then◌else◌, is_empty, none, show, some, ℕ, ◌++◌, ◌<>◌, ◌∷◌,
}
use Prim.Native.String.{String}
use smartdns_rs.Web.Api.Client.{Request, get_request, post_request, delete_request}
use smartdns_rs.Web.Runtime.{Json, obj, field, end}

pub data KeyPart : Type 0 where
  str : String → KeyPart
  num : ℕ → KeyPart
  bool : Bool → KeyPart
  undefined : KeyPart

abbrev pub QueryKey : Type 0
QueryKey = List KeyPart

-- The options given to `useQuery`; the query function is the path that `apiGet` fetches.
pub record QueryOptions : Type 0 where
  pub query_key : QueryKey
  pub path : String
  pub refetch_interval : Option ℕ

pub record QueryLogParams : Type 0 where
  pub limit : Option ℕ
  pub offset : Option ℕ
  pub domain : Option String
  pub client : Option String
  pub qtype : Option String

abbrev pub stats_keys : QueryKey
stats_keys = str "stats" ∷ []

abbrev pub system_status_keys : QueryKey
system_status_keys = str "system-status" ∷ []

abbrev pub caches_keys : QueryKey
caches_keys = str "caches" ∷ []

abbrev pub cache_config_keys : QueryKey
cache_config_keys = str "cache-config" ∷ []

abbrev pub nameservers_keys : QueryKey
nameservers_keys = str "nameservers" ∷ []

abbrev pub listeners_keys : QueryKey
listeners_keys = str "listeners" ∷ []

abbrev pub addresses_keys : QueryKey
addresses_keys = str "addresses" ∷ []

abbrev pub forwards_keys : QueryKey
forwards_keys = str "forwards" ∷ []

abbrev pub config_keys : QueryKey
config_keys = str "config" ∷ []

abbrev pub version_keys : QueryKey
version_keys = str "version" ∷ []

abbrev fixed : QueryKey → String → Option ℕ → QueryOptions
fixed key path interval = record { query_key = key; path = path; refetch_interval = interval }

unfoldable pub use_stats : QueryOptions
use_stats = fixed stats_keys "/api/stats" (some 5000)

unfoldable pub use_system_status : QueryOptions
use_system_status = fixed system_status_keys "/api/system/status" none

unfoldable pub use_caches : ℕ → ℕ → QueryOptions
use_caches offset limit = record {
  query_key = caches_keys ++ num offset ∷ num limit ∷ [];
  path = "/api/caches?offset=" <> show offset <> "&limit=" <> show limit;
  refetch_interval = some 5000;
}

unfoldable pub use_cache_config : QueryOptions
use_cache_config = fixed cache_config_keys "/api/caches/config" none

unfoldable pub use_nameservers : QueryOptions
use_nameservers = fixed nameservers_keys "/api/nameservers" (some 5000)

abbrev set_num : String → Option ℕ → List (String × String)
set_num name none = []
set_num name (some n) = (name, show n) ∷ []

-- `if (text) query.set(name, text)`: an empty text is falsy.
abbrev pub set_text : String → Option String → List (String × String)
set_text name none = []
set_text name (some s) = if is_empty s then [] else (name, s) ∷ []

abbrev pub num_part : Option ℕ → KeyPart
num_part none = undefined
num_part (some n) = num n

abbrev pub text_part : Option String → KeyPart
text_part none = undefined
text_part (some s) = str s

-- The pairs of the `URLSearchParams`.
unfoldable pub log_search : QueryLogParams → List (String × String)
log_search p =
    set_num "limit" p.limit
    ++ (set_num "offset" p.offset
        ++ (set_text "domain" p.domain ++ (set_text "client" p.client ++ set_text "qtype" p.qtype)))

abbrev pub with_search : String → String → String
with_search path qs = if is_empty qs then path else path <> "?" <> qs

-- `to_string` is that of `URLSearchParams`.
unfoldable pub use_query_log :
    (List (String × String) → String) → QueryLogParams → Bool → QueryOptions
unfolding log_search
use_query_log to_string p auto_refresh = record {
  query_key =
      str "query-log"
      ∷ num_part p.limit
      ∷ num_part p.offset
      ∷ text_part p.domain
      ∷ text_part p.client
      ∷ text_part p.qtype
      ∷ bool auto_refresh
      ∷ [];
  path = with_search "/api/query-log" (to_string (log_search p));
  refetch_interval = if auto_refresh then some 5000 else none;
}

unfoldable pub use_top_domains : ℕ → QueryOptions
use_top_domains limit = record {
  query_key = str "top-domains" ∷ num limit ∷ [];
  path = "/api/stats/top-domains?limit=" <> show limit;
  refetch_interval = some 10000;
}

unfoldable pub use_clients : ℕ → QueryOptions
use_clients limit = record {
  query_key = str "clients" ∷ num limit ∷ [];
  path = "/api/stats/clients?limit=" <> show limit;
  refetch_interval = some 10000;
}

unfoldable pub use_listeners : QueryOptions
use_listeners = fixed listeners_keys "/api/listeners" none

unfoldable pub use_addresses : QueryOptions
use_addresses = fixed addresses_keys "/api/addresses" none

unfoldable pub use_forwards : QueryOptions
use_forwards = fixed forwards_keys "/api/forwards" none

unfoldable pub use_config : QueryOptions
use_config = fixed config_keys "/api/config" none

unfoldable pub use_version : QueryOptions
use_version = fixed version_keys "/api/version" none

-- What a mutation sends, and the key that its `onSuccess` invalidates.
pub record MutationOptions : Type 0 where
  pub request : Request
  pub invalidates : QueryKey

unfoldable pub use_flush_cache : MutationOptions
unfolding post_request
use_flush_cache = record {
  request = post_request "/api/caches/flush" none;
  invalidates = caches_keys;
}

-- `{ rule: { domain, address } }`
abbrev pub rule_json : String → String → Json
rule_json domain address =
    let rule = obj (field "domain" (Json.str domain) (field "address" (Json.str address) end)) in
    obj (field "rule" rule end)

-- `stringify` is `JSON.stringify`.
unfoldable pub use_create_address : (Json → String) → String → String → MutationOptions
unfolding post_request
use_create_address stringify domain address = record {
  request = post_request "/api/addresses" (some (stringify (rule_json domain address)));
  invalidates = addresses_keys;
}

unfoldable pub use_delete_address : (Json → String) → String → MutationOptions
unfolding delete_request
use_delete_address stringify domain = record {
  request =
      delete_request "/api/addresses"
        (some (stringify (obj (field "domain" (Json.str domain) end))));
  invalidates = addresses_keys;
}

unfoldable pub use_reload_config : MutationOptions
unfolding post_request
use_reload_config = record {
  request = post_request "/api/config/reload" none;
  invalidates = config_keys;
}
