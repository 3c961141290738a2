-- ===== src/Web/Api/Hooks/Keys.antt =====
-- Query keys against the requests that they stand for.
use smartdns_rs.Prelude.{
  Bool, List, Option, [], ap, if◌then◌else◌, none, refl, show, some, sym, ℕ, ◌<>◌, ◌=s=◌, ◌∙◌, ◌∷◌,
  ◌≡◌,
}
use Prim.Native.String.{String}
use smartdns_rs.Web.Api.Hooks.{
  KeyPart, str, num, QueryKey, QueryOptions, QueryLogParams, num_part, text_part, with_search,
  log_search, use_stats, use_system_status, use_caches, use_cache_config, use_nameservers,
  use_query_log, use_top_domains, use_clients, use_listeners, use_addresses, use_forwards,
  use_config, use_version,
}

-- A query that the console can make.
pub data Hook : Type 0 where
  stats system_status cache_config nameservers listeners addresses forwards config version : Hook
  caches : ℕ → ℕ → Hook
  query_log : QueryLogParams → Bool → Hook
  top_domains clients : ℕ → Hook

module _ (to_string : List (String × String) → String) where
  unfoldable pub options : Hook → QueryOptions
  options stats = use_stats
  options system_status = use_system_status
  options cache_config = use_cache_config
  options nameservers = use_nameservers
  options listeners = use_listeners
  options addresses = use_addresses
  options forwards = use_forwards
  options config = use_config
  options version = use_version
  options (caches offset limit) = use_caches offset limit
  options (query_log p auto_refresh) = use_query_log to_string p auto_refresh
  options (top_domains limit) = use_top_domains limit
  options (clients limit) = use_clients limit

abbrev num_of : KeyPart → Option ℕ
num_of (num n) = some n
num_of _ = none

abbrev text_of : KeyPart → Option String
text_of (str s) = some s
text_of _ = none

abbrev digits : KeyPart → String
digits (num n) = show n
digits _ = ""

num_of-num_part : (n : Option ℕ) → num_of (num_part n) ≡ n
num_of-num_part none = refl
num_of-num_part (some n) = refl

text_of-text_part : (s : Option String) → text_of (text_part s) ≡ s
text_of-text_part none = refl
text_of-text_part (some s) = refl

module _ (to_string : List (String × String) → String) where
  -- The path that a key stands for.
  path_of_key : QueryKey → String
  path_of_key (str s ∷ []) =
      if s =s= "stats"
      then "/api/stats"
      else if s =s= "system-status"
      then "/api/system/status"
      else if s =s= "cache-config"
      then "/api/caches/config"
      else if s =s= "nameservers"
      then "/api/nameservers"
      else if s =s= "listeners"
      then "/api/listeners"
      else if s =s= "addresses"
      then "/api/addresses"
      else if s =s= "forwards"
      then "/api/forwards"
      else if s =s= "config"
      then "/api/config"
      else "/api/version"
  path_of_key (str s ∷ n ∷ []) =
      if s =s= "clients"
      then "/api/stats/clients?limit=" <> digits n
      else "/api/stats/top-domains?limit=" <> digits n
  path_of_key (str s ∷ offset ∷ limit ∷ []) =
      "/api/caches?offset=" <> digits offset <> "&limit=" <> digits limit
  path_of_key (str s ∷ l ∷ o ∷ d ∷ c ∷ t ∷ rest) = with_search "/api/query-log" (
      to_string (
        log_search (record {
          limit = num_of l;
          offset = num_of o;
          domain = text_of d;
          client = text_of c;
          qtype = text_of t;
        })))
  path_of_key _ = ""

  path_of_key-query_key :
      (h : Hook) → path_of_key (options to_string h).query_key ≡ (options to_string h).path
  unfolding path_of_key options use_stats use_system_status use_caches use_cache_config
      use_nameservers use_query_log use_top_domains use_clients use_listeners use_addresses
      use_forwards use_config use_version
  path_of_key-query_key (query_log p auto_refresh) = rw (
    num_of-num_part p.limit,
    num_of-num_part p.offset,
    text_of-text_part p.domain,
    text_of-text_part p.client,
    text_of-text_part p.qtype,
  )
  path_of_key-query_key stats = refl
  path_of_key-query_key _ = refl

  -- Two queries of the console with the same key fetch the same path, so the data layer never
  -- hands one query the answer to another.
  path_of_query_key :
      (a b : Hook)
      → (options to_string a).query_key ≡ (options to_string b).query_key
      → (options to_string a).path ≡ (options to_string b).path
  path_of_query_key a b same =
      sym (path_of_key-query_key a) ∙ ap path_of_key same ∙ path_of_key-query_key b
