-- ===== src/Web/QueryLog/Laws.antt =====
-- The query log tab against the server's listing.
use smartdns_rs.Prelude.{
  Bool, CaseMap, List, Option, [], arith, fun_ext, if◌then◌else◌, includes, is_empty, keep_if,
  length, none, refl, reverse, show, some, take, ℕ, ◌&&◌, ◌=s=◌, ◌||◌, ◌∷◌, ◌≡◌,
}
use Prim.Native.String.{String}
use smartdns_rs.Server.Audit
use smartdns_rs.Server.QueryLog
use smartdns_rs.Server.QueryLog.{QueryLogList, query_log, matches}
use smartdns_rs.Web.Api.Hooks.{log_search}
use smartdns_rs.Web.QueryLog.{QueryLogTab, params, or_undefined}

-- The first value of a name.
abbrev pub get_param : String → List (String × String) → Option String
get_param name [] = none
get_param name ((k, v) ∷ ps) = if k =s= name then some v else get_param name ps

-- How the server reads the parameters: `parse` reads a whole number.
abbrev and_then : {A B : Type 0} → Option A → (A → Option B) → Option B
and_then none f = none
and_then (some a) f = f a

module _ (parse : String → Option ℕ) where
  abbrev pub read_params : List (String × String) → QueryLog.QueryLogParams
  read_params ps = record {
    limit = and_then (get_param "limit" ps) parse;
    offset = and_then (get_param "offset" ps) parse;
    domain = get_param "domain" ps;
    client = get_param "client" ps;
    qtype = get_param "qtype" ps;
  }

search_filters :
    (parse : String → Option ℕ) (s : QueryLogTab)
    → let p = read_params parse (log_search (params s)) in
      (p.domain ≡ or_undefined s.domain)
      × (p.client ≡ or_undefined s.client)
      × (p.qtype ≡ or_undefined s.qtype)
      × (p.offset ≡ none)
      × (p.limit ≡ parse (show 100))
unfolding log_search
search_filters parse s = (ground arith, ground arith, ground arith, ground arith, refl)

-- What the texts of the tab's filters say of an entry; an empty text says nothing.
module _ (cm : CaseMap) {F : Type 0} where
  open cm use {to_lower, to_upper}

  abbrev pub wanted : QueryLogTab → Audit.QueryLogEntry F → Bool
  wanted s e =
      (is_empty s.domain || includes (to_lower e.domain) (to_lower s.domain))
      && (is_empty s.client || includes (to_lower e.client) (to_lower s.client))
      && (is_empty s.qtype || to_upper e.query_type =s= to_upper s.qtype)

  -- The parameters that the tab sends, as the server reads them, filter as the tab's texts say.
  matches-read_params :
      (parse : String → Option ℕ) (s : QueryLogTab) (e : Audit.QueryLogEntry F)
      → matches cm (read_params parse (log_search (params s))) e ≡ wanted s e
  unfolding matches
  matches-read_params parse s e =
      let (d, c, q, _, _) = search_filters parse s in rw (d, c, q) (ground arith)

  -- The query log tab is shown the newest hundred of the entries that its filter texts want, newest
  -- first, with the number of all of them, where the search parameters are decoded as they were
  -- encoded and the number 100 is read back.
  pub query_log-wanted :
      (to_string : List (String × String) → String) (decode : String → List (String × String))
      (parse : String → Option ℕ) (s : QueryLogTab) (ring : List (Audit.QueryLogEntry F))
      → decode (to_string (log_search (params s))) ≡ log_search (params s)
      → parse (show 100) ≡ some 100
      → query_log cm ring (read_params parse (decode (to_string (log_search (params s)))))
        ≡ record {
          total = length (keep_if (wanted s) (reverse ring));
          entries = take 100 (keep_if (wanted s) (reverse ring));
        }
  unfolding query_log
  query_log-wanted to_string decode parse s ring codec hundred =
      let (_, _, _, o, l) = search_filters parse s in
      rw (codec, fun_ext (matches-read_params parse s), o, l, hundred)
