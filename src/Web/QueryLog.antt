-- ===== src/Web/QueryLog.antt =====
-- `QueryLogTab` of webui/src/app/dashboard/page.tsx: its state and handlers.
pub mod View
pub mod Laws
use smartdns_rs.Prelude.{Bool, List, Option, false, if◌then◌else◌, is_empty, none, not, some, true}
use Prim.Native.String.{String}
use smartdns_rs.Web.Api.Hooks.{QueryLogParams, QueryOptions, use_query_log}

pub record QueryLogTab : Type 0 where
  pub domain : String
  pub client : String
  pub qtype : String
  pub auto_refresh : Bool

abbrev pub init : QueryLogTab
init = record { domain = ""; client = ""; qtype = ""; auto_refresh = true }

pub data QueryLogMsg : Type 0 where
  set_domain : String → QueryLogMsg
  set_client : String → QueryLogMsg
  set_qtype : String → QueryLogMsg
  toggle_auto_refresh : QueryLogMsg
  refetch : QueryLogMsg

-- `text || undefined`
abbrev pub or_undefined : String → Option String
or_undefined s = if is_empty s then none else some s

abbrev pub params : QueryLogTab → QueryLogParams
params s = record {
  limit = some 100;
  offset = none;
  domain = or_undefined s.domain;
  client = or_undefined s.client;
  qtype = or_undefined s.qtype;
}

-- The query that the tab makes; `to_string` is that of `URLSearchParams`.
pub log_query : (List (String × String) → String) → QueryLogTab → QueryOptions
log_query to_string s = use_query_log to_string (params s) s.auto_refresh

-- The state after a handler, and whether it fetches at once.
unfoldable pub update : QueryLogTab → QueryLogMsg → QueryLogTab × Bool
update s (set_domain text) = (record s { domain = text }, false)
update s (set_client text) = (record s { client = text }, false)
update s (set_qtype text) = (record s { qtype = text }, false)
update s toggle_auto_refresh = (record s { auto_refresh = not s.auto_refresh }, false)
update s refetch = (s, true)
