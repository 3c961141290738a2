-- ===== src/Web/Format.antt =====
-- webui/src/lib/utils.ts, and `formatQueryType` of the dashboard page.
pub mod Uptime
use smartdns_rs.Prelude.{
  Option, [], if◌then◌else◌, is_empty, join, ltb, none, show, some, ℕ, ◌%◌, ◌++◌, ◌/◌, ◌<>◌, ◌=s=◌,
  ◌∷◌,
}
use Prim.Native.String.{String}
use smartdns_rs.Web.Runtime.{Runtime, Json, Fields, null, bool, num, str, arr, obj, end, field}

unfoldable pub format_uptime : ℕ → String
format_uptime seconds =
    let days = seconds / 86400 in
    let hours = seconds % 86400 / 3600 in
    let minutes = seconds % 3600 / 60 in
    let day_parts = if ltb 0 days then (show days <> "天") ∷ [] else [] in
    let hour_parts = if ltb 0 hours then (show hours <> "小时") ∷ [] else [] in
    join " " (day_parts ++ hour_parts ++ (show minutes <> "分钟") ∷ [])

abbrev or_dash : Option String → String
or_dash none = "-"
or_dash (some s) = s

-- `date` is the runtime's reading of a time text.
unfoldable pub format_timestamp : (String → Option String) → String → String
format_timestamp date ts = if is_empty ts then "-" else or_dash (date ts)

abbrev unknown_field : Fields → Option Json
unknown_field end = none
unknown_field (field name v rest) = if name =s= "Unknown" then some v else unknown_field rest

-- `print` is the text that a template literal makes of a value.
unfoldable pub format_query_type : (Json → String) → Json → String
format_query_type print (str s) = s
format_query_type print (obj fields) = elim (unknown_field fields) [
  | none ↦ "UNKNOWN"
  | some v ↦ "UNKNOWN(" <> print v <> ")"
]
format_query_type print _ = "UNKNOWN"
