-- ===== src/Web/QueryLog/View.antt =====
-- What `QueryLogTab` shows.
use smartdns_rs.Prelude.{
  Bool, List, Option, [], if◌then◌else◌, length, map, none, show, some, ℕ, ◌<>◌, ◌==◌, ◌=s=◌, ◌∷◌,
}
use Prim.Native.String.{String}
use smartdns_rs.Web.Api.{QueryLogEntry, QueryLogResponse}
use smartdns_rs.Web.Format.{format_timestamp}
use smartdns_rs.Web.Parts.{box, typography, skeletons, error_alert, empty_card, cell, chip, table}
use smartdns_rs.Web.QueryLog.{
  QueryLogTab, QueryLogMsg, set_domain, set_client, set_qtype, toggle_auto_refresh, refetch,
}
use smartdns_rs.Web.Runtime.{Runtime, Query}
use smartdns_rs.Web.View.{Node, prop, on_click, on_input, text, tag}

abbrev filter_field : String → String → (String → QueryLogMsg) → String → Node QueryLogMsg
filter_field label value set hint = tag "Grid" [] (
    tag "TextField"
      (prop "label" label ∷ prop "value" value ∷ on_input set ∷ prop "placeholder" hint ∷ []) []
    ∷ [])

abbrev menu_items : List String → List (Node QueryLogMsg)
menu_items [] = []
menu_items (t ∷ ts) = tag "MenuItem" (prop "value" t ∷ []) (text t ∷ []) ∷ menu_items ts

-- The record types offered by the filter.
abbrev pub offered_types : List String
offered_types = "A" ∷ "AAAA" ∷ "CNAME" ∷ "MX" ∷ "TXT" ∷ "PTR" ∷ "HTTPS" ∷ "SRV" ∷ []

unfoldable pub type_select : String → Node QueryLogMsg
type_select qtype = tag "FormControl" [] (
    tag "InputLabel" [] (text "类型" ∷ [])
    ∷ tag "Select" (prop "label" "类型" ∷ prop "value" qtype ∷ on_input set_qtype ∷ [])
        (tag "MenuItem" (prop "value" "" ∷ []) (text "全部" ∷ []) ∷ menu_items offered_types)
    ∷ [])

unfoldable pub refresh_buttons : Bool → Node QueryLogMsg
refresh_buttons auto_refresh = box (
    tag "Tooltip" (prop "title" (if auto_refresh then "暂停自动刷新" else "开启自动刷新") ∷ []) (
      tag "IconButton"
        (prop "color" (if auto_refresh then "primary" else "default")
          ∷ on_click toggle_auto_refresh
          ∷ [])
        ((if auto_refresh then tag "PauseIcon" [] [] else tag "PlayArrowIcon" [] []) ∷ [])
      ∷ [])
    ∷ tag "Tooltip" (prop "title" "立即刷新" ∷ [])
        (tag "IconButton" (on_click refetch ∷ []) (tag "RefreshIcon" [] [] ∷ []) ∷ [])
    ∷ [])

unfoldable pub filters : QueryLogTab → Node QueryLogMsg
filters s = tag "Paper" [] (
    tag "Grid" [] (
      filter_field "域名过滤" s.domain set_domain "如 example.com"
      ∷ filter_field "客户端过滤" s.client set_client "如 192.168.1.1"
      ∷ tag "Grid" [] (type_select s.qtype ∷ [])
      ∷ tag "Grid" [] (refresh_buttons s.auto_refresh ∷ [])
      ∷ [])
    ∷ [])

abbrev result_chip : String → Node QueryLogMsg
result_chip result =
    if result =s= "success" then chip "成功" "success" "filled" else chip "失败" "error" "outlined"

module _ (js : Runtime) where
  open js use {Number, to_fixed, locale_date}

  unfoldable pub log_row : QueryLogEntry Number → Node QueryLogMsg
  log_row e = tag "TableRow" [] (
      cell (typography "body2" (format_timestamp locale_date e.time))
      ∷ cell (typography "body2" e.client)
      ∷ cell (typography "body2" e.domain)
      ∷ cell (chip e.query_type "default" "outlined")
      ∷ cell (text (to_fixed e.elapsed_ms 1 <> " ms"))
      ∷ cell (result_chip e.result)
      ∷ [])

  abbrev pub log_entries : Option (QueryLogResponse Number) → List (QueryLogEntry Number)
  log_entries none = []
  log_entries (some r) = r.items

  abbrev pub log_total : Option (QueryLogResponse Number) → ℕ
  log_total none = 0
  log_total (some r) = r.total

  unfoldable pub log_section : Query (QueryLogResponse Number) → List (Node QueryLogMsg)
  log_section q =
      let entries = log_entries q.value in
      if q.is_loading
      then skeletons 8 ∷ []
      else if q.error
      then error_alert "加载查询日志失败" ∷ []
      else if length entries == 0
      then empty_card "暂无查询日志" ∷ []
      else typography "body2"
          ("共 " <> show (log_total q.value) <> " 条，当前显示 " <> show (length entries) <> " 条")
        ∷ table ("时间" ∷ "客户端" ∷ "域名" ∷ "类型" ∷ "耗时" ∷ "结果" ∷ []) (map log_row entries)
        ∷ []

  unfoldable pub view : QueryLogTab → Query (QueryLogResponse Number) → Node QueryLogMsg
  view s q = box (
      typography "h4" "查询日志"
      ∷ typography "body2" "展示最近 1000 条查询记录（内存缓存，服务重启后清空）。"
      ∷ filters s
      ∷ log_section q)
