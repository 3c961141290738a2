-- ===== src/Web/Upstream.antt =====
-- `UpstreamTab` of webui/src/app/dashboard/page.tsx. It has no state and sends nothing.
pub mod Laws
use smartdns_rs.Prelude.{
  Bool, List, Option, [], if◌then◌else◌, is_empty, join, length, ltb, map, none, show, some, ℕ, ◌+◌,
  ◌<>◌, ◌==◌, ◌=s=◌, ◌∷◌,
}
use Prim.Native.String.{String}
use smartdns_rs.Web.Api.{UpstreamServer, NameserversResponse, Listener, ListenersResponse}
use smartdns_rs.Web.Parts.{
  box, typography, skeleton, skeletons, error_alert, empty_card, stat_card, cell, chip, table,
}
use smartdns_rs.Web.Runtime.{Runtime, Query}
use smartdns_rs.Web.View.{Node, prop, text, tag}

-- `xs.reduce((s, x) => s + f(x), s)`; each sum is rounded to a double.
abbrev pub sum_by : {A : Type 0} → (ℕ → ℕ) → (A → ℕ) → ℕ → List A → ℕ
sum_by round f s [] = s
sum_by round f s (x ∷ xs) = sum_by round f (round (s + f x)) xs

abbrev pub or_text : String → String → String
or_text s other = if is_empty s then other else s

abbrev pub group_text : List String → String
group_text [] = "-"
group_text (g ∷ gs) = join ", " (g ∷ gs)

abbrev pub ls_data : Option ListenersResponse → List Listener
ls_data none = []
ls_data (some r) = r.items

abbrev pub ls_count : Option ListenersResponse → ℕ
ls_count none = 0
ls_count (some r) = r.count

module _ {M : Type 0} where
  unfoldable pub status_chip : String → Node M
  status_chip status =
      if status =s= "ok" then chip "正常" "success" "filled" else chip "异常" "error" "outlined"

  abbrev pub name_cell : Option String → Node M
  name_cell none = typography "body2" "-"
  name_cell (some name) = typography "body2" (or_text name "-")

module _ (js : Runtime) where
  open js use {Number, round, of_nat, mul, div, geb}

  abbrev pub ns_data : Option (NameserversResponse Number) → List (UpstreamServer Number)
  ns_data none = []
  ns_data (some r) = r.items

  abbrev pub ns_count : Option (NameserversResponse Number) → ℕ
  ns_count none = 0
  ns_count (some r) = r.count

  unfoldable pub total_queries : List (UpstreamServer Number) → ℕ
  total_queries = sum_by round (λ n. n.query_total) 0

  unfoldable pub total_success : List (UpstreamServer Number) → ℕ
  total_success = sum_by round (λ n. n.success_total) 0

  unfoldable pub total_failure : List (UpstreamServer Number) → ℕ
  total_failure = sum_by round (λ n. n.failure_total) 0

  unfoldable pub overall_rate : List (UpstreamServer Number) → Number
  unfolding total_queries total_success
  overall_rate servers =
      if ltb 0 (total_queries servers)
      then mul (div (of_nat (total_success servers)) (of_nat (total_queries servers))) (of_nat 100)
      else of_nat 0

  unfoldable pub rate_color : Number → String
  rate_color rate =
      if geb rate (of_nat 90)
      then "success"
      else if geb rate (of_nat 50)
      then "warning"
      else "error"

module _ {M : Type 0} (js : Runtime) where
  open js use {Number, to_fixed, to_locale_string}

  unfoldable pub rate_cell : Number → Node M
  unfolding rate_color
  rate_cell rate = box (
      box (typography "body2" (to_fixed rate 1 <> "%") ∷ [])
      ∷ tag "LinearProgress" (prop "color" (rate_color js rate) ∷ []) []
      ∷ [])

  unfoldable pub ns_row : UpstreamServer Number → Node M
  unfolding rate_cell status_chip
  ns_row ns = tag "TableRow" [] (
      cell (typography "body2" (group_text ns.group))
      ∷ cell (name_cell ns.name)
      ∷ cell (typography "body2" ns.server)
      ∷ cell (typography "body2" (ns.ip <> ":" <> show ns.port))
      ∷ cell (chip (or_text ns.protocol "未知") "primary" "outlined")
      ∷ cell (
          chip (or_text ns.security "明文") (if ns.security =s= "加密" then "secondary" else "default")
            "outlined")
      ∷ cell (status_chip ns.status)
      ∷ cell (text (to_locale_string ns.query_total))
      ∷ cell (text (to_locale_string ns.success_total))
      ∷ cell (text (to_locale_string ns.failure_total))
      ∷ cell (text (to_fixed ns.avg_time_ms 1 <> " ms"))
      ∷ cell (rate_cell ns.success_rate)
      ∷ [])

  unfoldable pub ns_section : Query (NameserversResponse Number) → Node M
  unfolding ns_row
  ns_section q =
      let servers = ns_data js q.value in
      if q.is_loading
      then skeletons 3
      else if q.error
      then error_alert "加载上游服务器数据失败"
      else if length servers == 0
      then empty_card "暂无上游服务器配置"
      else table
          ("分组" ∷ "名称" ∷ "地址" ∷ "IP:端口" ∷ "协议" ∷ "安全" ∷ "状态" ∷ "查询" ∷ "成功" ∷ "失败" ∷ "平均耗时" ∷ "成功率"
            ∷ [])
          (map ns_row servers)

  unfoldable pub ls_row : Listener → Node M
  ls_row ls = tag "TableRow" [] (
      cell (typography "body2" ls.addr)
      ∷ cell (text (show ls.port))
      ∷ cell (chip ls.protocol "success" "outlined")
      ∷ [])

  unfoldable pub ls_section : Query ListenersResponse → Node M
  unfolding ls_row
  ls_section q =
      let listeners = ls_data q.value in
      if q.is_loading
      then skeletons 3
      else if q.error
      then error_alert "加载监听端口数据失败"
      else if length listeners == 0
      then empty_card "暂无监听端口配置"
      else table ("地址" ∷ "端口" ∷ "协议" ∷ []) (map ls_row listeners)

  -- A number of the head of the tab, or its skeleton.
  abbrev pub number_card : String → Bool → Node M → Node M
  number_card title is_loading number =
      stat_card title (if is_loading then skeleton "text" else number)

  unfoldable pub query_number : List (UpstreamServer Number) → Node M
  unfolding total_queries total_success total_failure
  query_number servers = box (
      typography "h4" (to_locale_string (total_queries js servers))
      ∷ typography "caption" (
          "成功 "
          <> to_locale_string (total_success js servers)
          <> " / 失败 "
          <> to_locale_string (total_failure js servers))
      ∷ [])

  unfoldable pub view : Query (NameserversResponse Number) → Query ListenersResponse → Node M
  unfolding ns_section ls_section query_number overall_rate
  view ns ls =
      let servers = ns_data js ns.value in
      box (
        typography "h4" "上游服务器"
        ∷ tag "Grid" [] (
            number_card "上游服务器数量" ns.is_loading (typography "h4" (show (ns_count js ns.value)))
            ∷ number_card "监听端口数量" ls.is_loading (typography "h4" (show (ls_count ls.value)))
            ∷ number_card "上游总查询次数" ns.is_loading (query_number servers)
            ∷ number_card "总体成功率" ns.is_loading
                (typography "h4" (to_fixed (overall_rate js servers) 1 <> "%"))
            ∷ [])
        ∷ typography "h5" "上游 DNS 服务器"
        ∷ ns_section ns
        ∷ typography "h5" "监听端口"
        ∷ ls_section ls
        ∷ [])
