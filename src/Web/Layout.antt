-- ===== src/Web/Layout.antt =====
-- webui/src/app/dashboard/layout.tsx, and `DashboardPage` of page.tsx: the tabs of the dashboard.
pub mod Laws
use smartdns_rs.Prelude.{Bool, List, [], false, if◌then◌else◌, map, not, true, ◌=s=◌, ◌∷◌}
use Prim.Native.String.{String}
use smartdns_rs.Web.View.{Node, prop, flag, on_click, on_close, text, tag}

pub data DashboardTab : Type 0 where
  overview upstream cache rules querylog : DashboardTab

abbrev pub tab_text : DashboardTab → String
tab_text overview = "overview"
tab_text upstream = "upstream"
tab_text cache = "cache"
tab_text rules = "rules"
tab_text querylog = "querylog"

-- `a === b` on tabs.
abbrev pub same_tab : DashboardTab → DashboardTab → Bool
same_tab a b = tab_text a =s= tab_text b

pub record NavItem : Type 0 where
  pub label : String
  pub icon : String
  pub tab : DashboardTab

abbrev nav : String → String → DashboardTab → NavItem
nav label icon tab = record { label = label; icon = icon; tab = tab }

abbrev pub nav_items : List NavItem
nav_items =
    nav "系统概览" "DashboardIcon" overview
    ∷ nav "上游服务器" "DnsIcon" upstream
    ∷ nav "缓存管理" "StorageIcon" cache
    ∷ nav "规则管理" "RuleIcon" rules
    ∷ nav "查询日志" "HistoryIcon" querylog
    ∷ []

pub record Dashboard : Type 0 where
  pub current_tab : DashboardTab
  pub mobile_open : Bool

abbrev pub init : Dashboard
init = record { current_tab = overview; mobile_open = false }

pub data LayoutMsg : Type 0 where
  -- a press of a navigation item
  go_to : DashboardTab → LayoutMsg
  toggle_menu close_menu : LayoutMsg

unfoldable pub update : Dashboard → LayoutMsg → Dashboard
update s (go_to tab) = record { current_tab = tab; mobile_open = false }
update s toggle_menu = record s { mobile_open = not s.mobile_open }
update s close_menu = record s { mobile_open = false }

unfoldable pub nav_button : DashboardTab → NavItem → Node LayoutMsg
nav_button current item = tag "ListItem" [] (
    tag "ListItemButton"
      (on_click (go_to item.tab) ∷ flag "selected" (same_tab current item.tab) ∷ [])
      (tag "ListItemIcon"
          (prop "color" (if same_tab current item.tab then "primary.main" else "inherit") ∷ [])
          (tag item.icon [] [] ∷ [])
        ∷ tag "ListItemText" (prop "primary" item.label ∷ []) []
        ∷ [])
    ∷ [])

unfoldable pub drawer : Dashboard → Node LayoutMsg
drawer s = tag "Box" [] (
    tag "Toolbar" [] (tag "Typography" [] (text "SmartDNS" ∷ []) ∷ [])
    ∷ tag "Divider" [] []
    ∷ tag "List" [] (map (nav_button s.current_tab) nav_items)
    ∷ [])

unfoldable pub app_bar : Node LayoutMsg
app_bar = tag "AppBar" [] (
    tag "Toolbar" [] (
      tag "IconButton" (on_click toggle_menu ∷ []) (tag "MenuIcon" [] [] ∷ [])
      ∷ tag "Typography" [] (text "SmartDNS Dashboard" ∷ [])
      ∷ [])
    ∷ [])

unfoldable pub layout : Dashboard → Node LayoutMsg → Node LayoutMsg
layout s children = tag "Box" [] (
    app_bar
    ∷ tag "Drawer" (prop "variant" "permanent" ∷ flag "open" true ∷ []) (drawer s ∷ [])
    ∷ tag "Drawer"
        (prop "variant" "temporary" ∷ flag "open" s.mobile_open ∷ on_close close_menu ∷ [])
        (drawer s ∷ [])
    ∷ tag "Box" (prop "component" "main" ∷ []) (children ∷ [])
    ∷ [])

-- `DashboardPage`: the component that the current tab shows, given all five.
unfoldable pub page {ℓ} : {A : Type ℓ} → A → A → A → A → A → DashboardTab → A
page o u c r q upstream = u
page o u c r q cache = c
page o u c r q rules = r
page o u c r q querylog = q
page o u c r q overview = o
