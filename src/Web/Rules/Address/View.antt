-- ===== src/Web/Rules/Address/View.antt =====
-- What `AddressRulesTab` shows.
use smartdns_rs.Prelude.{
  Bool, List, Option, [], false, if◌then◌else◌, is_empty, length, map, none, show, some, true, ℕ,
  ◌<>◌, ◌==◌, ◌||◌, ◌∷◌,
}
use smartdns_rs.Web.Api.{AddressEntry, AddressesResponse}
use smartdns_rs.Web.Parts.{
  box, typography, skeletons, error_alert, empty_card, cell, chip, table, snackbar_view,
}
use smartdns_rs.Web.Rules.Address.{
  AddressTab, AddressMsg, set_dialog_open, set_domain, set_address, handle_add, handle_delete,
  close_snackbar,
}
use smartdns_rs.Web.Runtime.{Query}
use smartdns_rs.Web.View.{Node, prop, flag, on_click, on_close, on_input, text, tag}

-- `addresses?.count ?? 0`
abbrev count_of : Option AddressesResponse → ℕ
count_of none = 0
count_of (some r) = r.count

-- `addresses?.data`, an absent one as an empty one: both show the card without rules.
abbrev pub entries_of : Option AddressesResponse → List AddressEntry
entries_of none = []
entries_of (some r) = r.items

unfoldable pub title_bar : Option AddressesResponse → Node AddressMsg
title_bar r = box (
    typography "h6" ("地址规则 (" <> show (count_of r) <> ")")
    ∷ tag "Button" (on_click (set_dialog_open true) ∷ [])
        (tag "startIcon" [] (tag "AddIcon" [] [] ∷ []) ∷ text "添加规则" ∷ [])
    ∷ [])

unfoldable pub address_row : Bool → AddressEntry → Node AddressMsg
address_row deleting entry = tag "TableRow" [] (
    cell (typography "body2" entry.domain)
    ∷ cell (chip entry.address "primary" "outlined")
    ∷ cell (
        tag "IconButton"
          (prop "color" "error"
            ∷ on_click (handle_delete entry.domain)
            ∷ flag "disabled" deleting
            ∷ [])
          (tag "DeleteIcon" [] [] ∷ []))
    ∷ [])

unfoldable pub address_table : Bool → List AddressEntry → Node AddressMsg
address_table deleting entries =
    table ("域名" ∷ "IP 地址" ∷ "操作" ∷ []) (map (address_row deleting) entries)

unfoldable pub rules_section : Query AddressesResponse → Bool → Node AddressMsg
rules_section q deleting =
    let entries = entries_of q.value in
    if q.is_loading
    then skeletons 5
    else if q.error
    then error_alert "加载地址规则失败"
    else if length entries == 0
    then empty_card "暂无地址规则"
    else address_table deleting entries

unfoldable pub add_dialog : AddressTab → Bool → Node AddressMsg
add_dialog s adding =
    tag "Dialog" (flag "open" s.dialog_open ∷ on_close (set_dialog_open false) ∷ []) (
      tag "DialogTitle" [] (text "添加地址规则" ∷ [])
      ∷ tag "DialogContent" [] (
          tag "TextField"
            (prop "label" "域名"
              ∷ prop "value" s.domain
              ∷ on_input set_domain
              ∷ prop "placeholder" "example.com"
              ∷ [])
            []
          ∷ tag "TextField"
              (prop "label" "地址"
                ∷ prop "value" s.address
                ∷ on_input set_address
                ∷ prop "placeholder" "1.2.3.4"
                ∷ [])
              []
          ∷ [])
      ∷ tag "DialogActions" [] (
          tag "Button" (on_click (set_dialog_open false) ∷ []) (text "取消" ∷ [])
          ∷ tag "Button"
              (on_click handle_add
                ∷ flag "disabled" (adding || is_empty s.domain || is_empty s.address)
                ∷ [])
              (tag "startIcon" [] (if adding then tag "CircularProgress" [] [] ∷ [] else [])
                ∷ text "添加"
                ∷ [])
          ∷ [])
      ∷ [])

-- `adding` and `deleting` say whether the two mutations are pending.
unfoldable pub view : AddressTab → Query AddressesResponse → Bool → Bool → Node AddressMsg
view s q adding deleting = box (
    title_bar q.value
    ∷ rules_section q deleting
    ∷ add_dialog s adding
    ∷ snackbar_view close_snackbar s.snackbar
    ∷ [])
