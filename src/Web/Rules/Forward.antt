-- ===== src/Web/Rules/Forward.antt =====
-- `ForwardRulesTab` of webui/src/app/dashboard/page.tsx. It has no state and sends nothing.
use smartdns_rs.Prelude.{
  List, Option, [], if◌then◌else◌, length, map, none, show, some, ℕ, ◌<>◌, ◌==◌, ◌∷◌,
}
use Prim.Native.String.{String}
use smartdns_rs.Web.Api.{ForwardEntry, ForwardsResponse}
use smartdns_rs.Web.Parts.{
  box, typography, skeletons, error_alert, empty_card, card, cell, chip, table,
}
use smartdns_rs.Web.Runtime.{Json, str, Query}
use smartdns_rs.Web.View.{Node, tag}

abbrev pub groups_of : Option ForwardsResponse → List ForwardEntry
groups_of none = []
groups_of (some r) = r.items

abbrev count_of : Option ForwardsResponse → ℕ
count_of none = 0
count_of (some r) = r.count

-- `typeof fw === "string" ? fw : JSON.stringify(fw)`
abbrev pub target_text : (Json → String) → Json → String
target_text stringify (str s) = s
target_text stringify fw = stringify fw

module _ {M : Type 0} (stringify : Json → String) where
  abbrev target_row : Json → Node M
  target_row fw = tag "TableRow" [] (cell (typography "body2" (target_text stringify fw)) ∷ [])

  unfoldable pub forward_group : ForwardEntry → Node M
  forward_group group = card (
      box (
        typography "subtitle1" group.name
        ∷ chip (show group.count <> " 条记录") "primary" "outlined"
        ∷ [])
      ∷ table ("转发目标" ∷ []) (map target_row group.forwards)
      ∷ [])

  unfoldable pub forwards_section : Query ForwardsResponse → List (Node M)
  unfolding forward_group
  forwards_section q =
      let groups = groups_of q.value in
      if q.is_loading
      then skeletons 3 ∷ []
      else if q.error
      then error_alert "加载转发规则失败" ∷ []
      else if length groups == 0
      then empty_card "暂无转发规则" ∷ []
      else map forward_group groups

  unfoldable pub view : Query ForwardsResponse → Node M
  unfolding forwards_section
  view q =
      box (
        box (typography "h6" ("转发规则 (" <> show (count_of q.value) <> ")") ∷ [])
        ∷ forwards_section q)
