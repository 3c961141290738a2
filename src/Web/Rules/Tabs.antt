-- ===== src/Web/Rules/Tabs.antt =====
-- `RulesTab` and `RulesTabPanel` of webui/src/app/dashboard/page.tsx. The panel that is not shown
-- is not mounted, so the address tab begins anew each time it is shown again.
use smartdns_rs.Prelude.{Bool, List, [], if◌then◌else◌, not, ℕ, ◌==◌, ◌∷◌}
use Prim.Native.String.{String}
use smartdns_rs.Web.Api.{AddressesResponse, ForwardsResponse}
use smartdns_rs.Web.Api.Hooks.{MutationOptions}
use smartdns_rs.Web.Parts.{box, typography, card}
use smartdns_rs.Web.Rules.Address
use smartdns_rs.Web.Rules.Address.{AddressTab, AddressMsg}
use smartdns_rs.Web.Rules.Address.View
use smartdns_rs.Web.Rules.Forward
use smartdns_rs.Web.Runtime.{Json, Query}
use smartdns_rs.Web.View.{Node, prop, num, flag, on_select, tag, map_node}

pub record RulesTab : Type 0 where
  pub tab : ℕ
  pub address : AddressTab

abbrev pub init : RulesTab
init = record { tab = 0; address = Address.init }

pub data RulesMsg : Type 0 where
  set_tab : ℕ → RulesMsg
  address : AddressMsg → RulesMsg

unfoldable pub update : (Json → String) → RulesTab → RulesMsg → RulesTab × List MutationOptions
update stringify s (set_tab v) =
    (record { tab = v; address = if v == s.tab then s.address else Address.init }, [])
update stringify s (address m) =
    let (a, sent) = Address.update stringify s.address m in (record s { address = a }, sent)

-- `RulesTabPanel`
unfoldable pub panel : {M : Type 0} → ℕ → ℕ → Node M → Node M
panel value index children =
    tag "Box" (prop "role" "tabpanel" ∷ flag "hidden" (not (value == index)) ∷ [])
      (if value == index then children ∷ [] else [])

module _ (stringify : Json → String) where
  unfoldable pub view :
      RulesTab → Query AddressesResponse → Query ForwardsResponse → Bool → Bool → Node RulesMsg
  view s addresses forwards adding deleting = box (
      typography "h4" "规则管理"
      ∷ card (
          tag "Tabs" (num "value" s.tab ∷ on_select set_tab ∷ [])
            (tag "Tab" (prop "label" "地址规则" ∷ []) [] ∷ tag "Tab" (prop "label" "转发规则" ∷ []) [] ∷ [])
          ∷ panel s.tab 0 (map_node address (View.view s.address addresses adding deleting))
          ∷ panel s.tab 1 (Forward.view stringify forwards)
          ∷ [])
      ∷ [])
