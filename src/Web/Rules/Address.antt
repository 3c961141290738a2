-- ===== src/Web/Rules/Address.antt =====
-- `AddressRulesTab` of webui/src/app/dashboard/page.tsx: its state and handlers.
pub mod View
pub mod Laws
pub mod Submit
pub mod Withdraw
use smartdns_rs.Prelude.{Bool, List, [], false, if◌then◌else◌, is_empty, ◌||◌, ◌∷◌}
use Prim.Native.String.{String}
use smartdns_rs.Web.Api.Hooks.{MutationOptions, use_create_address, use_delete_address}
use smartdns_rs.Web.Parts.{Snackbar, success, error, no_snackbar, notify, close}
use smartdns_rs.Web.Runtime.{Json}

pub record AddressTab : Type 0 where
  pub dialog_open : Bool
  pub domain : String
  pub address : String
  pub snackbar : Snackbar

abbrev pub init : AddressTab
init = record { dialog_open = false; domain = ""; address = ""; snackbar = no_snackbar }

pub data AddressMsg : Type 0 where
  set_dialog_open : Bool → AddressMsg
  set_domain : String → AddressMsg
  set_address : String → AddressMsg
  handle_add : AddressMsg
  -- the callbacks of `createAddress.mutate`
  add_success add_error : AddressMsg
  handle_delete : String → AddressMsg
  -- the callbacks of `deleteAddress.mutate`
  delete_success delete_error : AddressMsg
  close_snackbar : AddressMsg

-- The state after a handler, and the mutations that it starts; `stringify` is `JSON.stringify`.
unfoldable pub update :
    (Json → String) → AddressTab → AddressMsg → AddressTab × List MutationOptions
update stringify s (set_dialog_open b) = (record s { dialog_open = b }, [])
update stringify s (set_domain text) = (record s { domain = text }, [])
update stringify s (set_address text) = (record s { address = text }, [])
update stringify s handle_add =
    if is_empty s.domain || is_empty s.address
    then (s, [])
    else (s, use_create_address stringify s.domain s.address ∷ [])
update stringify s add_success = (
  record s { snackbar = notify "地址规则添加成功" success; dialog_open = false; domain = ""; address = "" },
  [],
)
update stringify s add_error = (record s { snackbar = notify "添加地址规则失败" error }, [])
update stringify s (handle_delete d) = (s, use_delete_address stringify d ∷ [])
update stringify s delete_success = (record s { snackbar = notify "地址规则已删除" success }, [])
update stringify s delete_error = (record s { snackbar = notify "删除地址规则失败" error }, [])
update stringify s close_snackbar = (record s { snackbar = close s.snackbar }, [])
