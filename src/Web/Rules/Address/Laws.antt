-- ===== src/Web/Rules/Address/Laws.antt =====
-- The requests that the controls of the address rules can start.
use smartdns_rs.Prelude.{
  Bool, Bool-cases, List, [], append-nil, arith, eq-nil_of_length, flat_map, flat_map-append,
  if◌then◌else◌, inl, inr, is_empty, length, map, refl, ◌++◌, ◌==◌, ◌||◌, ◌∷◌, ◌≡◌,
}
use Prim.Native.String.{String}
use smartdns_rs.Web.Api.{AddressEntry, AddressesResponse}
use smartdns_rs.Web.Api.Hooks.{MutationOptions, use_create_address, use_delete_address}
use smartdns_rs.Web.Parts.{snackbar_view}
use smartdns_rs.Web.Rules.Address.{close_snackbar, AddressTab, AddressMsg, update}
use smartdns_rs.Web.Rules.Address.View.{
  entries_of, title_bar, address_row, address_table, rules_section, add_dialog, view,
}
use smartdns_rs.Web.Runtime.{Json, Query}
use smartdns_rs.Web.View.{Node, presses}

module _ (stringify : Json → String) where
  -- The requests that presses of the enabled controls of an element start.
  abbrev pub requests : AddressTab → Node AddressMsg → List MutationOptions
  requests s x = flat_map (λ m. (update stringify s m).1) (presses x)

  -- The dialog can start a request just where none is pending and both texts are given, and it is
  -- the request to create the rule that the texts show.
  pub requests-add_dialog :
      (s : AddressTab) (adding : Bool)
      → requests s (add_dialog s adding) ≡ (
          if adding || is_empty s.domain || is_empty s.address
          then []
          else use_create_address stringify s.domain s.address ∷ [])
  unfolding add_dialog update flat_map
  requests-add_dialog s adding = ground arith

  requests-address_table :
      (s : AddressTab) (deleting : Bool) (entries : List AddressEntry)
      → requests s (address_table deleting entries)
        ≡ (if deleting then [] else map (λ e. use_delete_address stringify e.domain) entries)
  unfolding address_table address_row update flat_map
  requests-address_table s deleting [] = ground arith
  requests-address_table s deleting (e ∷ es) = ground (arith, requests-address_table s deleting es)

  requests-rules_section :
      (s : AddressTab) (q : Query AddressesResponse) (deleting : Bool)
      → requests s (rules_section q deleting) ≡ (
          if deleting || q.is_loading || q.error
          then []
          else map (λ e. use_delete_address stringify e.domain) (entries_of q.value))
  unfolding rules_section flat_map
  requests-rules_section s q deleting =
      let entries = entries_of q.value in
      elim (Bool-cases (length entries == 0)) [
        | inl none_shown ↦ rw (eq-nil_of_length entries (ground arith)) (ground arith)
        | inr shown ↦ ground (arith, requests-address_table s deleting entries)
      ]

  requests-snackbar_view :
      (s : AddressTab) → requests s (snackbar_view close_snackbar s.snackbar) ≡ []
  unfolding update flat_map
  requests-snackbar_view s = elim (Bool-cases s.snackbar.opened) [
    | inl open_now ↦ rw open_now refl
    | inr shut ↦ rw shut refl
  ]

  -- The whole tab: where no mutation is pending the list can start, for each rule that it shows
  -- and in their order, the request to delete it, and the dialog the request to create the rule
  -- of its texts, if both are given; a pending deletion disables the former, a pending creation
  -- the latter, and while the list is loading or in error there is nothing to delete.
  requests-view :
      (s : AddressTab) (q : Query AddressesResponse) (adding deleting : Bool)
      → requests s (view s q adding deleting)
        ≡ (if deleting || q.is_loading || q.error
            then []
            else map (λ e. use_delete_address stringify e.domain) (entries_of q.value))
          ++ (if adding || is_empty s.domain || is_empty s.address
              then []
              else use_create_address stringify s.domain s.address ∷ [])
  unfolding view title_bar update flat_map use_create_address
  requests-view s q adding deleting = simp (
    flat_map-append,
    append-nil,
    requests-rules_section s q deleting,
    requests-add_dialog s adding,
    requests-snackbar_view s,
  )
