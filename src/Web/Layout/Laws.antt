-- ===== src/Web/Layout/Laws.antt =====
-- The navigation of the dashboard.
use smartdns_rs.Prelude.{Bool, List, [], false, keep_if, refl, true, ◌&&◌, ◌=s=◌, ◌||◌, ◌∷◌, ◌≡◌}
use smartdns_rs.Web.Layout.{
  Dashboard, update, DashboardTab, overview, upstream, cache, rules, querylog, LayoutMsg, go_to,
  drawer, nav_button,
}
use smartdns_rs.Web.View.{Attr, flag, on_click, presses, tagged}

abbrev pub is_selected : List (Attr LayoutMsg) → Bool
is_selected [] = false
is_selected (flag name b ∷ attrs) = (name =s= "selected" && b) || is_selected attrs
is_selected (_ ∷ attrs) = is_selected attrs

-- The buttons that a drawer marks as selected.
abbrev pub selected : Dashboard → List (List (Attr LayoutMsg))
selected s = keep_if is_selected (tagged "ListItemButton" (drawer s))

abbrev pub marked : DashboardTab → List (List (Attr LayoutMsg))
marked tab = (on_click (go_to tab) ∷ flag "selected" true ∷ []) ∷ []

selected_button :
    (tab : DashboardTab) (b : Bool)
    → selected (record { current_tab = tab; mobile_open = b }) ≡ marked tab
unfolding drawer nav_button
selected_button overview b = refl
selected_button upstream b = refl
selected_button cache b = refl
selected_button rules b = refl
selected_button querylog b = refl

-- In every state just one navigation button is marked as selected, the one that leads to the
-- current tab; each drawer has a button to each of the five tabs, in the order of the list; and a
-- press of a button selects it and closes the drawer.
selected-current_tab :
    (s : Dashboard)
    → (selected s ≡ marked s.current_tab)
      × (presses (drawer s)
          ≡ go_to overview ∷ go_to upstream ∷ go_to cache ∷ go_to rules ∷ go_to querylog ∷ [])
      × ((tab : DashboardTab)
          → (selected (update s (go_to tab)) ≡ marked tab)
            × ((update s (go_to tab)).mobile_open ≡ false))
unfolding drawer nav_button update
selected-current_tab s =
    (selected_button s.current_tab s.mobile_open, refl, λ tab. (selected_button tab false, refl))
