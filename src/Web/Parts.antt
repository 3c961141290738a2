-- ===== src/Web/Parts.antt =====
-- Pieces that the tabs of the dashboard page repeat.
use smartdns_rs.Prelude.{Bool, List, [], false, true, ℕ, ◌∷◌}
use Prim.Native.String.{String}
use smartdns_rs.Web.View.{Node, prop, flag, num, on_close, text, tag, copies}

-- The state of a snackbar, `{ open, message, severity }`.
pub data Severity : Type 0 where
  success error : Severity

pub record Snackbar : Type 0 where
  pub opened : Bool
  pub message : String
  pub severity : Severity

-- The initial state.
abbrev pub no_snackbar : Snackbar
no_snackbar = record { opened = false; message = ""; severity = success }

abbrev pub notify : String → Severity → Snackbar
notify message severity = record { opened = true; message = message; severity = severity }

-- `setSnackbar((s) => ({ ...s, open: false }))`
abbrev pub close : Snackbar → Snackbar
close s = record s { opened = false }

abbrev pub severity_text : Severity → String
severity_text success = "success"
severity_text error = "error"

module _ {M : Type 0} where
  abbrev pub box : List (Node M) → Node M
  box = tag "Box" []

  abbrev pub typography : String → String → Node M
  typography variant s = tag "Typography" (prop "variant" variant ∷ []) (text s ∷ [])

  abbrev pub skeleton : String → Node M
  skeleton variant = tag "Skeleton" (prop "variant" variant ∷ []) []

  abbrev pub skeletons : ℕ → Node M
  skeletons n = box (copies n (skeleton "rounded"))

  abbrev pub error_alert : String → Node M
  error_alert message = tag "Alert" (prop "severity" "error" ∷ []) (text message ∷ [])

  abbrev pub card : List (Node M) → Node M
  card children = tag "Card" [] (tag "CardContent" [] children ∷ [])

  -- A card with a caption and what stands under it.
  abbrev pub stat_card : String → Node M → Node M
  stat_card title body = tag "Grid" [] (card (box (typography "body2" title ∷ []) ∷ body ∷ []) ∷ [])

  abbrev pub empty_card : String → Node M
  empty_card message = card (typography "" message ∷ [])

  abbrev pub cell : Node M → Node M
  cell x = tag "TableCell" [] (x ∷ [])

  abbrev pub chip : String → String → String → Node M
  chip label color variant =
      tag "Chip" (prop "label" label ∷ prop "color" color ∷ prop "variant" variant ∷ []) []

  abbrev pub head_cells : List String → List (Node M)
  head_cells [] = []
  head_cells (s ∷ ss) = cell (text s) ∷ head_cells ss

  -- A table by its column heads and its rows.
  abbrev pub table : List String → List (Node M) → Node M
  table heads rows = tag "TableContainer" [] (
      tag "Table" [] (
        tag "TableHead" [] (tag "TableRow" [] (head_cells heads) ∷ [])
        ∷ tag "TableBody" [] rows
        ∷ [])
      ∷ [])

  -- `<Snackbar>` with its alert; both close it by the same message.
  abbrev pub snackbar_view : M → Snackbar → Node M
  snackbar_view on_closed s =
      tag "Snackbar" (flag "open" s.opened ∷ num "autoHideDuration" 3000 ∷ on_close on_closed ∷ [])
        (tag "Alert"
            (on_close on_closed
              ∷ prop "severity" (severity_text s.severity)
              ∷ prop "variant" "filled"
              ∷ [])
            (text s.message ∷ [])
          ∷ [])
