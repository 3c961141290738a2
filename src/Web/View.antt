-- ===== src/Web/View.antt =====
-- The elements that a component returns. Styling (`sx`, sizes, fonts, icons that only decorate) is
-- left out; a slot property that holds an element, such as `startIcon`, is a child under a tag of
-- its name.
use smartdns_rs.Prelude.{
  Bool, List, [], false, flat_map, if◌then◌else◌, map, not, refl, suc, zero, ℕ, ◌&&◌, ◌++◌, ◌=s=◌,
  ◌||◌, ◌∷◌, ◌≡◌,
}
use Prim.Native.String.{String}

-- A property of an element; a handler is the message that it sends to the component.
pub data Attr (M : Type 0) : Type 0 where
  prop : String → String → Attr M
  flag : String → Bool → Attr M
  num : String → ℕ → Attr M
  on_click : M → Attr M
  on_close : M → Attr M
  on_input : (String → M) → Attr M
  on_select : (ℕ → M) → Attr M

mutual
  pub data Node (M : Type 0) : Type 0 where
    text : String → Node M
    el : String → List (Attr M) → Nodes M → Node M

  pub data Nodes (M : Type 0) : Type 0 where
    nil : Nodes M
    cons : Node M → Nodes M → Nodes M

module _ {M : Type 0} where
  abbrev pub nodes : List (Node M) → Nodes M
  nodes [] = nil
  nodes (x ∷ xs) = cons x (nodes xs)

  -- `<tag …attrs>…children</tag>`
  abbrev pub tag : String → List (Attr M) → List (Node M) → Node M
  tag name attrs children = el name attrs (nodes children)

  -- `Array.from({ length: n }).map(…)` over equal elements.
  abbrev pub copies : ℕ → Node M → List (Node M)
  copies zero x = []
  copies (suc n) x = x ∷ copies n x

  abbrev pub is_disabled : List (Attr M) → Bool
  is_disabled [] = false
  is_disabled (flag name b ∷ attrs) = (name =s= "disabled" && b) || is_disabled attrs
  is_disabled (_ ∷ attrs) = is_disabled attrs

  abbrev pub pressed : List (Attr M) → List M
  pressed [] = []
  pressed (on_click m ∷ attrs) = m ∷ pressed attrs
  pressed (_ ∷ attrs) = pressed attrs

  -- The close button that an alert with a handler `onClose` has.
  abbrev pub close_button : String → List (Attr M) → List M
  close_button name [] = []
  close_button name (on_close m ∷ attrs) =
      (if name =s= "Alert" then m ∷ [] else []) ++ close_button name attrs
  close_button name (_ ∷ attrs) = close_button name attrs

  -- A snackbar that is not open shows nothing.
  abbrev pub is_hidden : String → List (Attr M) → Bool
  is_hidden tag_name [] = false
  is_hidden tag_name (flag name b ∷ attrs) =
      (tag_name =s= "Snackbar" && name =s= "open" && not b) || is_hidden tag_name attrs
  is_hidden tag_name (_ ∷ attrs) = is_hidden tag_name attrs

abbrev mutual
  -- The messages that a press of an enabled control sends, in the order of the controls; of what
  -- is in a snackbar only while it is open.
  pub presses : {M : Type 0} → Node M → List M
  presses (text s) = []
  presses (el name attrs children) =
      if is_hidden name attrs
      then []
      else (if is_disabled attrs then [] else pressed attrs)
        ++ close_button name attrs
        ++ presses_all children

  pub presses_all : {M : Type 0} → Nodes M → List M
  presses_all nil = []
  presses_all (cons x xs) = presses x ++ presses_all xs

abbrev mutual
  -- The attributes of the elements with one tag, in order.
  pub tagged : {M : Type 0} → String → Node M → List (List (Attr M))
  tagged name (text s) = []
  tagged name (el name' attrs children) =
      (if name' =s= name then attrs ∷ [] else []) ++ tagged_all name children

  pub tagged_all : {M : Type 0} → String → Nodes M → List (List (Attr M))
  tagged_all name nil = []
  tagged_all name (cons x xs) = tagged name x ++ tagged_all name xs

abbrev mutual
  -- The texts shown, in order.
  pub texts : {M : Type 0} → Node M → List String
  texts (text s) = s ∷ []
  texts (el name attrs children) = texts_all children

  pub texts_all : {M : Type 0} → Nodes M → List String
  texts_all nil = []
  texts_all (cons x xs) = texts x ++ texts_all xs

-- The same element, its messages wrapped for the component around it.
abbrev pub map_attr : {M L : Type 0} → (M → L) → Attr M → Attr L
map_attr f (prop name s) = prop name s
map_attr f (flag name b) = flag name b
map_attr f (num name n) = num name n
map_attr f (on_click m) = on_click (f m)
map_attr f (on_close m) = on_close (f m)
map_attr f (on_input h) = on_input (λ s. f (h s))
map_attr f (on_select h) = on_select (λ n. f (h n))

abbrev mutual
  pub map_node : {M L : Type 0} → (M → L) → Node M → Node L
  map_node f (text s) = text s
  map_node f (el name attrs children) = el name (map (map_attr f) attrs) (map_nodes f children)

  pub map_nodes : {M L : Type 0} → (M → L) → Nodes M → Nodes L
  map_nodes f nil = nil
  map_nodes f (cons x xs) = cons (map_node f x) (map_nodes f xs)

module _ {A M : Type 0} where
  -- Rows of one kind: what each sends, all of them send.
  pub presses_all-map :
      (row : A → Node M) (send : A → List M)
      → ((x : A) → presses (row x) ≡ send x)
      → (xs : List A) → presses_all (nodes (map row xs)) ≡ flat_map send xs
  unfolding flat_map
  presses_all-map row send h [] = refl
  presses_all-map row send h (x ∷ xs) = rw (h x, presses_all-map row send h xs)

  pub tagged_all-map :
      (name : String) (row : A → Node M)
      → ((x : A) → tagged name (row x) ≡ [])
      → (xs : List A) → tagged_all name (nodes (map row xs)) ≡ []
  tagged_all-map name row h [] = refl
  tagged_all-map name row h (x ∷ xs) = rw (h x, tagged_all-map name row h xs)

  pub texts_all-map :
      (row : A → Node M) (show_row : A → List String)
      → ((x : A) → texts (row x) ≡ show_row x)
      → (xs : List A) → texts_all (nodes (map row xs)) ≡ flat_map show_row xs
  unfolding flat_map
  texts_all-map row show_row h [] = refl
  texts_all-map row show_row h (x ∷ xs) = rw (h x, texts_all-map row show_row h xs)
