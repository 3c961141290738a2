-- ===== src/Server/DnsCache/Lru/Lists.antt =====
-- Lists of entries with distinct uses, most recent first: what the documentation of `lru` speaks of.
use smartdns_rs.Prelude.{
  Bool, Bool-cases, List, Option, Option-cases, [], ap, arith, false, if◌then◌else◌, inl, inr,
  length, ltb, none, refl, some, true, ℕ, ◌+◌, ◌-◌, ◌<◌, ◌↔◌, ◌∙◌, ◌∷◌, ◌≡◌, ◌≤◌,
}

module _ {K V : Type 0} where
  abbrev pub last : List (K × V) → Option (K × V)
  last [] = none
  last (e ∷ []) = some e
  last (e ∷ f ∷ es) = last (f ∷ es)

  -- All but the last.
  abbrev pub front : List (K × V) → List (K × V)
  front [] = []
  front (e ∷ []) = []
  front (e ∷ f ∷ es) = e ∷ front (f ∷ es)

  -- What the entries weigh.
  abbrev pub weigh : (K → V → ℕ) → List (K × V) → ℕ
  weigh w [] = 0
  weigh w ((k, v) ∷ es) = w k v + weigh w es

  abbrev pub weight_of : (K → V → ℕ) → Option (K × V) → ℕ
  weight_of w none = 0
  weight_of w (some (k, v)) = w k v

  pub weigh-front :
      (w : K → V → ℕ) (es : List (K × V)) → weigh w (front es) + weight_of w (last es) ≡ weigh w es
  weigh-front w [] = refl
  weigh-front w (e ∷ []) = omega arith
  weigh-front w (e ∷ f ∷ es) = omega (arith, weigh-front w (f ∷ es))

  pub length-front : (es : List (K × V)) → length (front es) ≡ length es - 1
  length-front [] = omega arith
  length-front (e ∷ []) = omega arith
  length-front (e ∷ f ∷ es) = omega (arith, length-front (f ∷ es))

  pub last-none : (es : List (K × V)) → last es ≡ none → es ≡ []
  last-none [] h = refl
  last-none (e ∷ []) h = absurd (ground arith)
  last-none (e ∷ f ∷ es) h = absurd (ground (arith, last-none (f ∷ es) h))

  pub last-some : (es : List (K × V)) (e : K × V) → last es ≡ some e → 1 ≤ length es
  last-some [] e h = absurd (ground arith)
  last-some (f ∷ es) e h = omega arith

module _ {K V : Type 0} (same : K → K → Bool) where
  abbrev pub find : K → List (K × V) → Option V
  find k [] = none
  find k ((k', v) ∷ es) = if same k' k then some v else find k es

  abbrev pub erase : K → List (K × V) → List (K × V)
  erase k [] = []
  erase k ((k', v) ∷ es) = if same k' k then es else (k', v) ∷ erase k es

  abbrev pub put_first : K → V → List (K × V) → List (K × V)
  put_first k v es = (k, v) ∷ erase k es

  abbrev push_over : ℕ → K → V → List (K × V) → Option V → Option (K × V) × List (K × V)
  push_over room k v es (some old) = (some (k, old), put_first k v es)
  push_over room k v es none =
      if ltb (length es) room then (none, (k, v) ∷ es) else (last es, (k, v) ∷ front es)

  -- The entry handed back, and the entries left, by a capacity.
  unfoldable pub list_push : ℕ → K → V → List (K × V) → Option (K × V) × List (K × V)
  list_push room k v es = push_over room k v es (find k es)

  list_push_eq :
      (room : ℕ) (k : K) (v : V) (es : List (K × V)) {o : Option V}
      → find k es ≡ o
      → list_push room k v es ≡ push_over room k v es o
  unfolding list_push
  list_push_eq room k v es h = ap (push_over room k v es) h

  module _ (same_iff : (a b : K) → (same a b ≡ true) ↔ (a ≡ b)) where
    pub weigh-erase :
        (w : K → V → ℕ) (k : K) (old : V) (es : List (K × V))
        → find k es ≡ some old
        → weigh w (erase k es) + w k old ≡ weigh w es
    weigh-erase w k old [] h = absurd (ground arith)
    weigh-erase w k old ((k', v) ∷ es) h = elim (Bool-cases (same k' k)) [
      | inl hit ↦
          let e : k' ≡ k = (same_iff k' k).0 hit in
          let same_value : v ≡ old = ground (arith, hit, h) in rw (hit, e, same_value) (omega arith)
      | inr miss ↦ ground (arith, miss, weigh-erase w k old es)
    ]

    -- An entry that leaves takes no other with it.
    pub find-erase :
        (k k' : K) (es : List (K × V)) → same k' k ≡ false → find k (erase k' es) ≡ find k es
    find-erase k k' [] other = refl
    find-erase k k' ((k'', v) ∷ es) other = elim (Bool-cases (same k'' k')) [
      | inl hit ↦
          let e : k'' ≡ k' = (same_iff k'' k').0 hit in
          let miss : same k'' k ≡ false = ap (λ x. same x k) e ∙ other in rw (hit, miss) refl
      | inr miss ↦ ground (arith, miss, find-erase k k' es other)
    ]

    pub length-erase :
        (k : K) (old : V) (es : List (K × V))
        → find k es ≡ some old
        → length (erase k es) + 1 ≡ length es
    length-erase k old [] h = absurd (ground arith)
    length-erase k old ((k', v) ∷ es) h = ground (arith, length-erase k old es)

    -- A push keeps the weight in balance with what it hands back.
    pub weigh-list_push :
        (w : K → V → ℕ) (room : ℕ) (k : K) (v : V) (es : List (K × V))
        → weigh w (list_push room k v es).1 + weight_of w (list_push room k v es).0
          ≡ weigh w es + w k v
    weigh-list_push w room k v es = elim (Option-cases (find k es)) [
      | inl absent ↦ rw (list_push_eq room k v es absent) (ground (arith, weigh-front w es))
      | inr (old, found) ↦
          rw (list_push_eq room k v es found) (omega (arith, weigh-erase w k old es found))
    ]

    pub length-list_push :
        (room : ℕ) (k : K) (v : V) (es : List (K × V))
        → 0 < room
        → length es ≤ room
        → length (list_push room k v es).1 ≤ room
    length-list_push room k v es pos full = elim (Option-cases (find k es)) [
      | inl absent ↦ rw (list_push_eq room k v es absent) (ground (arith, length-front es))
      | inr (old, found) ↦
          rw (list_push_eq room k v es found) (omega (arith, length-erase k old es found))
    ]

    pub find-list_push :
        (room : ℕ) (k : K) (v : V) (es : List (K × V)) → find k (list_push room k v es).1 ≡ some v
    find-list_push room k v es = elim (Option-cases (find k es)) [
      | inl absent ↦ rw (list_push_eq room k v es absent) (ground (arith, (same_iff k k).1 refl))
      | inr (old, found) ↦
          rw (list_push_eq room k v es found) (ground (arith, (same_iff k k).1 refl))
    ]
