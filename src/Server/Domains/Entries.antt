-- ===== src/Server/Domains/Entries.antt =====
-- The entries of the maps of src/collections.rs, and a list that grows and is filtered.
use smartdns_rs.Prelude.{
  Bool, Bool-cases, List, [], ap, arith, inl, inr, keep_if, none, refl, some, subst, sym, true, ℕ,
  ◌++◌, ◌==◌, ◌∙◌, ◌∷◌, ◌≡◌, ◌≢◌, ◌⊎◌,
}
use smartdns_rs.Server.Domains.Map.{drop_key, get, put}

module _ {T : Type 0} where
  pub get-put_self : (k : ℕ) (v : T) (es : List (ℕ × T)) → get k (put k v es) ≡ some v
  unfolding get put
  get-put_self k v [] = ground arith
  get-put_self k v ((j, u) ∷ es) = ground (arith, get-put_self k v es)

  pub get-put_other : (i k : ℕ) (v : T) (es : List (ℕ × T)) → k ≢ i → get i (put k v es) ≡ get i es
  unfolding get put
  get-put_other i k v [] other = ground (arith, other)
  get-put_other i k v ((j, u) ∷ es) other = ground (arith, other, get-put_other i k v es other)

  pub get-drop_key_self : (k : ℕ) (es : List (ℕ × T)) → get k (drop_key k es) ≡ none
  unfolding get drop_key
  get-drop_key_self k [] = refl
  get-drop_key_self k ((j, u) ∷ es) = ground (arith, get-drop_key_self k es)

  pub get-drop_key_other : (i k : ℕ) (es : List (ℕ × T)) → k ≢ i → get i (drop_key k es) ≡ get i es
  unfolding get drop_key
  get-drop_key_other i k [] other = refl
  get-drop_key_other i k ((j, u) ∷ es) other =
      ground (arith, other, get-drop_key_other i k es other)

pub keys-cases : (i k : ℕ) → (k ≡ i) ⊎ (k ≢ i)
keys-cases i k = elim (Bool-cases (k == i)) [
  | inl same ↦ inl (ground (arith, same))
  | inr other ↦ inr (λ same. ground (arith, same, other))
]

module _ {A : Type 0} where
  unfoldable pub IsListed : A → List A → Type 0
  IsListed a [] = ⊥
  IsListed a (x ∷ xs) = (a ≡ x) ⊎ IsListed a xs

  pub snoc-IsListed : (a b : A) (xs : List A) → IsListed a xs → IsListed a (xs ++ b ∷ [])
  unfolding IsListed
  snoc-IsListed a b [] h = absurd h
  snoc-IsListed a b (x ∷ xs) (inl same) = inl same
  snoc-IsListed a b (x ∷ xs) (inr rest) = inr (snoc-IsListed a b xs rest)

  pub snoc-IsListed_self : (a : A) (xs : List A) → IsListed a (xs ++ a ∷ [])
  unfolding IsListed
  snoc-IsListed_self a [] = inl refl
  snoc-IsListed_self a (x ∷ xs) = inr (snoc-IsListed_self a xs)

  pub keep_if-IsListed :
      (p : A → Bool) (a : A) (xs : List A) → p a ≡ true → IsListed a xs → IsListed a (keep_if p xs)
  unfolding IsListed
  keep_if-IsListed p a [] kept h = absurd h
  keep_if-IsListed p a (x ∷ xs) kept (inl same) = elim (Bool-cases (p x)) [
    | inl y ↦ rw y (inl same)
    | inr n ↦ absurd (cc (n, kept, ap p same))
  ]
  keep_if-IsListed p a (x ∷ xs) kept (inr rest) =
      let later = keep_if-IsListed p a xs kept rest in
      elim (Bool-cases (p x)) [ inl y ↦ rw y (inr later) | inr n ↦ rw n later ]

module _ {T : Type 0} where
  -- A property of the values of a map holds after a value is put that has it.
  pub put-values :
      (P : T → Type 0) (k : ℕ) (v : T) (es : List (ℕ × T))
      → P v
      → ((i : ℕ) (u : T) → get i es ≡ some u → P u)
      → (i : ℕ) (u : T) → get i (put k v es) ≡ some u
      → P u
  put-values P k v es new old i u found = elim (keys-cases i k) [
    | inl same ↦ let value : v ≡ u = cc (get-put_self k v es, same, found) in subst P value new
    | inr other ↦ old i u (sym (get-put_other i k v es other) ∙ found)
  ]
