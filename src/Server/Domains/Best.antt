-- ===== src/Server/Domains/Best.antt =====
-- What a level of `find` of src/collections.rs gives: the best of the stored rules that match, among
-- those that are less specific than a bound.
use smartdns_rs.Prelude.{
  All, Bool-cases, List, Option, [], ap, arith, if_false, if_true, if◌then◌else◌, inl, inr, none,
  refl, some, sym, true, ℕ, ◌+◌, ◌∙◌, ◌∷◌, ◌≡◌, ◌≤◌, ◌⊎◌,
}
use smartdns_rs.Server.Domains.{Names, WildcardName, is_match}
use smartdns_rs.Server.Domains.Map.{DomainMap, first_wildcard, or_else, value_of}
use smartdns_rs.Server.Domains.Matching.{is_match-labels, specificity}
use smartdns_rs.Server.Domains.Entries.{IsListed}
use smartdns_rs.Server.Domains.Sound.{IsStored, IsWild}

pub or_else_assoc :
    {A : Type 0} (a b c : Option A) → or_else (or_else a b) c ≡ or_else a (or_else b c)
or_else_assoc none b c = refl
or_else_assoc (some x) b c = refl

module _ {A : Type 0} where
  pub or_else-some :
      (a b : Option A) (x : A) → or_else a b ≡ some x → (a ≡ some x) ⊎ ((a ≡ none) × (b ≡ some x))
  or_else-some none b x e = inr (refl, e)
  or_else-some (some y) b x e = inl e

  or_else-none : (a b : Option A) → or_else a b ≡ none → (a ≡ none) × (b ≡ none)
  or_else-none none b e = (refl, e)
  or_else-none (some x) b e = absurd (cc e)

module _ {N L W : Type 0} (H : Names N L W) (K : WildcardName N W → Type 0) {T : Type 0}
    (m : DomainMap N W T) (q : N) where
  -- A stored rule that the query matches, less specific than `b`.
  abbrev pub IsCandidate : ℕ → WildcardName N W → T → Type 0
  IsCandidate b w v = IsStored H K m w v × (is_match H w q ≡ true) × (specificity H w + 1 ≤ b)

  abbrev pub IsBest : ℕ → WildcardName N W → T → Type 0
  IsBest b w v =
      IsCandidate b w v
      × ((x : WildcardName N W) (u : T) → IsCandidate b x u → specificity H x ≤ specificity H w)

  abbrev pub Best : ℕ → Option T → Type 0
  Best b o =
      ((o ≡ none) × ((w : WildcardName N W) (v : T) → ¬ IsCandidate b w v))
      ⊎ ((w : WildcardName N W) × (v : T) × (o ≡ some v) × IsBest b w v)

  -- A test that comes before the others.
  pub try-Best :
      (b c : ℕ) (o rest : Option T)
      → ((v : T) → o ≡ some v → (w : WildcardName N W) × IsBest b w v)
      → (o ≡ none → (w : WildcardName N W) (v : T) → IsCandidate b w v → IsCandidate c w v)
      → c ≤ b
      → Best c rest
      → Best b (or_else o rest)
  try-Best b c (some v) rest hit miss le later =
      let (w, best) = hit v refl in inr (w, v, refl, best)
  try-Best b c none rest hit miss le (inl (nothing, never)) =
      inl (nothing, λ w v h. never w v (miss refl w v h))
  try-Best b c none rest hit miss le (inr (w, v, found, (stored, best))) = inr (
    w,
    v,
    found,
    ((stored.0, stored.1, omega (arith, stored.2, le)), λ x u h. best x u (miss refl x u h)),
  )

  -- A rule right under the bound is the best.
  pub top-IsBest :
      (b : ℕ) (w : WildcardName N W) (v : T)
      → IsStored H K m w v
      → is_match H w q ≡ true
      → specificity H w + 1 ≡ b
      → IsBest b w v
  top-IsBest b w v stored same top =
      ((stored, same, omega (arith, top)), λ x u h. omega (arith, top, h.2))

  -- A lower bound that leaves the same candidates.
  pub lower-Best :
      (b c : ℕ) (o : Option T)
      → ((w : WildcardName N W) (v : T) → IsCandidate b w v → specificity H w + 1 ≤ c)
      → c ≤ b
      → Best c o
      → Best b o
  lower-Best b c o under le h =
      try-Best b c none o (λ v e. absurd (cc e))
        (λ e w v (stored, same, low). (stored, same, under w v (stored, same, low))) le h

  -- The candidate that the wildcards of a name give.
  pub first_wildcard-hit :
      (last : N) (ws : List (WildcardName N W)) (v : T)
      → H.labels last ≡ H.labels q
      → All (IsWild H K) ws
      → first_wildcard H m last ws ≡ some v
      → (w : WildcardName N W) × IsWild H K w × IsStored H K m w v × (is_match H w q ≡ true)
  unfolding first_wildcard
  first_wildcard-hit last [] v same wild h = absurd (cc h)
  first_wildcard-hit last (w ∷ ws) v same ((is, known), wild) h =
      let later = first_wildcard-hit last ws v same wild in
      elim (or_else-some (if is_match H w last then value_of H m w else none)
        (first_wildcard H m last ws) v h) [
          | inr (absent, found) ↦ later found
          | inl found ↦ elim (Bool-cases (is_match H w last)) [
            | inr other ↦ absurd (cc (found, if_false _ other (value_of H m w) none))
            | inl matched ↦ (
              w,
              (is, known),
              (known, sym (if_true _ matched (value_of H m w) none) ∙ found),
              is_match-labels H w last q is same matched,
            )
          ]
        ]

  -- A wildcard that is listed and matches is not overlooked.
  pub first_wildcard-miss :
      (last : N) (ws : List (WildcardName N W)) (w : WildcardName N W)
      → IsListed w ws
      → is_match H w last ≡ true
      → first_wildcard H m last ws ≡ none
      → value_of H m w ≡ none
  unfolding first_wildcard IsListed
  first_wildcard-miss last [] w listed same h = absurd listed
  first_wildcard-miss last (x ∷ ws) w listed same h =
      let (never, later) =
        or_else-none (if is_match H x last then value_of H m x else none)
          (first_wildcard H m last ws) h in
      elim listed [
        | inl here ↦
            let match_here : is_match H x last ≡ true =
              ap (λ r. is_match H r last) (sym here) ∙ same in
            ap (value_of H m) here ∙ sym (if_true _ match_here (value_of H m x) none) ∙ never
        | inr there ↦ first_wildcard-miss last ws w there same later
      ]
