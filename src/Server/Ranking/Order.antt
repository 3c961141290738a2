-- ===== src/Server/Ranking/Order.antt =====
-- The order of a ranking, and what a limit leaves out.
use smartdns_rs.Prelude.{
  All, Bool-cases, List, Option, [], arith, drop, inl, inr, length, length-take, some, suc, take,
  take-append-drop, zero, ℕ, ◌++◌, ◌∷◌, ◌≡◌, ◌≤◌,
}
use smartdns_rs.Server.Audit.{QueryLogEntry}
use smartdns_rs.Server.Ranking.{
  Float, NameCount, Tally, insert_row, sort_rows, aggregate, compare_rows, is_greater, rank_limit,
  top_domains,
}

module _ (fl : Float) where
  open fl use {F}

  -- No row counts more than one before it.
  abbrev pub IsRanked : List (NameCount F) → Type 0
  IsRanked [] = Unit
  IsRanked (r ∷ rs) = All (λ (s : NameCount F). s.count ≤ r.count) rs × IsRanked rs

  All-le :
      (m n : ℕ) (rs : List (NameCount F))
      → m ≤ n
      → All (λ (s : NameCount F). s.count ≤ m) rs
      → All (λ (s : NameCount F). s.count ≤ n) rs
  All-le m n [] le h = tt
  All-le m n (r ∷ rs) le (h, hs) = (omega arith, All-le m n rs le hs)

  All-insert_row :
      (n : ℕ) (r : NameCount F) (rs : List (NameCount F))
      → r.count ≤ n
      → All (λ (s : NameCount F). s.count ≤ n) rs
      → All (λ (s : NameCount F). s.count ≤ n) (insert_row fl r rs)
  unfolding insert_row
  All-insert_row n r [] le h = (le, tt)
  All-insert_row n r (s ∷ ss) le (h, hs) = elim (Bool-cases (is_greater (compare_rows fl r s))) [
    | inl after ↦ rw after (h, All-insert_row n r ss le hs)
    | inr before ↦ rw before (le, (h, hs))
  ]

  insert_row-IsRanked :
      (r : NameCount F) (rs : List (NameCount F)) → IsRanked rs → IsRanked (insert_row fl r rs)
  unfolding insert_row compare_rows
  insert_row-IsRanked r [] h = (tt, tt)
  insert_row-IsRanked r (s ∷ ss) (h, hs) = elim (Bool-cases (is_greater (compare_rows fl r s))) [
    | inl after ↦
        rw after (All-insert_row s.count r ss (ground arith) h, insert_row-IsRanked r ss hs)
    | inr before ↦ rw before ((ground arith, All-le s.count r.count ss (ground arith) h), (h, hs))
  ]

  sort_rows-IsRanked : (rs : List (NameCount F)) → IsRanked (sort_rows fl rs)
  unfolding sort_rows
  sort_rows-IsRanked [] = tt
  sort_rows-IsRanked (r ∷ rs) = insert_row-IsRanked r (sort_rows fl rs) (sort_rows-IsRanked rs)

  take-All :
      (n m : ℕ) (rs : List (NameCount F))
      → All (λ (s : NameCount F). s.count ≤ m) rs
      → All (λ (s : NameCount F). s.count ≤ m) (drop n rs)
  take-All zero m rs h = h
  take-All (suc n) m [] h = tt
  take-All (suc n) m (r ∷ rs) (h, hs) = take-All n m rs hs

  -- Of ranked rows, those behind a cut count at most what each row before it does.
  IsRanked-cut :
      (n : ℕ) (rs : List (NameCount F))
      → IsRanked rs
      → All
          (λ (shown : NameCount F).
            All (λ (out : NameCount F). out.count ≤ shown.count) (drop n rs))
          (take n rs)
  IsRanked-cut zero rs h = tt
  IsRanked-cut (suc n) [] h = tt
  IsRanked-cut (suc n) (r ∷ rs) (h, hs) = (take-All n r.count rs h, IsRanked-cut n rs hs)

  -- A ranking of domains is ordered by its counts, from high to low; what is shown of it is its
  -- first rows up to the limit, at most 100, and every row left out counts at most what each row
  -- shown does.
  pub aggregate-IsRanked :
      (into_iter : List (Tally F) → List (Tally F)) (ring : List (QueryLogEntry F))
      (limit : Option ℕ)
      → let rows = aggregate fl into_iter ring (λ e. some e.domain) in
        let shown = top_domains fl into_iter ring limit in
        IsRanked rows
        × (shown ++ drop (rank_limit limit) rows ≡ rows)
        × All
            (λ (r : NameCount F).
              All (λ (out : NameCount F). out.count ≤ r.count) (drop (rank_limit limit) rows))
            shown
        × (length shown ≤ 100)
  unfolding aggregate top_domains
  aggregate-IsRanked into_iter ring limit =
      let rows = aggregate fl into_iter ring (λ e. some e.domain) in
      let ranked = sort_rows-IsRanked _ in
      (
        ranked,
        take-append-drop (rank_limit limit) rows,
        IsRanked-cut (rank_limit limit) rows ranked,
        omega (arith, length-take (rank_limit limit) rows),
      )
