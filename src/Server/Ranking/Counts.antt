-- ===== src/Server/Ranking/Counts.antt =====
-- The counts of a ranking.
use smartdns_rs.Prelude.{
  Bool, List, Option, Option-cases, [], arith, false, if◌then◌else◌, inl, inr, keep_if, length, map,
  none, refl, some, ℕ, ◌+◌, ◌=s=◌, ◌∙◌, ◌∷◌, ◌≡◌,
}
use Prim.Native.String.{String}
use mathlib.Core.List.{Permᴰ}
use text.Mathlib.TextEquality.{eq_iff}
use smartdns_rs.Server.Audit.{QueryLogEntry}
use smartdns_rs.Server.Ranking.{
  Float, NameCount, Tally, bump, tally_entry, tally_all, row, insert_row, sort_rows, aggregate,
}

module _ (fl : Float) (name : String) where
  open fl use {F}

  -- The count of the rows with a name.
  abbrev pub count_named : List (NameCount F) → ℕ
  count_named [] = 0
  count_named (r ∷ rs) = (if r.name =s= name then r.count else 0) + count_named rs

  abbrev tally_named : List (Tally F) → ℕ
  tally_named [] = 0
  tally_named (t ∷ ts) = (if t.key =s= name then t.count else 0) + tally_named ts

  -- The entries that are classified under the name.
  abbrev pub is_named : Option String → Bool
  is_named none = false
  is_named (some key) = key =s= name

  abbrev pub occurrences : (QueryLogEntry F → Option String) → List (QueryLogEntry F) → ℕ
  occurrences classify ring = length (keep_if (λ e. is_named (classify e)) ring)

  tally_named-bump :
      (key : String) (ms : F) (ts : List (Tally F))
      → tally_named (bump fl key ms ts) ≡ tally_named ts + (if key =s= name then 1 else 0)
  unfolding bump
  tally_named-bump key ms [] = ground arith
  tally_named-bump key ms (t ∷ ts) = ground (arith, eq_iff t.key key, tally_named-bump key ms ts)

  tally_named-tally_all :
      (classify : QueryLogEntry F → Option String) (ts : List (Tally F))
      (ring : List (QueryLogEntry F))
      → tally_named (tally_all fl classify ts ring) ≡ tally_named ts + occurrences classify ring
  unfolding tally_all tally_entry
  tally_named-tally_all classify ts [] = omega arith
  tally_named-tally_all classify ts (e ∷ es) =
      let rest = tally_named-tally_all classify (tally_entry fl classify ts e) es in
      elim (Option-cases (classify e)) [
        | inl skipped ↦ ground (arith, rest)
        | inr (key, found) ↦ ground (arith, rest, tally_named-bump key e.elapsed_ms ts)
      ]

  count_named-row : (ts : List (Tally F)) → count_named (map (row fl) ts) ≡ tally_named ts
  unfolding row
  count_named-row [] = refl
  count_named-row (t ∷ ts) = ground (arith, count_named-row ts)

  count_named-insert_row :
      (r : NameCount F) (rs : List (NameCount F))
      → count_named (insert_row fl r rs) ≡ count_named (r ∷ rs)
  unfolding insert_row
  count_named-insert_row r [] = refl
  count_named-insert_row r (s ∷ ss) = ground (arith, count_named-insert_row r ss)

  count_named-sort_rows : (rs : List (NameCount F)) → count_named (sort_rows fl rs) ≡ count_named rs
  unfolding sort_rows
  count_named-sort_rows [] = refl
  count_named-sort_rows (r ∷ rs) =
      omega (arith, count_named-insert_row r (sort_rows fl rs), count_named-sort_rows rs)

  tally_named-perm : {ts us : List (Tally F)} → Permᴰ ts us → tally_named ts ≡ tally_named us
  tally_named-perm Permᴰ.nil = refl
  tally_named-perm (Permᴰ.cons e p) = rw (e, tally_named-perm p)
  tally_named-perm (Permᴰ.swap e f) = rw (e, f) (omega arith)
  tally_named-perm (Permᴰ.trans p q) = tally_named-perm p ∙ tally_named-perm q

  -- For every name, the rows of a ranking with that name count together just the logged entries
  -- that are classified under it, in whatever order the hash map yields its entries.
  pub count_named-aggregate :
      (into_iter : List (Tally F) → List (Tally F))
      → ((ts : List (Tally F)) → Permᴰ (into_iter ts) ts)
      → (ring : List (QueryLogEntry F)) (classify : QueryLogEntry F → Option String)
      → count_named (aggregate fl into_iter ring classify) ≡ occurrences classify ring
  unfolding aggregate
  count_named-aggregate into_iter permutes ring classify =
      let ts = tally_all fl classify [] ring in
      count_named-sort_rows (map (row fl) (into_iter ts))
      ∙ count_named-row (into_iter ts)
      ∙ tally_named-perm (permutes ts)
      ∙ tally_named-tally_all classify [] ring
      ∙ omega arith
