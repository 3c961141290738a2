-- ===== src/Server/Ranking.antt =====
-- src/api/stats.rs: the rankings of domains, clients and query types over the query log.
pub mod Counts
pub mod Order
use smartdns_rs.Prelude.{
  Bool, List, Option, Ordering, [], compare, false, if◌then◌else◌, ltb, map, none, some, take, true,
  ℕ, ◌+◌, ◌=s=◌, ◌∷◌,
}
use Prim.Native.String.{String}
use smartdns_rs.Server.Audit.{QueryLogEntry}
use smartdns_rs.Server.QueryLog.{clamp, unwrap_or}

-- `f64`, as far as the statistics use it. The times are finite, so that comparing them is the total
-- order that `sort_by` relies on.
pub record Float : Type 1 where
  pub F : Type 0
  pub zero_f : F
  pub add : F → F → F
  pub div : F → F → F
  pub mul : F → F → F
  pub min_f : F → F → F
  pub of_nat : ℕ → F
  -- `partial_cmp`, none if one is NaN
  pub partial_cmp : F → F → Option Ordering

pub record NameCount (F : Type 0) : Type 0 where
  pub name : String
  pub count : ℕ
  pub avg_time_ms : F

-- An entry of the hash map: a count and the sum of the times. A count is at most the length of the
-- log, so it cannot overflow.
pub record Tally (F : Type 0) : Type 0 where
  pub key : String
  pub count : ℕ
  pub time : F

abbrev pub then_times : Option Ordering → Ordering
then_times none = Ordering.eq
then_times (some o) = o

abbrev pub then_with : Ordering → Ordering → Ordering
then_with Ordering.eq o = o
then_with Ordering.lt o = Ordering.lt
then_with Ordering.gt o = Ordering.gt

abbrev pub is_greater : Ordering → Bool
is_greater Ordering.gt = true
is_greater _ = false

-- `limit.unwrap_or(10).clamp(1, 100)`
abbrev pub rank_limit : Option ℕ → ℕ
rank_limit limit = clamp (unwrap_or limit 10) 1 100

module _ (fl : Float) where
  open fl use {F, zero_f, add, div, of_nat, partial_cmp}

  -- `map.entry(key).or_insert((0, 0.0))`, then both additions.
  unfoldable pub bump : String → F → List (Tally F) → List (Tally F)
  bump key ms [] = record { key = key; count = 0 + 1; time = add zero_f ms } ∷ []
  bump key ms (t ∷ ts) =
      if t.key =s= key
      then record t { count = t.count + 1; time = add t.time ms } ∷ ts
      else t ∷ bump key ms ts

  -- One round of the loop.
  unfoldable pub tally_entry :
      (QueryLogEntry F → Option String) → List (Tally F) → QueryLogEntry F → List (Tally F)
  tally_entry classify ts e = elim (classify e) [ none ↦ ts | some key ↦ bump key e.elapsed_ms ts ]

  unfoldable pub tally_all :
      (QueryLogEntry F → Option String) → List (Tally F) → List (QueryLogEntry F) → List (Tally F)
  tally_all classify ts [] = ts
  tally_all classify ts (e ∷ es) = tally_all classify (tally_entry classify ts e) es

  unfoldable pub row : Tally F → NameCount F
  row t = record {
    name = t.key;
    count = t.count;
    avg_time_ms = if ltb 0 t.count then div t.time (of_nat t.count) else zero_f;
  }

  -- The comparison given to `sort_by`: the counts from high to low, then the times.
  unfoldable pub compare_rows : NameCount F → NameCount F → Ordering
  compare_rows a b =
      then_with (compare b.count a.count) (then_times (partial_cmp b.avg_time_ms a.avg_time_ms))

  -- `sort_by`, a stable sort: a row goes before the first that it does not exceed.
  unfoldable pub insert_row : NameCount F → List (NameCount F) → List (NameCount F)
  insert_row r [] = r ∷ []
  insert_row r (s ∷ ss) = if is_greater (compare_rows r s) then s ∷ insert_row r ss else r ∷ s ∷ ss

  unfoldable pub sort_rows : List (NameCount F) → List (NameCount F)
  sort_rows [] = []
  sort_rows (r ∷ rs) = insert_row r (sort_rows rs)

  -- `into_iter` is the order in which the hash map yields its entries.
  unfoldable pub aggregate :
      (List (Tally F) → List (Tally F))
      → List (QueryLogEntry F)
      → (QueryLogEntry F → Option String)
      → List (NameCount F)
  aggregate into_iter ring classify = sort_rows (map row (into_iter (tally_all classify [] ring)))

  unfoldable pub top_domains :
      (List (Tally F) → List (Tally F)) → List (QueryLogEntry F) → Option ℕ → List (NameCount F)
  top_domains into_iter ring limit =
      take (rank_limit limit) (aggregate into_iter ring (λ e. some e.domain))

  unfoldable pub clients :
      (List (Tally F) → List (Tally F)) → List (QueryLogEntry F) → Option ℕ → List (NameCount F)
  clients into_iter ring limit =
      take (rank_limit limit) (aggregate into_iter ring (λ e. some e.client))

  unfoldable pub query_types :
      (List (Tally F) → List (Tally F)) → List (QueryLogEntry F) → List (NameCount F)
  query_types into_iter ring = aggregate into_iter ring (λ e. some e.query_type)
