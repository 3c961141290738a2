-- ===== src/Server/QueryLog/Laws.antt =====
-- What the query log listing shows.
use smartdns_rs.Prelude.{
  Bool, CaseMap, List, [], arith, drop, drop_of_length-le, keep_if, not, reverse, some, suc, sym,
  take, take-append-drop_next, take_cons, true, zero, ℕ, ◌*◌, ◌++◌, ◌+◌, ◌-◌, ◌||◌, ◌∷◌, ◌≡◌, ◌≤◌,
}
use smartdns_rs.Server.Audit.{QueryLogEntry, Handled, handle}
use mathlib.Core.List.{reverse-append}
use smartdns_rs.Server.Audit.Window.{bare_soa, handle-snoc}
use smartdns_rs.Server.QueryLog.{QueryLogParams, matches, query_log, unwrap_or, clamp}

module _ (cm : CaseMap) {F : Type 0} where
  -- Pages of `size` entries each, from `offset` on.
  abbrev pub pages : ℕ → ℕ → ℕ → List (QueryLogEntry F) → QueryLogParams → List (QueryLogEntry F)
  pages zero size offset ring params = []
  pages (suc k) size offset ring params =
      (query_log cm ring (record params { limit = some size; offset = some offset })).entries
      ++ pages k size (offset + size) ring params

  -- Pages from `offset` on, enough of them, are the matching entries from `offset` on.
  pages-drop :
      (k size offset : ℕ) (ring : List (QueryLogEntry F)) (params : QueryLogParams)
      → 1 ≤ size
      → size ≤ 1000
      → (query_log cm ring params).total ≤ offset + k * size
      → pages k size offset ring params ≡ drop offset (keep_if (matches cm params) (reverse ring))
  unfolding query_log matches
  pages-drop zero size offset ring params lo hi h = sym (drop_of_length-le offset _ (omega arith))
  pages-drop (suc k) size offset ring params lo hi h =
      let entries = keep_if (matches cm params) (reverse ring) in
      let whole : clamp size 1 1000 ≡ size = omega arith in
      rw (whole, pages-drop k size (offset + size) ring params lo hi (ground arith))
        (take-append-drop_next size offset entries)

  -- Pages of one size from 1 to 1000, requested one after the other from one log until the total is
  -- reached, show each logged entry that passes the filters exactly once, newest first.
  pub pages-keep_if :
      (k size : ℕ) (ring : List (QueryLogEntry F)) (params : QueryLogParams)
      → 1 ≤ size
      → size ≤ 1000
      → (query_log cm ring params).total ≤ k * size
      → pages k size 0 ring params ≡ keep_if (matches cm params) (reverse ring)
  pages-keep_if k size ring params lo hi h = pages-drop k size 0 ring params lo hi (omega arith)

  -- The next listing from offset 0 begins with the request that was just answered, if its answer is
  -- logged and it passes the filters.
  query_log-handle :
      (audit_soa : Bool) (ring : List (QueryLogEntry F)) (h : Handled F) (params : QueryLogParams)
      → (audit_soa || not (bare_soa h.response)) ≡ true
      → matches cm params h.entry ≡ true
      → unwrap_or params.offset 0 ≡ 0
      → (rest : List (QueryLogEntry F)) × ((query_log cm (handle audit_soa ring h) params).entries
          ≡ h.entry ∷ rest)
  unfolding query_log
  query_log-handle audit_soa ring h params logs fits first =
      let (older, e) = handle-snoc audit_soa ring h logs in
      let cut = clamp (unwrap_or params.limit 100) 1 1000 in
      (
        take (cut - 1) (keep_if (matches cm params) (reverse older)),
        rw (e, reverse-append older (h.entry ∷ []), fits, first)
            (take_cons cut h.entry _ (omega arith)),
      )
