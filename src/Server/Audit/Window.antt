-- ===== src/Server/Audit/Window.antt =====
-- The query log is a window on everything that was ever logged.
use smartdns_rs.Prelude.{
  Bool, Bool-cases, List, [], any, ap, append-nil, append_assoc, arith, drop, drop-append_of_le,
  false, inl, inr, keep_if, last_n, last_n-push, length, length-append, ltb, map, not, refl, true,
  ◌&&◌, ◌++◌, ◌||◌, ◌∷◌, ◌≡◌,
}
use smartdns_rs.Server.Audit.{
  QueryLogEntry, Handled, Response, answered, failed, RecordType, query_log_max, is_soa, is_ip,
  scan_soa, is_soa_only, push_entry, handle, serve,
}

scan_soa-any :
    (has_soa has_ip : Bool) (rs : List RecordType)
    → scan_soa has_soa has_ip rs ≡ ((has_soa || any is_soa rs) && not (has_ip || any is_ip rs))
unfolding scan_soa
scan_soa-any s i [] = ground arith
scan_soa-any s i (r ∷ rs) = rw (scan_soa-any (is_soa r || s) (is_ip r || i) rs) (ground arith)

-- Whether an answer holds a SOA record and no address.
abbrev pub bare_soa : Response → Bool
bare_soa failed = false
bare_soa (answered rs) = any is_soa rs && not (any is_ip rs)

is_soa_only-bare_soa : (r : Response) → is_soa_only r ≡ bare_soa r
unfolding is_soa_only
is_soa_only-bare_soa failed = refl
is_soa_only-bare_soa (answered rs) = scan_soa-any false false rs

module _ {F : Type 0} where
  -- The entries that the requests add to the full history.
  abbrev pub logged : Bool → List (Handled F) → List (QueryLogEntry F)
  logged audit_soa hs =
      map (λ h. h.entry) (keep_if (λ h. audit_soa || not (bare_soa h.response)) hs)

  logged-cons :
      (audit_soa : Bool) (h : Handled F) (hs : List (Handled F))
      → logged audit_soa (h ∷ []) ++ logged audit_soa hs ≡ logged audit_soa (h ∷ hs)
  logged-cons audit_soa h hs = ground arith

  -- A logged request stands at the end of the log.
  pub handle-snoc :
      (audit_soa : Bool) (ring : List (QueryLogEntry F)) (h : Handled F)
      → (audit_soa || not (bare_soa h.response)) ≡ true
      → (older : List (QueryLogEntry F)) × (handle audit_soa ring h ≡ older ++ h.entry ∷ [])
  unfolding handle push_entry
  handle-snoc audit_soa ring h logs =
      elim (Bool-cases (ltb query_log_max (length (ring ++ h.entry ∷ [])))) [
        | inl long ↦ (
          drop 1 ring,
          rw (is_soa_only-bare_soa h.response) (
              ground (
                arith,
                drop-append_of_le 1 ring (h.entry ∷ []),
                length-append ring (h.entry ∷ []),
              )),
        )
        | inr short ↦ (ring, rw (is_soa_only-bare_soa h.response) (ground arith))
      ]

  handle-last_n :
      (audit_soa : Bool) (log : List (QueryLogEntry F)) (h : Handled F)
      → handle audit_soa (last_n query_log_max log) h
        ≡ last_n query_log_max (log ++ logged audit_soa (h ∷ []))
  unfolding handle push_entry
  handle-last_n audit_soa log h =
      rw (is_soa_only-bare_soa h.response)
        (elim (Bool-cases (not audit_soa && bare_soa h.response)) [
          | inl skip ↦ ground (arith, append-nil log)
          | inr keep ↦ ground (arith, last_n-push query_log_max log h.entry)
        ])

  -- Starting from a log that is within its limit, the query log is after any sequence of answered
  -- requests the last 1000 entries of all those logged, where a SOA-only answer is logged only if
  -- the option says so.
  pub serve-last_n :
      (audit_soa : Bool) (log : List (QueryLogEntry F)) (hs : List (Handled F))
      → serve audit_soa (last_n query_log_max log) hs
        ≡ last_n query_log_max (log ++ logged audit_soa hs)
  unfolding serve
  serve-last_n audit_soa log [] = rw (append-nil log)
  serve-last_n audit_soa log (h ∷ hs) = rw (handle-last_n audit_soa log h) (
      rw (serve-last_n audit_soa (log ++ logged audit_soa (h ∷ [])) hs, append_assoc)
        (ap (λ t. last_n query_log_max (log ++ t)) (logged-cons audit_soa h hs)))
