-- ===== src/Tests/Server.antt =====
-- Concrete inputs for the theorems on the server.
use smartdns_rs.Prelude.{
  Bool, CaseMap, List, [], ap, arith, false, if◌then◌else◌, keep_if, last_n, map, none, refl,
  reverse, some, true, ℕ, ◌++◌, ◌-◌, ◌==◌, ◌∷◌, ◌≡◌,
}
use Prim.Native.String.{String}
use smartdns_rs.Server.Addresses.{
  AddressRule, ConfigLine, address_line, other_line, comment, missing, lines, Surroundings, err,
  internal, create, delete, completes, breaks_off, empty_line, ManagedFile, ok,
}
use smartdns_rs.Server.Addresses.Distinct.{
  creates, deletes, run, run-IsDistinct, Sound, ReadsBack, create_kept,
}
use smartdns_rs.Server.Addresses.Roundtrip.{delete-create}
use smartdns_rs.Server.Addresses.Laws.{rules_of}
use smartdns_rs.Server.Audit.{
  QueryLogEntry, Handled, answered, soa, a, serve, handle, query_log_max, push_entry, is_soa_only,
  scan_soa,
}
use smartdns_rs.Server.Audit.Window.{serve-last_n, logged}
use smartdns_rs.Server.Caches.{CacheListParams, caches, panicked, usize_mod}
use smartdns_rs.Server.Caches.Paging.{caches-panicked}
use smartdns_rs.Server.QueryLog.{QueryLogParams, matches, query_log}
use smartdns_rs.Server.QueryLog.Laws.{pages, pages-keep_if}

abbrev cm : CaseMap
cm = record { to_lower = λ s. s; to_upper = λ s. s }

abbrev entry : String → String → QueryLogEntry ℕ
entry domain qtype = record {
  time = "2024-01-01";
  client = "10.0.0.1";
  domain = domain;
  query_type = qtype;
  elapsed_ms = 4;
  result = "success";
  speed_ms = none;
  source = "Server";
}

abbrev first : Handled ℕ
first = record { response = answered (a ∷ []); entry = entry "a.example" "A" }

abbrev bare : Handled ℕ
bare = record { response = answered (soa ∷ []); entry = entry "b.example" "A" }

abbrev pub ring : List (QueryLogEntry ℕ)
ring = entry "a.example" "A" ∷ entry "b.example" "AAAA" ∷ entry "a.example" "AAAA" ∷ []

abbrev no_filter : QueryLogParams
no_filter = record { limit = none; offset = none; domain = none; client = none; qtype = none }

pages-keep_if_example :
    pages cm 2 2 0 ring no_filter ≡ keep_if (matches cm no_filter) (reverse ring)
unfolding query_log matches
pages-keep_if_example =
    pages-keep_if cm 2 2 ring no_filter (omega arith) (omega arith) (omega arith)

serve-last_n_example :
    serve false (last_n query_log_max []) (first ∷ bare ∷ [])
    ≡ last_n query_log_max ([] ++ logged false (first ∷ bare ∷ []))
serve-last_n_example = serve-last_n false [] (first ∷ bare ∷ [])

-- The SOA-only answer is not logged.
serve_skips : serve false [] (first ∷ bare ∷ []) ≡ first.entry ∷ []
unfolding serve handle push_entry is_soa_only scan_soa
serve_skips = refl

-- The last page asked for with the greatest limit.
abbrev overflowing : CacheListParams
overflowing = record { offset = some 1; limit = some (usize_mod - 1) }

abbrev two_records : List ℕ
two_records = 7 ∷ 8 ∷ []

caches-panicked_example : caches two_records overflowing ≡ panicked
caches-panicked_example =
    caches-panicked two_records overflowing (omega arith) (omega arith) (omega arith) (omega arith)

abbrev rule : ℕ → AddressRule ℕ
rule d = record { domain = d; address = "1.2.3.4" }

abbrev conf : List (ConfigLine ℕ)
conf =
    address_line (rule 1) none ∷ comment "# two" ∷ other_line "x" ∷ address_line (rule 2) none ∷ []

abbrev fine : Surroundings ℕ
fine = record { managed_dir = true; write = completes; reloads = true }

abbrev no_reload : Surroundings ℕ
no_reload = record { managed_dir = true; write = completes; reloads = false }

-- A full disk: the file is emptied and nothing is written.
abbrev full : Surroundings ℕ
full = record { managed_dir = true; write = breaks_off (lines []); reloads = true }

abbrev same : ℕ → ℕ → Bool
same d e = d == e

-- As the domain `*`, the domain 0 is read back as another one.
abbrev reread_domain : ConfigLine ℕ → ConfigLine ℕ
reread_domain (address_line r c) =
    address_line (record r { domain = if r.domain == 0 then 100 else r.domain }) c
reread_domain (other_line s) = other_line s
reread_domain (comment s) = comment s
reread_domain empty_line = empty_line

abbrev reread : List (ConfigLine ℕ) → ManagedFile ℕ
reread ls = lines (map reread_domain ls)

abbrev Plain : AddressRule ℕ → Type 0
Plain r = (r.domain == 0) ≡ false

reread_lem : ReadsBack reread Plain
reread_lem [] h = refl
reread_lem (address_line r c ∷ ls) (p, h) = rw p (ap (◌∷◌ r) (reread_lem ls h))
reread_lem (other_line s ∷ ls) h = reread_lem ls h
reread_lem (comment s ∷ ls) h = reread_lem ls h
reread_lem (empty_line ∷ ls) h = reread_lem ls h

-- A rule that is read back with another domain can be created twice.
created_twice :
    rules_of (create same reread fine (rule 0) (create same reread fine (rule 0) missing).0).0
    ≡ rule 100 ∷ rule 100 ∷ []
unfolding create
created_twice = refl

run-IsDistinct_example : Sound same reread Plain (
    run same reread
      (lines conf)
      (creates fine (rule 3) ∷ deletes no_reload 1 ∷ creates full (rule 4) ∷ []))
run-IsDistinct_example =
    run-IsDistinct same reread Plain
      (creates fine (rule 3) ∷ deletes no_reload 1 ∷ creates full (rule 4) ∷ []) (lines conf)
      reread_lem ((refl, tt), (tt, ((refl, (tt, tt)), tt)))
      ((refl, (refl, tt)), ((refl, tt), (tt, tt)))

create_kept_example :
    ((create same reread no_reload (rule 3) missing).1 ≡ err internal)
    × (rules_of (create same reread no_reload (rule 3) missing).0 ≡ [] ++ rule 3 ∷ [])
    × (create same reread fine (rule 3) (create same reread no_reload (rule 3) missing).0
        ≡ ((create same reread no_reload (rule 3) missing).0, err internal))
create_kept_example =
    create_kept same reread Plain no_reload fine (rule 3) missing refl reread_lem (refl, tt) refl
      refl refl (λ e. cc) refl refl

delete-create_example :
    (let (file', result) =
        delete same reread fine 3 (create same reread fine (rule 3) (lines conf)).0 in
      (result ≡ ok 204) × (rules_of file' ≡ rule 1 ∷ rule 2 ∷ []))
unfolding create
delete-create_example =
    delete-create same reread Plain fine (rule 3) (lines conf) refl reread_lem (refl, (refl, tt))
      refl refl
