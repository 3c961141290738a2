-- ===== src/Server/Nameservers/Laws.antt =====
-- The counts of an upstream server against the name servers that run for it.
use smartdns_rs.Prelude.{
  Bool, List, Option, Option-cases, [], arith, false, fun_ext, if◌then◌else◌, inl, inr, keep_if,
  ltb, map, none, refl, some, ℕ, ◌%◌, ◌&&◌, ◌++◌, ◌+◌, ◌<◌, ◌==◌, ◌=s=◌, ◌||◌, ◌∷◌, ◌≡◌, ◌≤◌,
}
use Prim.Native.String.{String}
use text.Mathlib.TextEquality.{eq_iff}
use smartdns_rs.Server.Dispatch.{word}
use smartdns_rs.Server.Caches.{payload}
use smartdns_rs.Server.Ranking.{Float}
use smartdns_rs.Server.Nameservers.{
  NameServer, NameServerInfo, Agg, no_agg, merge, add_to, add_group, add_groups, get,
  upstream_server, nameservers, is_enabled, avg_time_ms, protocol_label, or_host, UpstreamServer,
}

-- The name servers of all groups.
abbrev pub all_of : List (List NameServer) → List NameServer
all_of [] = []
all_of (group ∷ groups) = group ++ all_of groups

-- What the name servers with a key count together.
abbrev pub counted : (NameServer → ℕ) → String → List NameServer → ℕ
counted count key [] = 0
counted count key (ns ∷ rest) =
    (if ns.stats_key =s= key then count ns else 0) + counted count key rest

counted-append :
    (count : NameServer → ℕ) (key : String) (xs ys : List NameServer)
    → counted count key (xs ++ ys) ≡ counted count key xs + counted count key ys
counted-append count key [] ys = omega arith
counted-append count key (x ∷ xs) ys = omega (arith, counted-append count key xs ys)

-- What all of them count together.
abbrev pub sum_by : {A : Type 0} → (A → ℕ) → List A → ℕ
sum_by count [] = 0
sum_by count (x ∷ rest) = count x + sum_by count rest

counted-le-sum_by :
    (count : NameServer → ℕ) (key : String) (xs : List NameServer)
    → counted count key xs ≤ sum_by count xs
counted-le-sum_by count key [] = omega arith
counted-le-sum_by count key (x ∷ xs) = ground (arith, counted-le-sum_by count key xs)

module _ (part : Agg → ℕ) (count : NameServer → ℕ) where
  abbrev part_of : Option Agg → ℕ
  part_of none = 0
  part_of (some a) = part a

  -- One part of an entry that a merge adds to.
  abbrev IsSum : Type 0
  IsSum =
      (part no_agg ≡ 0)
      × ((a : Agg) (ns : NameServer) → part (merge a ns) ≡ (part a + count ns) % word)

  module _ (is_sum : IsSum) (key : String) where
    part_of-add_to :
        (es : List (String × Agg)) (ns : NameServer)
        → let c = if ns.stats_key =s= key then count ns else 0 in
          part_of (get key es) + c < word
          → part_of (get key (add_to es ns)) ≡ part_of (get key es) + c
    unfolding add_to get
    part_of-add_to [] ns small = let (zero_part, sums) = is_sum in ground (arith, sums no_agg ns)
    part_of-add_to ((k, a) ∷ es) ns small =
        let (zero_part, sums) = is_sum in
        ground (
          arith,
          sums a ns,
          eq_iff k ns.stats_key,
          eq_iff k key,
          eq_iff ns.stats_key key,
          part_of-add_to es ns,
        )

    part_of-add_group :
        (es : List (String × Agg)) (group : List NameServer)
        → part_of (get key es) + counted count key group < word
        → part_of (get key (add_group es group)) ≡ part_of (get key es) + counted count key group
    unfolding add_group
    part_of-add_group es [] small = omega arith
    part_of-add_group es (ns ∷ group) small =
        let first = part_of-add_to es ns (omega arith) in
        let rest = part_of-add_group (add_to es ns) group (omega arith) in omega arith

    part_of-add_groups :
        (es : List (String × Agg)) (groups : List (List NameServer))
        → part_of (get key es) + counted count key (all_of groups) < word
        → part_of (get key (add_groups es groups))
          ≡ part_of (get key es) + counted count key (all_of groups)
    unfolding add_groups
    part_of-add_groups es [] small = omega arith
    part_of-add_groups es (group ∷ groups) small =
        let split = counted-append count key group (all_of groups) in
        let first = part_of-add_group es group (omega arith) in
        let rest = part_of-add_groups (add_group es group) groups (omega arith) in omega arith

    part_of-all :
        (groups : List (List NameServer))
        → sum_by count (all_of groups) < word
        → part_of (get key (add_groups [] groups)) ≡ counted count key (all_of groups)
    unfolding get
    part_of-all groups small =
        let le = counted-le-sum_by count key (all_of groups) in
        omega (arith, part_of-add_groups [] groups (omega arith))

-- Whether a name server with the key is failing.
abbrev pub any_failing : String → List NameServer → Bool
any_failing key [] = false
any_failing key (ns ∷ rest) = (ns.stats_key =s= key && ns.is_failing) || any_failing key rest

abbrev failing_of : Option Agg → Bool
failing_of none = false
failing_of (some a) = a.failing

failing_of-add_to :
    (key : String) (es : List (String × Agg)) (ns : NameServer)
    → failing_of (get key (add_to es ns))
      ≡ (failing_of (get key es) || (ns.stats_key =s= key && ns.is_failing))
unfolding add_to get merge
failing_of-add_to key [] ns = ground arith
failing_of-add_to key ((k, a) ∷ es) ns = ground (
  arith,
  eq_iff k ns.stats_key,
  eq_iff k key,
  eq_iff ns.stats_key key,
  failing_of-add_to key es ns,
)

any_failing-append :
    (key : String) (xs ys : List NameServer)
    → any_failing key (xs ++ ys) ≡ (any_failing key xs || any_failing key ys)
any_failing-append key [] ys = refl
any_failing-append key (x ∷ xs) ys = ground (arith, any_failing-append key xs ys)

failing_of-add_group :
    (key : String) (es : List (String × Agg)) (group : List NameServer)
    → failing_of (get key (add_group es group)) ≡ (failing_of (get key es) || any_failing key group)
unfolding add_group
failing_of-add_group key es [] = ground arith
failing_of-add_group key es (ns ∷ group) =
    ground (arith, failing_of-add_group key (add_to es ns) group, failing_of-add_to key es ns)

failing_of-add_groups :
    (key : String) (es : List (String × Agg)) (groups : List (List NameServer))
    → failing_of (get key (add_groups es groups))
      ≡ (failing_of (get key es) || any_failing key (all_of groups))
unfolding add_groups
failing_of-add_groups key es [] = ground arith
failing_of-add_groups key es (group ∷ groups) = ground (
  arith,
  any_failing-append key group (all_of groups),
  failing_of-add_groups key (add_group es group) groups,
  failing_of-add_group key es group,
)

-- The counters of the name servers, and that none of their sums reaches 64 bits.
abbrev pub AllSmall : List NameServer → Type 0
AllSmall all =
    (sum_by (λ ns. ns.query_count) all < word)
    × (sum_by (λ ns. ns.success_count) all < word)
    × (sum_by (λ ns. ns.failure_count) all < word)
    × (sum_by (λ ns. ns.total_time_ns) all < word)

module _ (fl : Float) where
  open fl use {F, zero_f, div, mul, of_nat}

  -- The row of a configured server, told from the name servers of its key.
  abbrev pub summary : List NameServer → NameServerInfo → UpstreamServer F
  summary all info =
      let query = counted (λ ns. ns.query_count) info.stats_key all in
      let success = counted (λ ns. ns.success_count) info.stats_key all in
      let time = counted (λ ns. ns.total_time_ns) info.stats_key all in
      record {
        name = info.name;
        server = info.server;
        group = info.group;
        protocol = protocol_label info.proto;
        security = if info.is_encrypted then "加密" else "明文";
        ip = or_host info.ip info.host;
        port = info.port;
        status = if any_failing info.stats_key all then "error" else "ok";
        query_total = query;
        success_total = success;
        failure_total = counted (λ ns. ns.failure_count) info.stats_key all;
        avg_time_ms =
            if query == 0 then zero_f else div (div (of_nat time) (of_nat query)) (of_nat 1000000);
        success_rate =
            if ltb 0 query then mul (div (of_nat success) (of_nat query)) (of_nat 100) else zero_f;
      }

  upstream_server-summary :
      (groups : List (List NameServer)) (info : NameServerInfo)
      → AllSmall (all_of groups)
      → upstream_server fl (add_groups [] groups) info ≡ summary (all_of groups) info
  unfolding upstream_server avg_time_ms merge get
  upstream_server-summary groups info (q, s, f, t) =
      let key = info.stats_key in
      let all = all_of groups in
      let queries =
        part_of-all (λ a. a.query) (λ ns. ns.query_count) (refl, λ a ns. refl) key groups q in
      let successes =
        part_of-all (λ a. a.success) (λ ns. ns.success_count) (refl, λ a ns. refl) key groups s in
      let failures =
        part_of-all (λ a. a.failure) (λ ns. ns.failure_count) (refl, λ a ns. refl) key groups f in
      let times =
        part_of-all (λ a. a.time_ns) (λ ns. ns.total_time_ns) (refl, λ a ns. refl) key groups t in
      let failing = failing_of-add_groups key [] groups in
      elim (Option-cases (get key (add_groups [] groups))) [
        | inl missing ↦
            (let qs = rw missing at queries in
              let ss = rw missing at successes in
              let fs = rw missing at failures in
              let b = rw missing at failing in rw (missing, ← qs, ← ss, ← fs, ← b))
        | inr (a, found) ↦
            (let qs = rw found at queries in
              let ss = rw found at successes in
              let fs = rw found at failures in
              let ts = rw found at times in
              let b = rw found at failing in rw (found, ← qs, ← ss, ← fs, ← ts, ← b))
      ]

  -- The listing of upstream servers has a row for each enabled server of the configuration, in
  -- order, which tells what the name servers of all groups with its key count together and whether
  -- one of them is failing, as long as no sum of the counters reaches 2 ^ 64.
  pub nameservers-summary :
      (groups : List (List NameServer)) (servers : List NameServerInfo)
      → AllSmall (all_of groups)
      → (nameservers fl groups servers).items
        ≡ map (summary (all_of groups)) (keep_if is_enabled servers)
  unfolding nameservers payload
  nameservers-summary groups servers small =
      rw (fun_ext (λ info. upstream_server-summary groups info small))
