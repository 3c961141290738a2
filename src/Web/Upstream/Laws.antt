-- ===== src/Web/Upstream/Laws.antt =====
-- The totals of the upstream tab against the counters of the server's name servers.
use smartdns_rs.Prelude.{
  All, List, [], ap, arith, fun_ext, if◌then◌else◌, keep_if, map, refl, ℕ, ◌+◌, ◌<◌, ◌=s=◌, ◌^◌,
  ◌∙◌, ◌∷◌, ◌≡◌, ◌≤◌,
}
use Prim.Native.String.{String}
use smartdns_rs.Server.Nameservers
use smartdns_rs.Server.Nameservers.{NameServer, NameServerInfo, nameservers, is_enabled}
use smartdns_rs.Server.Nameservers.Laws.{all_of, counted, sum_by, summary, nameservers-summary}
use smartdns_rs.Server.Dispatch.{word}
use smartdns_rs.Server.Ranking.{Float}
use smartdns_rs.Web.Api.{UpstreamServer}
use smartdns_rs.Web.Runtime.{Runtime}
use smartdns_rs.Web.Upstream
use smartdns_rs.Web.Upstream.{total_queries, total_success, total_failure}

-- The number of servers with a key.
abbrev pub holders : String → List NameServerInfo → ℕ
holders key [] = 0
holders key (info ∷ rest) = (if key =s= info.stats_key then 1 else 0) + holders key rest

sum_by_once :
    (n : ℕ) (key : String) (infos : List NameServerInfo)
    → ((holders key infos ≡ 0)
        → sum_by (λ (info : NameServerInfo). if key =s= info.stats_key then n else 0) infos ≡ 0)
      × ((holders key infos ≡ 1)
          → sum_by (λ (info : NameServerInfo). if key =s= info.stats_key then n else 0) infos ≡ n)
sum_by_once n key [] = (λ h. refl, λ h. absurd (omega arith))
sum_by_once n key (info ∷ rest) =
    let (never, once) = sum_by_once n key rest in
    (λ h. ground (arith, never), λ h. ground (arith, never, once))

sum_by_zero : {A : Type 0} (xs : List A) → sum_by (λ x. 0) xs ≡ 0
sum_by_zero [] = refl
sum_by_zero (x ∷ xs) = omega (arith, sum_by_zero xs)

sum_by_add :
    {A : Type 0} (f g : A → ℕ) (xs : List A)
    → sum_by (λ x. f x + g x) xs ≡ sum_by f xs + sum_by g xs
sum_by_add f g [] = omega arith
sum_by_add f g (x ∷ xs) = omega (arith, sum_by_add f g xs)

-- Where each name server runs for just one of the servers, the servers' counts add up to all.
sum_by-counted :
    (count : NameServer → ℕ) (infos : List NameServerInfo) (all : List NameServer)
    → All (λ (ns : NameServer). holders ns.stats_key infos ≡ 1) all
    → sum_by (λ (info : NameServerInfo). counted count info.stats_key all) infos ≡ sum_by count all
sum_by-counted count infos [] h = sum_by_zero infos
sum_by-counted count infos (ns ∷ all) (one, rest) =
    let split =
      sum_by_add
        (λ (info : NameServerInfo). if ns.stats_key =s= info.stats_key then count ns else 0)
        (λ (info : NameServerInfo). counted count info.stats_key all) infos in
    omega (
      arith,
      split,
      (sum_by_once (count ns) ns.stats_key infos).1 one,
      sum_by-counted count infos all rest,
    )

sum_by-map :
    {A B : Type 0} (f : B → ℕ) (g : A → B) (xs : List A)
    → sum_by f (map g xs) ≡ sum_by (λ x. f (g x)) xs
sum_by-map f g [] = refl
sum_by-map f g (x ∷ xs) = omega (arith, sum_by-map f g xs)

-- The whole numbers up to 2 ^ 53 are doubles.
abbrev pub IsExact : Runtime → Type 0
IsExact js = (n : ℕ) → n ≤ 2 ^ 53 → js.round n ≡ n

reduce_lem :
    {A : Type 0} (js : Runtime) (f : A → ℕ) (s : ℕ) (xs : List A)
    → IsExact js
    → s + sum_by f xs ≤ 2 ^ 53
    → Upstream.sum_by js.round f s xs ≡ s + sum_by f xs
reduce_lem js f s [] exact small = omega arith
reduce_lem js f s (x ∷ xs) exact small =
    rw (exact (s + f x) (omega (arith, small)))
      (omega (arith, reduce_lem js f (s + f x) xs exact (omega (arith, small))))

member_le :
    (count : NameServer → ℕ) (key : String) (all : List NameServer)
    → counted count key all ≤ sum_by count all
member_le count key [] = omega arith
member_le count key (ns ∷ all) = ground (arith, member_le count key all)

module _ (fl : Float) (js : Runtime) (number : fl.F → js.Number) where
  -- A row as the console reads it; `number` reads a float of the JSON text.
  -- A whole number is read as the double nearest to it.
  abbrev pub received : Nameservers.UpstreamServer fl.F → UpstreamServer js.Number
  received row = record {
    name = row.name;
    server = row.server;
    group = row.group;
    protocol = row.protocol;
    security = row.security;
    ip = row.ip;
    port = row.port;
    status = row.status;
    query_total = js.round row.query_total;
    success_total = js.round row.success_total;
    failure_total = js.round row.failure_total;
    avg_time_ms = number row.avg_time_ms;
    success_rate = number row.success_rate;
  }

  reduce_rows :
      (f : UpstreamServer js.Number → ℕ) (count : NameServer → ℕ) (all : List NameServer)
      (infos : List NameServerInfo)
      → IsExact js
      → sum_by count all ≤ 2 ^ 53
      → ((info : NameServerInfo)
          → f (received (summary fl all info)) ≡ js.round (counted count info.stats_key all))
      → All (λ (ns : NameServer). holders ns.stats_key infos ≡ 1) all
      → Upstream.sum_by js.round f 0 (map received (map (summary fl all) infos)) ≡ sum_by count all
  reduce_rows f count all infos exact small same once =
      let rows = map (summary fl all) infos in
      let read : (info : NameServerInfo)
          → f (received (summary fl all info)) ≡ counted count info.stats_key all =
        λ info.
          same info
          ∙ exact (counted count info.stats_key all)
              (omega (arith, small, member_le count info.stats_key all)) in
      let total : sum_by f (map received rows) ≡ sum_by count all =
        sum_by-map f received rows
        ∙ sum_by-map (λ r. f (received r)) (summary fl all) infos
        ∙ ap (λ (g : NameServerInfo → ℕ). sum_by g infos) (fun_ext read)
        ∙ sum_by-counted count infos all once in
      omega
        (arith, reduce_lem js f 0 (map received rows) exact (omega (arith, total, small)), total)

  -- The sums of queries, successes and failures are doubles, and that of the times is below 2 ^ 64.
  abbrev pub AllExact : List NameServer → Type 0
  AllExact all =
      (sum_by (λ (ns : NameServer). ns.query_count) all ≤ 2 ^ 53)
      × (sum_by (λ (ns : NameServer). ns.success_count) all ≤ 2 ^ 53)
      × (sum_by (λ (ns : NameServer). ns.failure_count) all ≤ 2 ^ 53)
      × (sum_by (λ (ns : NameServer). ns.total_time_ns) all < word)

  -- Where each name server runs for just one enabled server of the configuration, no sum of
  -- counters is above 2 ^ 53, up to which whole numbers are doubles, and that of the times is below
  -- 2 ^ 64, the totals of queries, successes and failures that the upstream tab shows, each sum
  -- rounded to a double, are those of all name servers of all groups.
  pub totals-nameservers :
      (groups : List (List NameServer)) (servers : List NameServerInfo)
      → IsExact js
      → AllExact (all_of groups)
      → All
          (λ (ns : NameServer). holders ns.stats_key (keep_if is_enabled servers) ≡ 1)
          (all_of groups)
      → let rows = map received (nameservers fl groups servers).items in
        (total_queries js rows ≡ sum_by (λ (ns : NameServer). ns.query_count) (all_of groups))
        × (total_success js rows ≡ sum_by (λ (ns : NameServer). ns.success_count) (all_of groups))
        × (total_failure js rows ≡ sum_by (λ (ns : NameServer). ns.failure_count) (all_of groups))
  unfolding total_queries total_success total_failure
  totals-nameservers groups servers exact (q, s, f, t) once =
      let all = all_of groups in
      let infos = keep_if is_enabled servers in
      rw
        (nameservers-summary fl groups servers
          (omega (arith, q), omega (arith, s), omega (arith, f), t))
        (
          reduce_rows (λ n. n.query_total) (λ ns. ns.query_count) all infos exact q (λ info. refl)
              once,
          reduce_rows (λ n. n.success_total) (λ ns. ns.success_count) all infos exact s
              (λ info. refl) once,
          reduce_rows (λ n. n.failure_total) (λ ns. ns.failure_count) all infos exact f
              (λ info. refl) once,
        )
