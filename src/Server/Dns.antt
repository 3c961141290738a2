-- ===== src/Server/Dns.antt =====
-- src/dns.rs: the response that the middlewares hand on, and the clips of a record's TTL of
-- src/libdns/mod.rs. A query and a record are the fields that the source reads of them; the crate
-- behind them compares names without regard to case, so that `N` is names up to case. A TTL has 32
-- bits, an instant is in nanoseconds.
use smartdns_rs.Prelude.{
  All, Bool, List, Option, Option-cases, [], arith, false, if◌then◌else◌, inl, inr, ltb, map, max,
  none, some, true, ℕ, ◌%◌, ◌*◌, ◌/◌, ◌==◌, ◌^◌, ◌||◌, ◌∷◌, ◌≤◌,
}
use Prim.Native.String.{String}
use smartdns_rs.Server.QueryLog.{unwrap_or}

-- Record types by their numbers.
abbrev pub rr_a : ℕ
rr_a = 1

abbrev pub rr_cname : ℕ
rr_cname = 5

abbrev pub rr_aaaa : ℕ
rr_aaaa = 28

abbrev pub is_ip_addr : ℕ → Bool
is_ip_addr t = t == rr_a || t == rr_aaaa

pub record Query (N : Type 0) : Type 0 where
  pub name : N
  pub query_type : ℕ
  pub query_class : ℕ

-- `D` is the data of a record.
pub record Record (N D : Type 0) : Type 0 where
  pub name : N
  pub record_type : ℕ
  pub dns_class : ℕ
  pub ttl : ℕ
  pub rdata : D

pub data ResponseCode : Type 0 where
  no_error nx_domain other_code : ResponseCode

-- The message with the three fields that `DnsResponse` adds to it.
pub record DnsResponse (N D : Type 0) : Type 0 where
  pub query : Query N
  pub response_code : ResponseCode
  pub answers : List (Record N D)
  pub authorities : List (Record N D)
  pub valid_until : ℕ
  pub name_server_group : Option String
  pub from_cache : Bool

abbrev pub second : ℕ
second = 1000000000

-- `Duration::from_secs` and `as_secs`
abbrev pub from_secs : ℕ → ℕ
from_secs n = n * second

abbrev pub as_secs : ℕ → ℕ
as_secs d = d / second

-- `as u32`
abbrev pub as_u32 : ℕ → ℕ
as_u32 n = n % 2 ^ 32

abbrev max_with : ℕ → Option ℕ → ℕ
max_with n none = n
max_with n (some m) = max n m

module _ {N D : Type 0} where
  abbrev pub clip_max : ℕ → Record N D → Record N D
  clip_max limit r = if ltb limit r.ttl then record r { ttl = limit } else r

  abbrev pub clip_min : ℕ → Record N D → Record N D
  clip_min limit r = if ltb r.ttl limit then record r { ttl = limit } else r

  unfoldable pub set_max_ttl : ℕ → DnsResponse N D → DnsResponse N D
  set_max_ttl ttl res = record res { answers = map (clip_max ttl) res.answers }

  -- `answers().iter().map(ttl).max()`
  abbrev pub max_ttl : List (Record N D) → Option ℕ
  max_ttl [] = none
  max_ttl (r ∷ rs) = some (max_with r.ttl (max_ttl rs))

  abbrev pub with_name_server_group : String → DnsResponse N D → DnsResponse N D
  with_name_server_group group res = record res { name_server_group = some group }

  abbrev pub mark_from_cache : DnsResponse N D → DnsResponse N D
  mark_from_cache res = record res { from_cache = true }

  unfoldable pub new_with_deadline : Query N → List (Record N D) → ℕ → DnsResponse N D
  new_with_deadline query records valid_until = record {
    query = query;
    response_code = no_error;
    answers = records;
    authorities = [];
    valid_until = valid_until;
    name_server_group = none;
    from_cache = false;
  }

  -- The records of an answer with their lifetimes clipped have none above the limit.
  pub set_max_ttl-All :
      (ttl : ℕ) (res : DnsResponse N D)
      → All (λ (r : Record N D). r.ttl ≤ ttl) (set_max_ttl ttl res).answers
  unfolding set_max_ttl
  set_max_ttl-All ttl res = clip res.answers
    where
      clip :
          (rs : List (Record N D)) → All (λ (r : Record N D). r.ttl ≤ ttl) (map (clip_max ttl) rs)
      clip [] = tt
      clip (r ∷ rs) = (ground arith, clip rs)

  pub max_ttl-le :
      (n : ℕ) (rs : List (Record N D))
      → All (λ (r : Record N D). r.ttl ≤ n) rs
      → unwrap_or (max_ttl rs) 0 ≤ n
  max_ttl-le n [] h = omega arith
  max_ttl-le n (r ∷ rs) (h, hs) =
      let rest = max_ttl-le n rs hs in
      elim (Option-cases (max_ttl rs)) [
        | inl none_left ↦ rw (none_left, max_with) h
        | inr (k, found) ↦ ground (arith, found, rest)
      ]
