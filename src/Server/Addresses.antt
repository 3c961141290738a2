-- ===== src/Server/Addresses.antt =====
-- src/api/address.rs: the rules of the managed file address.conf. The file is its parsed lines;
-- a domain is a value of `D`, compared by `same`.
pub mod Remove
pub mod Laws
pub mod Answers
pub mod Distinct
pub mod Roundtrip
use smartdns_rs.Prelude.{
  Bool, List, Option, [], any, false, if◌then◌else◌, keep_if, length, none, not, reverse, suc, true,
  zero, ℕ, ◌++◌, ◌==◌, ◌∷◌,
}
use Prim.Native.String.{String}

pub record AddressRule (D : Type 0) : Type 0 where
  pub domain : D
  pub address : String

-- A line of the file: an address rule, another item, a comment or an empty line. A rule may have a
-- comment behind it.
pub data ConfigLine (D : Type 0) : Type 0 where
  address_line : AddressRule D → Option String → ConfigLine D
  other_line : String → ConfigLine D
  comment : String → ConfigLine D
  empty_line : ConfigLine D

pub data ManagedFile (D : Type 0) : Type 0 where
  missing : ManagedFile D
  -- it cannot be read or parsed
  broken : ManagedFile D
  lines : List (ConfigLine D) → ManagedFile D

pub data ApiError : Type 0 where
  internal not_found : ApiError

pub data ApiResult : Type 0 where
  ok : ℕ → ApiResult
  err : ApiError → ApiResult

-- `IntoResponse`: the status of a reply.
abbrev pub status_of : ApiResult → ℕ
status_of (ok status) = status
status_of (err internal) = 500
status_of (err not_found) = 404

-- How `std::fs::write` ends, after the directory was made: the file cannot be opened and is as it
-- was, or it is emptied and the write breaks off, which leaves some other file.
pub data WriteOutcome (D : Type 0) : Type 0 where
  completes not_opened : WriteOutcome D
  breaks_off : ManagedFile D → WriteOutcome D

-- What the surroundings do: whether a managed directory is configured, how the write of the file
-- ends, and whether the reload of the configuration succeeds.
pub record Surroundings (D : Type 0) : Type 0 where
  pub managed_dir : Bool
  pub write : WriteOutcome D
  pub reloads : Bool

-- `state.app.reload().await?; Ok(status)`
abbrev pub reload : {D : Type 0} → Surroundings D → ℕ → ApiResult
reload env status = if env.reloads then ok status else err internal

-- `std::fs::write(&file, …)?; state.app.reload().await?; Ok(status)`
abbrev pub write_and_reload :
    {D : Type 0} → Surroundings D → ManagedFile D → ManagedFile D → ℕ → ManagedFile D × ApiResult
write_and_reload env before after status = elim env.write [
  | completes ↦ (after, reload env status)
  | not_opened ↦ (before, err internal)
  | breaks_off left ↦ (left, err internal)
]

module _ {D : Type 0} where
  -- The lines that are kept when the file is written.
  abbrev pub is_kept : ConfigLine D → Bool
  is_kept (address_line rule c) = true
  is_kept (other_line s) = false
  is_kept (comment s) = true
  is_kept empty_line = true

  -- The rules of the file.
  abbrev pub rules : List (ConfigLine D) → List (AddressRule D)
  rules [] = []
  rules (address_line rule c ∷ ls) = rule ∷ rules ls
  rules (other_line s ∷ ls) = rules ls
  rules (comment s ∷ ls) = rules ls
  rules (empty_line ∷ ls) = rules ls

  -- `Vec::remove`; an index past the end does not occur.
  unfoldable pub remove : ℕ → List (ConfigLine D) → List (ConfigLine D)
  remove i [] = []
  remove zero (l ∷ ls) = ls
  remove (suc i) (l ∷ ls) = l ∷ remove i ls

  -- `for i in indices { config.remove(i) }`
  unfoldable pub remove_each : List ℕ → List (ConfigLine D) → List (ConfigLine D)
  remove_each [] ls = ls
  remove_each (i ∷ is) ls = remove_each is (remove i ls)

module _ {D : Type 0} (same : D → D → Bool) where
  abbrev pub is_rule_for : D → ConfigLine D → Bool
  is_rule_for domain (address_line rule c) = same rule.domain domain
  is_rule_for domain (other_line s) = false
  is_rule_for domain (comment s) = false
  is_rule_for domain empty_line = false

  -- The indices of the rules for a domain, counted from `i`.
  unfoldable pub indices : D → ℕ → List (ConfigLine D) → List ℕ
  indices domain i [] = []
  indices domain i (l ∷ ls) =
      if is_rule_for domain l then i ∷ indices domain (suc i) ls else indices domain (suc i) ls

-- `reread` is the file that the printed text of some lines is when it is read and parsed again; the
-- single line of a new file and the lines of an old one are printed alike. A line need not read as
-- itself: the domain `*` alone is a wildcard with the empty pattern, which is printed `*..` and read
-- with the pattern `*`.
module _ {D : Type 0} (same : D → D → Bool) (reread : List (ConfigLine D) → ManagedFile D) where
  -- `create` and `delete` once a managed directory is configured.
  create_in : Surroundings D → AddressRule D → ManagedFile D → ManagedFile D × ApiResult
  create_in env rule missing =
      write_and_reload env missing (reread (address_line rule none ∷ [])) 201
  create_in env rule broken = (broken, err internal)
  create_in env rule (lines ls) =
      if any (is_rule_for same rule.domain) ls
      then (lines ls, err internal)
      else write_and_reload env (lines ls)
          (reread (keep_if is_kept (ls ++ address_line rule none ∷ []))) 201

  unfoldable pub create : Surroundings D → AddressRule D → ManagedFile D → ManagedFile D × ApiResult
  unfolding create_in
  create env rule file =
      if not env.managed_dir then (file, err not_found) else create_in env rule file

  delete_in : Surroundings D → D → ManagedFile D → ManagedFile D × ApiResult
  delete_in env domain missing = (missing, err not_found)
  delete_in env domain broken = (broken, err internal)
  delete_in env domain (lines ls) =
      let idx = indices same domain 0 ls in
      if length idx == 0
      then (lines ls, err not_found)
      else write_and_reload env (lines ls) (reread (keep_if is_kept (remove_each (reverse idx) ls)))
          204

  unfoldable pub delete : Surroundings D → D → ManagedFile D → ManagedFile D × ApiResult
  unfolding delete_in
  delete env domain file =
      if not env.managed_dir then (file, err not_found) else delete_in env domain file
