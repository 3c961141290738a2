-- ===== src/Server/Addresses/Laws.antt =====
-- What a create and a delete do to the managed file.
use smartdns_rs.Prelude.{
  Bool, Bool-cases, List, [], any, ap, arith, false, inl, inr, keep_if, length, none, not, refl,
  reverse, sym, true, ℕ, ◌++◌, ◌==◌, ◌∙◌, ◌∷◌, ◌≡◌, ◌⊎◌,
}
use smartdns_rs.Server.Addresses.{
  AddressRule, ConfigLine, address_line, other_line, comment, empty_line, ManagedFile, missing,
  broken, lines, err, internal, not_found, ApiResult, WriteOutcome, completes, not_opened,
  breaks_off, reload, write_and_reload, Surroundings, is_kept, rules, is_rule_for, indices,
  remove_each, create, create_in, delete_in, delete,
}
use smartdns_rs.Server.Addresses.Remove.{others, remove_each-others}

module _ {D : Type 0} where
  -- The rules of a file that can be read.
  abbrev pub rules_of : ManagedFile D → List (AddressRule D)
  rules_of missing = []
  rules_of broken = []
  rules_of (lines ls) = rules ls

  pub rules-append : (xs ys : List (ConfigLine D)) → rules (xs ++ ys) ≡ rules xs ++ rules ys
  rules-append [] ys = refl
  rules-append (address_line r c ∷ xs) ys = ap (◌∷◌ r) (rules-append xs ys)
  rules-append (other_line s ∷ xs) ys = rules-append xs ys
  rules-append (comment s ∷ xs) ys = rules-append xs ys
  rules-append (empty_line ∷ xs) ys = rules-append xs ys

  pub rules-keep_if : (ls : List (ConfigLine D)) → rules (keep_if is_kept ls) ≡ rules ls
  rules-keep_if [] = refl
  rules-keep_if (address_line r c ∷ ls) = ap (◌∷◌ r) (rules-keep_if ls)
  rules-keep_if (other_line s ∷ ls) = rules-keep_if ls
  rules-keep_if (comment s ∷ ls) = rules-keep_if ls
  rules-keep_if (empty_line ∷ ls) = rules-keep_if ls

module _ {D : Type 0} (same : D → D → Bool) where
  abbrev pub for_domain : D → AddressRule D → Bool
  for_domain domain rule = same rule.domain domain

  pub any-rules :
      (domain : D) (ls : List (ConfigLine D))
      → any (is_rule_for same domain) ls ≡ any (for_domain domain) (rules ls)
  any-rules domain [] = refl
  any-rules domain (address_line r c ∷ ls) = rw (any-rules domain ls)
  any-rules domain (other_line s ∷ ls) = any-rules domain ls
  any-rules domain (comment s ∷ ls) = any-rules domain ls
  any-rules domain (empty_line ∷ ls) = any-rules domain ls

  pub rules-others :
      (domain : D) (ls : List (ConfigLine D))
      → rules (others same domain ls) ≡ keep_if (λ r. not (same r.domain domain)) (rules ls)
  rules-others domain [] = refl
  rules-others domain (address_line r c ∷ ls) = ground (arith, rules-others domain ls)
  rules-others domain (other_line s ∷ ls) = rules-others domain ls
  rules-others domain (comment s ∷ ls) = rules-others domain ls
  rules-others domain (empty_line ∷ ls) = rules-others domain ls

  pub rules-remove_each :
      (domain : D) (ls : List (ConfigLine D))
      → rules (remove_each (reverse (indices same domain 0 ls)) ls)
        ≡ keep_if (λ r. not (same r.domain domain)) (rules ls)
  rules-remove_each domain ls = rw (remove_each-others same domain ls) (rules-others domain ls)

-- The call is answered by an error, before the file was written or because the write failed.
pub record NotWritten {D : Type 0} (env : Surroundings D) (file file' : ManagedFile D)
    (result : ApiResult) : Type 0 where
  pub failure : (result ≡ err internal) ⊎ (result ≡ err not_found)
  pub kept : (file' ≡ file) ⊎ (env.write ≡ breaks_off file')

module _ {D : Type 0} (same : D → D → Bool) (reread : List (ConfigLine D) → ManagedFile D) where
  -- The file is what some lines with these rules read as, and the reload decides the answer.
  pub record Written (env : Surroundings D) (rs : List (AddressRule D)) (status : ℕ)
      (file' : ManagedFile D) (result : ApiResult) : Type 0 where
    pub written_lines : List (ConfigLine D)
    pub read_back : file' ≡ reread (keep_if is_kept written_lines)
    pub of_rules : rules written_lines ≡ rs
    pub complete : env.write ≡ completes
    pub answer : result ≡ reload env status

  write_cases :
      (env : Surroundings D) (before : ManagedFile D) (ls : List (ConfigLine D))
      (rs : List (AddressRule D)) (status : ℕ)
      → rules ls ≡ rs
      → (let (file', result) = write_and_reload env before (reread (keep_if is_kept ls)) status in
          NotWritten env before file' result ⊎ Written env rs status file' result)
  write_cases env before ls rs status of_rules = by_write env.write refl
    where
      by_write :
          (w : WriteOutcome D)
          → env.write ≡ w
          → (let (file', result) =
                write_and_reload env before (reread (keep_if is_kept ls)) status in
              NotWritten env before file' result ⊎ Written env rs status file' result)
      by_write completes e = rw e (
          inr (record {
            written_lines = ls;
            read_back = refl;
            of_rules = of_rules;
            complete = refl;
            answer = refl;
          }))
      by_write not_opened e = rw e (inl (record { failure = inl refl; kept = inl refl }))
      by_write (breaks_off left) e = rw e (inl (record { failure = inl refl; kept = inr refl }))

  create_in_cases :
      (env : Surroundings D) (rule : AddressRule D) (file : ManagedFile D)
      → (let (file', result) = create_in same reread env rule file in
          NotWritten env file file' result
          ⊎ (any (for_domain same rule.domain) (rules_of file) ≡ false)
            × Written env (rules_of file ++ rule ∷ []) 201 file' result)
  unfolding create_in
  create_in_cases env rule missing =
      elim (write_cases env missing (address_line rule none ∷ []) (rule ∷ []) 201 refl) [
        | inl failed ↦ inl failed
        | inr written ↦ inr (refl, written)
      ]
  create_in_cases env rule broken = inl (record { failure = inl refl; kept = inl refl })
  create_in_cases env rule (lines ls) =
      let grown = ls ++ address_line rule none ∷ [] in
      elim (Bool-cases (any (is_rule_for same rule.domain) ls)) [
        | inl there ↦ rw there (inl (record { failure = inl refl; kept = inl refl }))
        | inr fresh ↦
            rw fresh
              (elim (write_cases env (lines ls) grown (rules ls ++ rule ∷ []) 201
                (rules-append ls (address_line rule none ∷ []))) [
                  | inl failed ↦ inl failed
                  | inr written ↦ inr (sym (any-rules same rule.domain ls) ∙ fresh, written)
                ])
      ]

  -- A create is answered by an error before its write completes, or it has found no rule for the
  -- domain and writes the rules of the file and its rule behind them.
  pub create_cases :
      (env : Surroundings D) (rule : AddressRule D) (file : ManagedFile D)
      → (let (file', result) = create same reread env rule file in
          NotWritten env file file' result
          ⊎ (any (for_domain same rule.domain) (rules_of file) ≡ false)
            × Written env (rules_of file ++ rule ∷ []) 201 file' result)
  unfolding create
  create_cases env rule file = elim (Bool-cases env.managed_dir) [
    | inl on ↦ rw on (create_in_cases (record env { managed_dir = true }) rule file)
    | inr off ↦ rw off (inl (record { failure = inr refl; kept = inl refl }))
  ]

  delete_in_cases :
      (env : Surroundings D) (domain : D) (file : ManagedFile D)
      → (let (file', result) = delete_in same reread env domain file in
          NotWritten env file file' result
          ⊎ Written env
              (keep_if (λ r. not (same r.domain domain)) (rules_of file))
              204
              file'
              result)
  unfolding delete_in
  delete_in_cases env domain missing = inl (record { failure = inr refl; kept = inl refl })
  delete_in_cases env domain broken = inl (record { failure = inl refl; kept = inl refl })
  delete_in_cases env domain (lines ls) =
      let idx = indices same domain 0 ls in
      elim (Bool-cases (length idx == 0)) [
        | inl nothing ↦ rw nothing (inl (record { failure = inr refl; kept = inl refl }))
        | inr found ↦ rw found (
            write_cases env (lines ls) (remove_each (reverse idx) ls) _ 204
              (rules-remove_each same domain ls))
      ]

  -- A delete is answered by an error before its write completes, or it writes the rules of the
  -- other domains.
  pub delete_cases :
      (env : Surroundings D) (domain : D) (file : ManagedFile D)
      → (let (file', result) = delete same reread env domain file in
          NotWritten env file file' result
          ⊎ Written env
              (keep_if (λ r. not (same r.domain domain)) (rules_of file))
              204
              file'
              result)
  unfolding delete
  delete_cases env domain file = elim (Bool-cases env.managed_dir) [
    | inl on ↦ rw on (delete_in_cases (record env { managed_dir = true }) domain file)
    | inr off ↦ rw off (inl (record { failure = inr refl; kept = inl refl }))
  ]
