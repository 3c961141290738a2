-- ===== src/Server/Addresses/Roundtrip.antt =====
-- A create followed by a delete.
use smartdns_rs.Prelude.{
  All, All-snoc, Bool, Bool-cases, List, [], any, any-snoc, ap, append-nil, arith, false, inl, inr,
  keep_if, keep_if-append, length, not, refl, reverse, subst, suc, sym, true, ℕ, ◌++◌, ◌==◌, ◌∙◌,
  ◌∷◌, ◌≡◌,
}
use smartdns_rs.Server.Addresses.{
  AddressRule, ConfigLine, ManagedFile, completes, lines, ok, err, not_found, Surroundings, create,
  delete, reload, rules, is_kept, missing, broken, remove_each, indices, is_rule_for,
}
use smartdns_rs.Server.Addresses.Laws.{
  rules_of, for_domain, create_cases, Written, rules-remove_each, any-rules,
}
use smartdns_rs.Server.Addresses.Distinct.{ReadsBack, rules_of-Written}

keep_if-none :
    {A : Type 0} (p : A → Bool) (xs : List A) → any p xs ≡ false → keep_if (λ x. not (p x)) xs ≡ xs
keep_if-none p [] h = refl
keep_if-none p (x ∷ xs) h = ground (arith, keep_if-none p xs)

module _ {D : Type 0} (same : D → D → Bool) (reread : List (ConfigLine D) → ManagedFile D) where
  length-indices :
      (domain : D) (i : ℕ) (ls : List (ConfigLine D))
      → any (is_rule_for same domain) ls ≡ true
      → (length (indices same domain i ls) == 0) ≡ false
  unfolding indices
  length-indices domain i [] h = absurd (ground arith)
  length-indices domain i (l ∷ ls) h = ground (arith, length-indices domain (suc i) ls)

  -- A delete of a domain that has a rule, where the write completes.
  delete_complete :
      (env : Surroundings D) (domain : D) (file : ManagedFile D)
      → env.managed_dir ≡ true
      → env.write ≡ completes
      → any (for_domain same domain) (rules_of file) ≡ true
      → (ls : List (ConfigLine D)) × (delete same reread env domain file
          ≡ (reread (keep_if is_kept ls), reload env 204))
        × (rules ls ≡ keep_if (λ r. not (same r.domain domain)) (rules_of file))
  unfolding delete
  delete_complete env domain missing m w there = absurd (ground arith)
  delete_complete env domain broken m w there = absurd (ground arith)
  delete_complete env domain (lines ls) m w there =
      let some_rule = length-indices domain 0 ls (any-rules same domain ls ∙ there) in
      (
        remove_each (reverse (indices same domain 0 ls)) ls,
        rw (m, w, some_rule) refl,
        rules-remove_each same domain ls,
      )

  -- A create that is answered by 201 has a managed directory.
  managed_dir-create :
      (env : Surroundings D) (rule : AddressRule D) (file : ManagedFile D)
      → (create same reread env rule file).1 ≡ ok 201
      → env.managed_dir ≡ true
  unfolding create
  managed_dir-create env rule file h = elim (Bool-cases env.managed_dir) [
    | inl on ↦ on
    | inr off ↦ let refused : err not_found ≡ ok 201 = rw off at h in absurd (cc refused)
  ]

  -- A create that is answered by 201 has written its rule behind the others, and found none for
  -- the domain.
  create-Written :
      (env : Surroundings D) (rule : AddressRule D) (file : ManagedFile D)
      → (create same reread env rule file).1 ≡ ok 201
      → (any (for_domain same rule.domain) (rules_of file) ≡ false)
        × Written same reread env
            (rules_of file ++ rule ∷ [])
            201
            (create same reread env rule file).0
            (create same reread env rule file).1
  create-Written env rule file h = elim (create_cases same reread env rule file) [
    | inl failed ↦ absurd (elim failed.failure [ inl e ↦ cc (e, h) | inr e ↦ cc (e, h) ])
    | inr written ↦ written
  ]

  reload_lem : (env : Surroundings D) → ok 201 ≡ reload env 201 → reload env 204 ≡ ok 204
  reload_lem env h = ground arith

  module _ (Plain : AddressRule D → Type 0) where
    -- Where a written file reads back with the rules that were written whenever all of them are
    -- plain, a delete after a create of a plain rule that was answered by 201, on a file of plain
    -- rules and under the same surroundings, is answered by 204 and gives back the rules that there
    -- were before.
    pub delete-create :
        (env : Surroundings D) (rule : AddressRule D) (file : ManagedFile D)
        → same rule.domain rule.domain ≡ true
        → ReadsBack reread Plain
        → All Plain (rules_of file)
        → Plain rule
        → (create same reread env rule file).1 ≡ ok 201
        → (let (file', result) =
              delete same reread env rule.domain (create same reread env rule file).0 in
            (result ≡ ok 204) × (rules_of file' ≡ rules_of file))
    delete-create env rule file self back plain plain_rule created =
        let (fresh, w) = create-Written env rule file created in
        let added =
          rules_of-Written same reread Plain env _ 201 _ _ back w
            (All-snoc Plain (rules_of file) plain plain_rule) in
        let there : any (for_domain same rule.domain)
              (rules_of (create same reread env rule file).0)
            ≡ true =
          ap (any (for_domain same rule.domain)) added
          ∙ any-snoc (for_domain same rule.domain) (rules_of file) rule
          ∙ rw (fresh, self) refl in
        let (ls, made, of_rules) =
          delete_complete env rule.domain _ (managed_dir-create env rule file created) w.complete
            there in
        let others = λ (r : AddressRule D). not (same r.domain rule.domain) in
        let gone = keep_if-none (for_domain same rule.domain) (rules_of file) fresh in
        let left : rules ls ≡ rules_of file =
          of_rules
          ∙ ap (keep_if others) added
          ∙ rw (keep_if-append, gone, self) (append-nil (rules_of file)) in
        (
          ap (λ p. p.1) made ∙ reload_lem env (sym created ∙ w.answer),
          ap (λ p. rules_of p.0) made ∙ back ls (subst (All Plain) (sym left) plain) ∙ left,
        )
