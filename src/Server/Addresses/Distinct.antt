-- ===== src/Server/Addresses/Distinct.antt =====
-- The managed file keeps at most one rule for a domain, and what a failed reload leaves behind.
use smartdns_rs.Prelude.{
  All, All-keep_if, All-snoc, Bool, Bool-cases, List, [], any, any-snoc, ap, arith, false, inl, inr,
  keep_if, none, refl, subst, sym, true, ℕ, ◌++◌, ◌∙◌, ◌∷◌, ◌≡◌, ◌≢◌,
}
use smartdns_rs.Server.Addresses.{
  AddressRule, ConfigLine, ManagedFile, missing, broken, lines, internal, err, Surroundings,
  WriteOutcome, completes, breaks_off, is_kept, rules, is_rule_for, create, address_line, reload,
  delete, ApiResult,
}
use smartdns_rs.Server.Addresses.Laws.{
  rules_of, for_domain, any-rules, rules-append, create_cases, delete_cases, Written, NotWritten,
}

-- A request that changes the file, with the surroundings that it meets.
pub data Call (D : Type 0) : Type 0 where
  creates : Surroundings D → AddressRule D → Call D
  deletes : Surroundings D → D → Call D

module _ {D : Type 0} (same : D → D → Bool) where
  -- No two rules are for one domain.
  abbrev pub IsDistinct : List (AddressRule D) → Type 0
  IsDistinct [] = Unit
  IsDistinct (r ∷ rs) =
      All (λ (r' : AddressRule D). same r.domain r'.domain ≡ false) rs × IsDistinct rs

  snoc-IsDistinct :
      (rs : List (AddressRule D)) (r : AddressRule D)
      → IsDistinct rs
      → any (for_domain same r.domain) rs ≡ false
      → IsDistinct (rs ++ r ∷ [])
  snoc-IsDistinct [] r h fresh = (tt, tt)
  snoc-IsDistinct (x ∷ rs) r (h, hs) fresh = (
    All-snoc (λ r'. same x.domain r'.domain ≡ false) rs h (ground arith),
    snoc-IsDistinct rs r hs (ground arith),
  )

  keep_if-IsDistinct :
      (test : AddressRule D → Bool) (rs : List (AddressRule D))
      → IsDistinct rs
      → IsDistinct (keep_if test rs)
  keep_if-IsDistinct test [] h = tt
  keep_if-IsDistinct test (r ∷ rs) (h, hs) =
      let rest = keep_if-IsDistinct test rs hs in
      let apart = All-keep_if (λ (r' : AddressRule D). same r.domain r'.domain ≡ false) test rs h in
      elim (Bool-cases (test r)) [ inl y ↦ rw y (apart, rest) | inr n ↦ rw n rest ]

-- The rules that satisfy `Plain` are read back as they were written.
abbrev pub ReadsBack :
    {D : Type 0} → (List (ConfigLine D) → ManagedFile D) → (AddressRule D → Type 0) → Type 0
ReadsBack reread Plain =
    (ls : List (ConfigLine _))
    → All Plain (rules ls)
    → rules_of (reread (keep_if is_kept ls)) ≡ rules ls

module _ {D : Type 0} (same : D → D → Bool) (reread : List (ConfigLine D) → ManagedFile D) where
  pub step : ManagedFile D → Call D → ManagedFile D
  step file (creates env rule) = (create same reread env rule file).0
  step file (deletes env domain) = (delete same reread env domain file).0

  pub run : ManagedFile D → List (Call D) → ManagedFile D
  run file [] = file
  run file (c ∷ cs) = run (step file c) cs

  abbrev lines_of : ManagedFile D → List (ConfigLine D)
  lines_of missing = []
  lines_of broken = []
  lines_of (lines ls) = ls

  rules-lines_of : (file : ManagedFile D) → rules (lines_of file) ≡ rules_of file
  rules-lines_of missing = refl
  rules-lines_of broken = refl
  rules-lines_of (lines ls) = refl

  -- A create whose write completes.
  create_complete :
      (env : Surroundings D) (rule : AddressRule D) (file : ManagedFile D)
      → env.managed_dir ≡ true
      → env.write ≡ completes
      → file ≢ broken
      → any (for_domain same rule.domain) (rules_of file) ≡ false
      → create same reread env rule file
        ≡ (reread (keep_if is_kept (lines_of file ++ address_line rule none ∷ [])), reload env 201)
  unfolding create
  create_complete env rule missing m w b fresh = rw (m, w) refl
  create_complete env rule broken m w b fresh = absurd (b refl)
  create_complete env rule (lines ls) m w b fresh =
      let absent : any (is_rule_for same rule.domain) ls ≡ false =
        any-rules same rule.domain ls ∙ fresh in
      rw (m, w, absent) refl

  -- A create of a domain that has a rule.
  create_refused :
      (env : Surroundings D) (rule : AddressRule D) (file : ManagedFile D)
      → env.managed_dir ≡ true
      → any (for_domain same rule.domain) (rules_of file) ≡ true
      → create same reread env rule file ≡ (file, err internal)
  unfolding create
  create_refused env rule missing m there = absurd (ground arith)
  create_refused env rule broken m there = rw m refl
  create_refused env rule (lines ls) m there =
      let found : any (is_rule_for same rule.domain) ls ≡ true =
        any-rules same rule.domain ls ∙ there in
      rw (m, found) refl

  module _ (Plain : AddressRule D → Type 0) where
    -- The rules are read back as written, and no two are for one domain.
    abbrev pub Sound : ManagedFile D → Type 0
    Sound file = All Plain (rules_of file) × IsDistinct same (rules_of file)

    -- Where the write breaks off, it leaves a sound file.
    abbrev pub LeavesSound : WriteOutcome D → Type 0
    LeavesSound (breaks_off left) = Sound left
    LeavesSound _ = Unit

    abbrev pub IsPlainCall : Call D → Type 0
    IsPlainCall (creates env rule) = Plain rule × LeavesSound env.write
    IsPlainCall (deletes env domain) = LeavesSound env.write

    -- A file that is written holds the rules that were written.
    pub rules_of-Written :
        (env : Surroundings D) (rs : List (AddressRule D)) (status : ℕ) (file' : ManagedFile D)
        (result : ApiResult)
        → ReadsBack reread Plain
        → Written same reread env rs status file' result
        → All Plain rs
        → rules_of file' ≡ rs
    rules_of-Written env rs status file' result back w plain =
        ap rules_of w.read_back
        ∙ back w.written_lines (subst (All Plain) (sym w.of_rules) plain)
        ∙ w.of_rules

    kept-Sound :
        (env : Surroundings D) (file file' : ManagedFile D) (result : ApiResult)
        → NotWritten env file file' result
        → LeavesSound env.write
        → Sound file
        → Sound file'
    kept-Sound env file file' result failed left h = elim failed.kept [
      | inl same_file ↦ subst Sound (sym same_file) h
      | inr broken_off ↦ subst LeavesSound broken_off left
    ]

    Written-Sound :
        (env : Surroundings D) (rs : List (AddressRule D)) (status : ℕ) (file' : ManagedFile D)
        (result : ApiResult)
        → ReadsBack reread Plain
        → Written same reread env rs status file' result
        → All Plain rs
        → IsDistinct same rs
        → Sound file'
    Written-Sound env rs status file' result back w plain distinct =
        rw (rules_of-Written env rs status file' result back w plain) (plain, distinct)

    step-Sound :
        (c : Call D) (file : ManagedFile D)
        → ReadsBack reread Plain
        → IsPlainCall c
        → Sound file
        → Sound (step file c)
    unfolding step
    step-Sound (creates env rule) file back (plain, left) h =
        elim (create_cases same reread env rule file) [
          | inl failed ↦ kept-Sound env file _ _ failed left h
          | inr (fresh, written) ↦
              Written-Sound env _ 201 _ _ back written (All-snoc Plain (rules_of file) h.0 plain)
                (snoc-IsDistinct same (rules_of file) rule h.1 fresh)
        ]
    step-Sound (deletes env domain) file back left h =
        elim (delete_cases same reread env domain file) [
          | inl failed ↦ kept-Sound env file _ _ failed left h
          | inr written ↦
              Written-Sound env _ 204 _ _ back written (All-keep_if Plain _ (rules_of file) h.0)
                (keep_if-IsDistinct same _ (rules_of file) h.1)
        ]

    -- Where a written file reads back with the rules that were written whenever all of them are
    -- plain, any sequence of calls that create plain rules and delete rules, failing ones included,
    -- takes a managed file whose rules are plain and have distinct domains to one of that kind, if
    -- every write that breaks off leaves one of that kind.
    pub run-IsDistinct :
        (cs : List (Call D)) (file : ManagedFile D)
        → ReadsBack reread Plain
        → All IsPlainCall cs
        → Sound file
        → Sound (run file cs)
    unfolding run
    run-IsDistinct [] file back calls h = h
    run-IsDistinct (c ∷ cs) file back (plain, calls) h =
        run-IsDistinct cs (step file c) back calls (step-Sound c file back plain h)

    -- Where a written file reads back with the rules that were written whenever all of them are
    -- plain, the rule and those of the file are plain, none of them is for the domain and the write
    -- completes, a create whose reload fails is answered by an error although the rule is then the
    -- last of the file; the same create is next refused by an error too and changes nothing.
    pub create_kept :
        (env env' : Surroundings D) (rule : AddressRule D) (file : ManagedFile D)
        → same rule.domain rule.domain ≡ true
        → ReadsBack reread Plain
        → All Plain (rules_of file ++ rule ∷ [])
        → env.managed_dir ≡ true
        → env.write ≡ completes
        → env.reloads ≡ false
        → file ≢ broken
        → env'.managed_dir ≡ true
        → any (for_domain same rule.domain) (rules_of file) ≡ false
        → ((create same reread env rule file).1 ≡ err internal)
          × (rules_of (create same reread env rule file).0 ≡ rules_of file ++ rule ∷ [])
          × (create same reread env' rule (create same reread env rule file).0
              ≡ ((create same reread env rule file).0, err internal))
    create_kept env env' rule file e back plain m w r b m' fresh =
        let made = create_complete env rule file m w b fresh in
        let grown = lines_of file ++ address_line rule none ∷ [] in
        let of_grown : rules grown ≡ rules_of file ++ rule ∷ [] =
          rules-append (lines_of file) (address_line rule none ∷ [])
          ∙ ap (λ rs. rs ++ rule ∷ []) (rules-lines_of file) in
        let left : rules_of (create same reread env rule file).0 ≡ rules_of file ++ rule ∷ [] =
          ap (λ p. rules_of p.0) made
          ∙ back grown (subst (All Plain) (sym of_grown) plain)
          ∙ of_grown in
        let there : any (for_domain same rule.domain)
              (rules_of (create same reread env rule file).0)
            ≡ true =
          ap (any (for_domain same rule.domain)) left
          ∙ any-snoc (for_domain same rule.domain) (rules_of file) rule
          ∙ rw (fresh, e) refl in
        (
          ap (λ p. p.1) made ∙ rw r refl,
          left,
          create_refused env' rule (create same reread env rule file).0 m' there,
        )
