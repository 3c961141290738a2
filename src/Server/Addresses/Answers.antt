-- ===== src/Server/Addresses/Answers.antt =====
-- What the answers of src/api/address.rs say of the managed file.
use smartdns_rs.Prelude.{
  Bool, Bool-cases, List, [], false, if_false, if_true, inl, inr, keep_if, not, true, ℕ, ◌++◌, ◌∙◌,
  ◌∷◌, ◌≡◌, ◌⊎◌,
}
use smartdns_rs.Server.Addresses.{
  AddressRule, ConfigLine, ManagedFile, ApiResult, Surroundings, ok, err, internal, not_found,
  completes, breaks_off, is_kept, rules, create, delete,
}
use smartdns_rs.Server.Addresses.Laws.{rules_of, NotWritten, Written, create_cases, delete_cases}

-- The file is what some lines with these rules read as once they were written.
abbrev pub HoldsRules :
    {D : Type 0}
    → (List (ConfigLine D) → ManagedFile D)
    → List (AddressRule D)
    → ManagedFile D
    → Type 0
HoldsRules reread rs file' =
    (ls : List (ConfigLine _)) × (file' ≡ reread (keep_if is_kept ls)) × (rules ls ≡ rs)

-- What an answer by an error means for the file that was to hold these rules: it is as it was, the
-- write broke off, or the write completed and the reload failed.
abbrev pub AfterError :
    {D : Type 0}
    → (List (ConfigLine D) → ManagedFile D)
    → Surroundings D
    → List (AddressRule D)
    → ManagedFile D
    → ManagedFile D
    → Type 0
AfterError reread env rs file file' =
    (file' ≡ file)
    ⊎ (env.write ≡ breaks_off file')
    ⊎ (env.write ≡ completes) × (env.reloads ≡ false) × HoldsRules reread rs file'

module _ {D : Type 0} (same : D → D → Bool) (reread : List (ConfigLine D) → ManagedFile D) where
  -- The answer is the status, and the rules were written and loaded; or it is an error.
  answer_cases :
      (env : Surroundings D) (rs : List (AddressRule D)) (status : ℕ) (file file' : ManagedFile D)
      (result : ApiResult)
      → NotWritten env file file' result ⊎ Written same reread env rs status file' result
      → ((result ≡ ok status)
          × (env.write ≡ completes)
          × (env.reloads ≡ true)
          × HoldsRules reread rs file')
        ⊎ (((result ≡ err internal) ⊎ (result ≡ err not_found))
            × AfterError reread env rs file file')
  answer_cases env rs status file file' result (inl failed) = elim failed.kept [
    | inl same_file ↦ inr (failed.failure, inl same_file)
    | inr broken_off ↦ inr (failed.failure, inr (inl broken_off))
  ]
  answer_cases env rs status file file' result (inr w) =
      let holds : HoldsRules reread rs file' = (w.written_lines, w.read_back, w.of_rules) in
      elim (Bool-cases env.reloads) [
        | inl on ↦ inl (w.answer ∙ if_true env.reloads on _ _, w.complete, on, holds)
        | inr off ↦
            inr (inl (w.answer ∙ if_false env.reloads off _ _), inr (inr (w.complete, off, holds)))
      ]

  pub create_status :
      (env : Surroundings D) (rule : AddressRule D) (file : ManagedFile D)
      → (let (file', result) = create same reread env rule file in
          let rs = rules_of file ++ rule ∷ [] in
          ((result ≡ ok 201)
            × (env.write ≡ completes)
            × (env.reloads ≡ true)
            × HoldsRules reread rs file')
          ⊎ (((result ≡ err internal) ⊎ (result ≡ err not_found))
              × AfterError reread env rs file file'))
  create_status env rule file =
      answer_cases env _ 201 file _ _ (elim (create_cases same reread env rule file) [
        | inl failed ↦ inl failed
        | inr (fresh, written) ↦ inr written
      ])

  pub delete_status :
      (env : Surroundings D) (domain : D) (file : ManagedFile D)
      → (let (file', result) = delete same reread env domain file in
          let rs = keep_if (λ (r : AddressRule D). not (same r.domain domain)) (rules_of file) in
          ((result ≡ ok 204)
            × (env.write ≡ completes)
            × (env.reloads ≡ true)
            × HoldsRules reread rs file')
          ⊎ (((result ≡ err internal) ⊎ (result ≡ err not_found))
              × AfterError reread env rs file file'))
  delete_status env domain file =
      answer_cases env _ 204 file _ _ (delete_cases same reread env domain file)
