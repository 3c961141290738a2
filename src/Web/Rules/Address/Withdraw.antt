-- ===== src/Web/Rules/Address/Withdraw.antt =====
-- Deleting a rule from the console to the managed file and back.
use smartdns_rs.Prelude.{
  Bool, List, Option, Option-cases, [], if◌then◌else◌, inl, inr, keep_if, none, not, refl, some,
  true, ℕ, ◌∷◌, ◌≡◌, ◌⊎◌,
}
use Prim.Native.String.{String}
use smartdns_rs.Server.Addresses.{
  AddressRule, ManagedFile, status_of, Surroundings, delete, ConfigLine, completes,
}
use smartdns_rs.Server.Addresses.Laws.{rules_of}
use smartdns_rs.Server.Addresses.Answers.{delete_status, HoldsRules, AfterError}
use smartdns_rs.Web.Api.Client.{api_delete, fulfilled}
use smartdns_rs.Web.Parts.{success, error}
use smartdns_rs.Web.Rules.Address.{
  AddressTab, AddressMsg, handle_delete, delete_success, delete_error, update,
}
use smartdns_rs.Web.Rules.Address.Submit.{response}
use smartdns_rs.Web.Runtime.{Json}

-- `read_domain` reads the text of the request's body, and rejects some with status 422.
module _ {D : Type 0} (same : D → D → Bool) (reread : List (ConfigLine D) → ManagedFile D)
    (read_domain : String → Option D) where
  abbrev pub answer_delete : Surroundings D → Option D → ManagedFile D → ManagedFile D × ℕ
  answer_delete env none file = (file, 422)
  answer_delete env (some domain) file =
      let (file', result) = delete same reread env domain file in (file', status_of result)

  -- The callback that an answer with a status leads to.
  abbrev pub settled : ℕ → AddressMsg
  settled status =
      if fulfilled (api_delete (some (response status))) then delete_success else delete_error

  -- A press of the delete button of a rule, its request, the server's work and the callback.
  pub withdraw :
      (Json → String)
      → Surroundings D
      → AddressTab
      → String
      → ManagedFile D
      → AddressTab × ManagedFile D
  withdraw stringify env s d file =
      let (s', sent) = update stringify s (handle_delete d) in
      let (file', status) = answer_delete env (read_domain d) file in
      elim sent [ [] ↦ (s', file) | _ ∷ _ ↦ ((update stringify s' (settled status)).0, file') ]

  -- The rules but those of the domain.
  abbrev pub rules_left : D → ManagedFile D → List (AddressRule D)
  rules_left domain file = keep_if (λ r. not (same r.domain domain)) (rules_of file)

  -- The rules of the other domains were written, and success is told.
  pub record Withdrawn (env : Surroundings D) (s' : AddressTab) (domain : D)
      (file file' : ManagedFile D) : Type 0 where
    pub told : s'.snackbar.severity ≡ success
    pub reloaded : (env.write ≡ completes) × (env.reloads ≡ true)
    pub others : HoldsRules reread (rules_left domain file) file'

  -- An error is told; a request that the server does not read leaves the file as it is.
  pub record Kept (env : Surroundings D) (s' : AddressTab) (d : String) (file file' : ManagedFile D)
      : Type 0 where
    pub told : s'.snackbar.severity ≡ error
    pub kept :
        (file' ≡ file)
        ⊎ ((domain : D) × (read_domain d ≡ some domain)
            × AfterError reread env (rules_left domain file) file file')

  -- A press of the delete button of a rule ends in one of two ways, whatever the server and its
  -- file system do. Either success is told; then the server has read a domain, has written the
  -- rules of the file but those of this domain, in their order, and has reloaded, and the file is
  -- what the written lines read as. Or an error is told; then the file is as it was, or the write
  -- broke off and left the file, or those rules were written and the reload failed.
  pub withdraw_cases :
      (stringify : Json → String) (env : Surroundings D) (s : AddressTab) (d : String)
      (file : ManagedFile D)
      → (let (s', file') = withdraw stringify env s d file in
          ((domain : D) × (read_domain d ≡ some domain) × Withdrawn env s' domain file file')
          ⊎ Kept env s' d file file')
  unfolding withdraw update api_delete
  withdraw_cases stringify env s d file = elim (Option-cases (read_domain d)) [
    | inl unread ↦ rw unread (inr (refused (inl refl)))
    | inr (domain, e) ↦ elim (delete_status same reread env domain file) [
      | inl (deleted, complete, reloaded, others) ↦
          rw (e, deleted)
            (inl (
              domain,
              refl,
              record { told = refl; reloaded = (complete, reloaded); others = others },
            ))
      | inr (inl failed, kept) ↦ rw (e, failed) (inr (refused (inr (domain, e, kept))))
      | inr (inr failed, kept) ↦ rw (e, failed) (inr (refused (inr (domain, e, kept))))
    ]
  ]
    where
      refused :
          {file' : ManagedFile D}
          → ((file' ≡ file)
              ⊎ ((domain : D) × (read_domain d ≡ some domain)
                  × AfterError reread env (rules_left domain file) file file'))
          → Kept env (update stringify s delete_error).0 d file file'
      refused kept = record { told = refl; kept = kept }
