-- ===== src/Web/Rules/Address/Submit.antt =====
-- Adding and deleting a rule from the console to the managed file and back.
use smartdns_rs.Prelude.{
  Bool, List, Option, Option-cases, [], arith, false, if◌then◌else◌, inl, inr, is_empty, none, refl,
  some, true, ℕ, ◌++◌, ◌∷◌, ◌≡◌, ◌⊎◌,
}
use Prim.Native.String.{String}
use smartdns_rs.Server.Addresses.{
  AddressRule, ManagedFile, status_of, Surroundings, create, ConfigLine, completes,
}
use smartdns_rs.Server.Addresses.Laws.{rules_of}
use smartdns_rs.Server.Addresses.Answers.{create_status, HoldsRules, AfterError}
use smartdns_rs.Web.Api.Client.{Response, api_post, fulfilled}
use smartdns_rs.Web.Parts.{success, error}
use smartdns_rs.Web.Rules.Address.{
  AddressTab, AddressMsg, handle_add, add_success, add_error, update,
}
use smartdns_rs.Web.Runtime.{Json}

-- The server's answer as `fetch` hands it over; these answers have no JSON body.
abbrev pub response : ℕ → Response (Unit {0})
response status = record { status = status; status_text = ""; json = none }

-- `read_rule` reads the two texts of the request's body, and rejects some with status 422.
module _ {D : Type 0} (same : D → D → Bool) (reread : List (ConfigLine D) → ManagedFile D)
    (read_rule : String → String → Option (AddressRule D)) where
  abbrev pub answer_create :
      Surroundings D → Option (AddressRule D) → ManagedFile D → ManagedFile D × ℕ
  answer_create env none file = (file, 422)
  answer_create env (some rule) file =
      let (file', result) = create same reread env rule file in (file', status_of result)

  -- The callback that an answer with a status leads to.
  abbrev pub settled : ℕ → AddressMsg
  settled status = if fulfilled (api_post (some (response status))) then add_success else add_error

  -- A press of the add button, its request, the server's work and the callback.
  pub submit :
      (Json → String) → Surroundings D → AddressTab → ManagedFile D → AddressTab × ManagedFile D
  submit stringify env s file =
      let (s', sent) = update stringify s handle_add in
      let (file', status) = answer_create env (read_rule s.domain s.address) file in
      elim sent [ [] ↦ (s', file) | _ ∷ _ ↦ ((update stringify s' (settled status)).0, file') ]

  -- The form is cleared and closed, and the rule was written behind those of the file.
  pub record Added (env : Surroundings D) (s' : AddressTab) (rule : AddressRule D)
      (file file' : ManagedFile D) : Type 0 where
    pub closed : s'.dialog_open ≡ false
    pub no_domain : s'.domain ≡ ""
    pub no_address : s'.address ≡ ""
    pub told : s'.snackbar.severity ≡ success
    pub reloaded : (env.write ≡ completes) × (env.reloads ≡ true)
    pub last : HoldsRules reread (rules_of file ++ rule ∷ []) file'

  -- The form keeps its texts and an error is shown; a request whose texts the server does not read
  -- leaves the file as it is.
  pub record Refused (env : Surroundings D) (s s' : AddressTab) (file file' : ManagedFile D)
      : Type 0 where
    pub same_dialog : s'.dialog_open ≡ s.dialog_open
    pub same_domain : s'.domain ≡ s.domain
    pub same_address : s'.address ≡ s.address
    pub told : s'.snackbar.severity ≡ error
    pub kept :
        (file' ≡ file)
        ⊎ ((rule : AddressRule D) × (read_rule s.domain s.address ≡ some rule)
            × AfterError reread env (rules_of file ++ rule ∷ []) file file')

  submit_lem :
      (stringify : Json → String) (env : Surroundings D) (s : AddressTab) (file : ManagedFile D)
      → is_empty s.domain ≡ false
      → is_empty s.address ≡ false
      → submit stringify env s file ≡ (
          let answer = answer_create env (read_rule s.domain s.address) file in
          ((update stringify s (settled answer.1)).0, answer.0))
  unfolding submit update
  submit_lem stringify env s file hd ha = ground arith

  -- A press of the add button with both texts given ends in one of two ways, whatever the server
  -- and its file system do. Either the form is cleared and closed and success is told; then the
  -- server has read a rule, has written the rules of the file and this rule behind them, and has
  -- reloaded, and the file is what the written lines read as. Or the form keeps its texts and an
  -- error is told; then the file is as it was, or the write broke off and left the file, or those
  -- rules were written and the reload failed.
  pub submit_cases :
      (stringify : Json → String) (env : Surroundings D) (s : AddressTab) (file : ManagedFile D)
      → is_empty s.domain ≡ false
      → is_empty s.address ≡ false
      → (let (s', file') = submit stringify env s file in
          ((rule : AddressRule D) × (read_rule s.domain s.address ≡ some rule)
            × Added env s' rule file file')
          ⊎ Refused env s s' file file')
  unfolding update api_post
  submit_cases stringify env s file hd ha =
      rw (submit_lem stringify env s file hd ha)
        (elim (Option-cases (read_rule s.domain s.address)) [
          | inl unread ↦ rw unread (inr (refused (inl refl)))
          | inr (rule, e) ↦ elim (create_status same reread env rule file) [
            | inl (created, complete, reloaded, last) ↦
                rw (e, created)
                  (inl (
                    rule,
                    refl,
                    record {
                      closed = refl;
                      no_domain = refl;
                      no_address = refl;
                      told = refl;
                      reloaded = (complete, reloaded);
                      last = last;
                    },
                  ))
            | inr (inl failed, kept) ↦ rw (e, failed) (inr (refused (inr (rule, e, kept))))
            | inr (inr failed, kept) ↦ rw (e, failed) (inr (refused (inr (rule, e, kept))))
          ]
        ])
    where
      refused :
          {file' : ManagedFile D}
          → ((file' ≡ file)
              ⊎ ((rule : AddressRule D) × (read_rule s.domain s.address ≡ some rule)
                  × AfterError reread env (rules_of file ++ rule ∷ []) file file'))
          → Refused env s (update stringify s add_error).0 file file'
      refused kept = record {
        same_dialog = refl;
        same_domain = refl;
        same_address = refl;
        told = refl;
        kept = kept;
      }
