-- ===== src/Tests/Web.antt =====
-- Concrete inputs for the theorems on the console.
use smartdns_rs.Prelude.{
  Bool, CaseMap, List, Option, String, [], arith, false, if◌then◌else◌, keep_if, length, ltb, none,
  refl, reverse, show, some, suc, take, true, zero, ℕ, ◌*◌, ◌/◌, ◌<>◌, ◌=s=◌, ◌∷◌, ◌≡◌, ◌⊎◌,
}
use smartdns_rs.Server.Addresses.{
  AddressRule, other_line, ManagedFile, lines, completes, Surroundings,
}
use smartdns_rs.Server.Audit
use smartdns_rs.Server.Caches.{DataListPayload, sent, caches}
use smartdns_rs.Server.Caches.Paging.{window_payload}
use smartdns_rs.Server.QueryLog.{query_log}
use smartdns_rs.Web.Api.{AddressesResponse, CacheEntry, CacheConfigResponse}
use smartdns_rs.Web.Api.Hooks.{log_search}
use smartdns_rs.Web.Cache
use smartdns_rs.Web.Cache.{CacheTab, close_snackbar, set_page, handle_flush, set_search}
use smartdns_rs.Web.Cache.Paging.{browse, browse-page_count, tab_params, loaded}
use smartdns_rs.Web.Cache.Session
use smartdns_rs.Web.Cache.Session.{later_page_stuck}
use smartdns_rs.Web.Cache.View as CacheView
use smartdns_rs.Web.Cache.View.{page_count, entries_section, no_entries}
use smartdns_rs.Web.Layout.{Dashboard, cache}
use smartdns_rs.Web.QueryLog
use smartdns_rs.Web.QueryLog.Laws.{read_params, wanted, query_log-wanted}
use smartdns_rs.Web.Rules.Address
use smartdns_rs.Web.Rules.Address.{AddressTab}
use smartdns_rs.Web.Rules.Address.Submit.{submit, submit_cases, Added, Refused}
use smartdns_rs.Web.Rules.Address.Withdraw.{withdraw, withdraw_cases, Withdrawn, Kept}
use smartdns_rs.Web.Runtime.{Json, Runtime, Query}
use smartdns_rs.Web.View.{presses, tagged}

abbrev cm : CaseMap
cm = record { to_lower = λ s. s; to_upper = λ s. s }

abbrev pub js : Runtime
js = record {
  Number = ℕ;
  of_nat = λ n. n;
  mul = λ x y. x * y;
  div = λ x y. x / y;
  geb = λ x y. ltb y (suc x);
  to_fixed = λ n d. show n;
  to_locale_string = λ n. show n;
  locale_date = λ s. some s;
  case_map = cm;
  stringify = λ j. "{}";
  round = λ n. n;
  to_text = λ j. "";
}

abbrev sixty : ℕ → List ℕ
sixty zero = []
sixty (suc n) = n ∷ sixty n

browse-page_count_example :
    browse (page_count (length (sixty 60))) 1 Cache.init (sixty 60) ≡ sixty 60
browse-page_count_example = browse-page_count Cache.init (sixty 60) (omega arith)

second_page :
    Session.Reach 60 (Cache.update (Cache.update Cache.init (set_page 2)).0 (set_search "a")).0
second_page =
    Session.Reach.next
      (Session.Reach.next Session.Reach.here
        (Session.Step.select 60 2 (omega arith) (omega arith) (omega arith) (omega arith)))
      (Session.Step.search "a")

abbrev searching : CacheTab
searching = (Cache.update (Cache.update Cache.init (set_page 2)).0 (set_search "a")).0

Reach-caches_example :
    caches (sixty 60) (tab_params searching)
    ≡ sent (window_payload (sixty 60) (Cache.offset searching) 50)
Reach-caches_example = Session.Reach-caches second_page (sixty 60) (omega arith)

abbrev on_second : CacheTab
on_second = record Cache.init { page = 2 }

abbrev cached : CacheEntry
cached = record {
  name = "a.example";
  hits = 1;
  last_access = "";
  query_type = Json.null;
  records = [];
}

abbrev no_config : Query CacheConfigResponse
no_config = record { value = none; is_loading = true; error = false }

later_page_stuck_example :
    (p : DataListPayload CacheEntry) × (caches (cached ∷ []) (tab_params on_second) ≡ sent p)
    × (entries_section js on_second (loaded p) ≡ no_entries js on_second.search)
    × (tagged "Pagination" (CacheView.view js on_second (loaded p) no_config false) ≡ [])
    × (presses (CacheView.view js on_second (loaded p) no_config false)
        ≡ handle_flush ∷ (if on_second.snackbar.opened then close_snackbar ∷ [] else []))
later_page_stuck_example =
    later_page_stuck js on_second (cached ∷ []) no_config (omega arith) (omega arith) (omega arith)

-- Domains are texts, and the server reads every rule.
abbrev same : String → String → Bool
same d e = d =s= e

abbrev read_rule : String → String → Option (AddressRule String)
read_rule d a = some (record { domain = d; address = a })

abbrev fine : Surroundings String
fine = record { managed_dir = true; write = completes; reloads = true }

abbrev filled : AddressTab
filled = record Address.init { dialog_open = true; domain = "a.example"; address = "1.2.3.4" }

abbrev conf : ManagedFile String
conf = lines (other_line "bind :53" ∷ [])

submit_cases_example :
    (let (s', file') = submit same lines read_rule (λ j. "{}") fine filled conf in
      ((rule : AddressRule String) × (read_rule filled.domain filled.address ≡ some rule)
        × Added same lines read_rule fine s' rule conf file')
      ⊎ Refused same lines read_rule fine filled s' conf file')
submit_cases_example = submit_cases same lines read_rule (λ j. "{}") fine filled conf refl refl

abbrev entry : Audit.QueryLogEntry ℕ
entry = record {
  time = "2024-01-01";
  client = "10.0.0.1";
  domain = "a.example";
  query_type = "A";
  elapsed_ms = 4;
  result = "success";
  speed_ms = none;
  source = "Server";
}

abbrev log_tab : QueryLog.QueryLogTab
log_tab = record QueryLog.init { domain = "example" }

-- The one search string that the tab sends here, and its parts.
abbrev searched : List (String × String)
searched = ("limit", "100") ∷ ("domain", "example") ∷ []

abbrev to_string : List (String × String) → String
to_string [] = ""
to_string ((k, v) ∷ ps) = k <> "=" <> v <> "&" <> to_string ps

abbrev decode : String → List (String × String)
decode s = if s =s= "limit=100&domain=example&" then searched else []

abbrev parse : String → Option ℕ
parse s = if s =s= "100" then some 100 else none

query_log-wanted_example :
    query_log cm
      (entry ∷ [])
      (read_params parse (decode (to_string (log_search (QueryLog.params log_tab)))))
    ≡ record {
      total = length (keep_if (wanted cm log_tab) (reverse (entry ∷ [])));
      entries = take 100 (keep_if (wanted cm log_tab) (reverse (entry ∷ [])));
    }
unfolding log_search show
query_log-wanted_example = query_log-wanted cm to_string decode parse log_tab (entry ∷ []) refl refl

abbrev one_rule : Query AddressesResponse
one_rule = record {
  value =
      some
        (record { count = 1; items = record { domain = "b.example"; address = "1.1.1.1" } ∷ [] });
  is_loading = false;
  error = false;
}

abbrev on_cache : Dashboard
on_cache = record { current_tab = cache; mobile_open = true }

-- The domain of a text is the text itself.
withdraw_cases_example :
    (let (s', file') = withdraw same lines (λ d. some d) (λ j. "{}") fine filled "b.example" conf in
      ((domain : String) × (some "b.example" ≡ some domain)
        × Withdrawn same lines (λ d. some d) fine s' domain conf file')
      ⊎ Kept same lines (λ d. some d) fine s' "b.example" conf file')
withdraw_cases_example =
    withdraw_cases same lines (λ d. some d) (λ j. "{}") fine filled "b.example" conf
