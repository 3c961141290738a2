-- ===== src/Tests/Domains.antt =====
-- Concrete inputs for the theorems on domain rules, and runs of their definitions.
use smartdns_rs.Prelude.{[], arith, false, map, none, refl, some, true, ℕ, ◌∷◌, ◌≡◌, ◌≤◌}
use smartdns_rs.Tests.Names.{Any, NumName, any_apart, numbers}
use smartdns_rs.Server.Domains.{
  default_rule, first_label_is_match, full, same_rule, suffix, hash_code, is_match, is_sub, on_base,
  rule_base, sub, Wildcard_is_match,
}
use smartdns_rs.Server.Domains.Map.{
  DomainMap, drop_key, retain_others, at_level, empty_map, find, find_from, first_wildcard, get,
  insert, push_wildcard, put, remove, store_rule,
}
use smartdns_rs.Server.Domains.Turns.{IsCovered}
use smartdns_rs.Server.Domains.Sound.{IsSound, empty_map-IsSound}
use smartdns_rs.Server.Domains.Kept.{changes-IsSound, insert-IsSound, qualified_rule}
use smartdns_rs.Server.Domains.Ends.{find-ends}
use smartdns_rs.Server.Domains.Answers.{IsAnswer, find-IsAnswer}
use smartdns_rs.Server.Domains.Others.{find-insert_other}

-- `com`, `example.com` and `www.example.com`, without the root.
abbrev pub dot_com : NumName
dot_com = (7 ∷ [], false)

abbrev pub example : NumName
example = (5 ∷ 7 ∷ [], false)

abbrev pub www : NumName
www = (3 ∷ 5 ∷ 7 ∷ [], false)

abbrev with_com : DomainMap NumName ℕ ℕ
with_com = (insert numbers (default_rule dot_com) 10 empty_map).0

-- `/com/` and `/*.example.com/`
abbrev two_rules : DomainMap NumName ℕ ℕ
two_rules = (insert numbers (sub 0 example) 20 with_com).0

pub known : 0 ≤ 1
known = omega arith

pub all_covered : (q : NumName) → IsCovered numbers Any q
all_covered q k n same = (known, known, known)

two_rules-IsSound : IsSound numbers Any two_rules
two_rules-IsSound = insert-IsSound numbers Any (sub 0 example) 20 with_com any_apart known (
    insert-IsSound numbers Any (default_rule dot_com) 10 empty_map any_apart known
      (empty_map-IsSound numbers Any))

changes-IsSound_example :
    IsSound numbers Any (insert numbers (full www) 30 two_rules).0
    × IsSound numbers Any (remove numbers (sub 0 (5 ∷ 7 ∷ [], true)) two_rules).0
changes-IsSound_example =
    changes-IsSound numbers Any (full www) (sub 0 (5 ∷ 7 ∷ [], true)) 30 two_rules any_apart known
      two_rules-IsSound

find-IsAnswer_example : IsAnswer numbers Any two_rules www (find numbers two_rules www)
find-IsAnswer_example =
    find-IsAnswer numbers Any two_rules www two_rules-IsSound (omega arith) (all_covered www)

-- The wildcard is the more specific of the two rules that match, and does not reach further down.
find_run :
    (find numbers two_rules www ≡ some 20)
    × (find numbers two_rules (2 ∷ 3 ∷ 5 ∷ 7 ∷ [], false) ≡ some 10)
    × (find numbers two_rules (9 ∷ [], false) ≡ none)
unfolding find find_from at_level first_wildcard get put insert store_rule push_wildcard on_base
    rule_base is_sub hash_code is_match first_label_is_match Wildcard_is_match
find_run = (refl, refl, refl)

find-ends_example :
    find_from numbers 18 two_rules 0 www www ≡ find_from numbers 8 two_rules 0 www www
find-ends_example = find-ends numbers two_rules www 10

other_mismatch : is_match numbers (qualified_rule numbers (full (9 ∷ 7 ∷ [], false))) www ≡ false
unfolding is_match on_base
other_mismatch = refl

find-insert_other_example :
    find numbers (insert numbers (full (9 ∷ 7 ∷ [], false)) 30 two_rules).0 www
    ≡ find numbers two_rules www
find-insert_other_example =
    find-insert_other numbers Any (full (9 ∷ 7 ∷ [], false)) 30 two_rules www any_apart known
      two_rules-IsSound (omega arith) (all_covered www) other_mismatch

-- Which of `example.com`, a name in it and a name further down a rule of each kind matches.
matches_run :
    (map (is_match numbers (default_rule example)) (example ∷ www ∷ (2 ∷ www.0, false) ∷ [])
      ≡ true ∷ true ∷ true ∷ [])
    × (map (is_match numbers (suffix example)) (example ∷ www ∷ (2 ∷ www.0, false) ∷ [])
        ≡ false ∷ true ∷ true ∷ [])
    × (map (is_match numbers (sub 0 example)) (example ∷ www ∷ (2 ∷ www.0, false) ∷ [])
        ≡ false ∷ true ∷ false ∷ [])
    × (map (is_match numbers (full example)) (example ∷ www ∷ (2 ∷ www.0, false) ∷ [])
        ≡ true ∷ false ∷ false ∷ [])
unfolding is_match first_label_is_match Wildcard_is_match
matches_run = (refl, refl, refl, refl)

-- A removed wildcard leaves the rule of the whole domain.
remove_run : find numbers (remove numbers (sub 0 (5 ∷ 7 ∷ [], true)) two_rules).0 www ≡ some 10
unfolding find find_from at_level first_wildcard get put drop_key insert store_rule remove
    retain_others push_wildcard same_rule on_base rule_base is_sub hash_code is_match
    first_label_is_match Wildcard_is_match
remove_run = refl
