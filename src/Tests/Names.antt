-- ===== src/Tests/Names.antt =====
-- Concrete names for the theorems on domain rules: labels are numbers, and 0 is `*`.
use smartdns_rs.Prelude.{
  Bool, List, [], ap, arith, drop, false, leb, length, length-drop, refl, suc, true, zero, ℕ, ◌&&◌,
  ◌*◌, ◌+◌, ◌-◌, ◌==◌, ◌↔◌, ◌∙◌, ◌∷◌, ◌≡◌, ◌≤◌,
}
use smartdns_rs.Server.Domains.{Names, WildcardName, default_rule, full, hash_code, sub, suffix}
use smartdns_rs.Server.Domains.Sound.{IsApart}

abbrev pub NumName : Type 0
NumName = List ℕ × Bool

abbrev same_list : List ℕ → List ℕ → Bool
same_list [] [] = true
same_list [] (y ∷ ys) = false
same_list (x ∷ xs) [] = false
same_list (x ∷ xs) (y ∷ ys) = x == y && same_list xs ys

abbrev nil : List ℕ → Bool
nil [] = true
nil (x ∷ xs) = false

abbrev starred : List ℕ → Bool
starred [] = false
starred (x ∷ xs) = x == 0

abbrev zone_test : List ℕ → List ℕ → Bool
zone_test a b = leb (length a) (length b) && same_list a (drop (length b - length a) b)

-- Pairs of numbers as numbers, each once.
abbrev shift : ℕ → ℕ → ℕ
shift zero c = 2 * c + 1
shift (suc x) c = 2 * shift x c

abbrev code : List ℕ → ℕ
code [] = 0
code (x ∷ xs) = shift x (code xs)

abbrev bit : Bool → ℕ
bit true = 1
bit false = 0

abbrev name_code : NumName → ℕ
name_code (ls, fqdn) = shift (bit fqdn) (code ls)

shift-pos : (x c : ℕ) → 1 ≤ shift x c
shift-pos zero c = omega arith
shift-pos (suc x) c = omega (arith, shift-pos x c)

shift_inj : (x c y d : ℕ) → shift x c ≡ shift y d → (x ≡ y) × (c ≡ d)
shift_inj zero c zero d h = (refl, omega (arith, h))
shift_inj zero c (suc y) d h = absurd (omega (arith, h))
shift_inj (suc x) c zero d h = absurd (omega (arith, h))
shift_inj (suc x) c (suc y) d h =
    let (first, rest) = shift_inj x c y d (omega (arith, h)) in (ap suc first, rest)

code_inj : (xs ys : List ℕ) → code xs ≡ code ys → xs ≡ ys
code_inj [] [] h = refl
code_inj [] (y ∷ ys) h = absurd (omega (arith, h, shift-pos y (code ys)))
code_inj (x ∷ xs) [] h = absurd (omega (arith, h, shift-pos x (code xs)))
code_inj (x ∷ xs) (y ∷ ys) h =
    let (first, rest) = shift_inj x (code xs) y (code ys) h in
    let tails = code_inj xs ys rest in cc (first, tails)

bit_inj : (a b : Bool) → bit a ≡ bit b → a ≡ b
bit_inj true true h = refl
bit_inj true false h = absurd (omega (arith, h))
bit_inj false true h = absurd (omega (arith, h))
bit_inj false false h = refl

pub name_code_inj : (m n : NumName) → name_code m ≡ name_code n → m ≡ n
name_code_inj (a, x) (b, y) h =
    let (first, rest) = shift_inj (bit x) (code a) (bit y) (code b) h in
    let labels = code_inj a b rest in let fqdn = bit_inj x y first in cc (labels, fqdn)

pub same_list_iff : (a b : List ℕ) → (same_list a b ≡ true) ↔ (a ≡ b)
same_list_iff [] [] = (λ h. refl, λ h. refl)
same_list_iff [] (y ∷ ys) = (λ h. absurd (cc h), λ h. absurd (cc h))
same_list_iff (x ∷ xs) [] = (λ h. absurd (cc h), λ h. absurd (cc h))
same_list_iff (x ∷ xs) (y ∷ ys) =
    let rest = same_list_iff xs ys in
    (
      λ h.
          let tails = rest.0 (ground (arith, h)) in
          let heads : x ≡ y = ground (arith, h) in cc (tails, heads),
      λ h. let heads : x ≡ y = cc h in let tails = rest.1 (cc h) in ground (arith, heads, tails),
    )

pub zone_test_iff :
    (a b : List ℕ) → (zone_test a b ≡ true) ↔ ((k : ℕ) × (k ≤ length b) × (a ≡ drop k b))
zone_test_iff a b = (
  λ h. (
    length b - length a,
    omega arith,
    (same_list_iff a (drop (length b - length a) b)).0 (ground (arith, h)),
  ),
  λ (k, short, same).
      let size : length a ≡ length b - k = ap length same ∙ length-drop k b in
      let level : k ≡ length b - length a = omega (arith, size, short) in
      let here =
        (same_list_iff a (drop (length b - length a) b)).1 (same ∙ ap (λ j. drop j b) level) in
      ground (arith, size, here),
)

bool_and : (a b : Bool) → (a && b) ≡ true → (a ≡ true) × (b ≡ true)
bool_and true b h = (refl, h)
bool_and false b h = absurd (cc h)

pub root_labels : (ls : List ℕ) (fqdn : Bool) → fqdn ≡ true → ((fqdn && nil ls) ≡ true) ↔ (ls ≡ [])
root_labels [] fqdn h = (λ r. refl, λ r. rw h refl)
root_labels (x ∷ xs) fqdn h = (λ r. absurd (cc (bool_and fqdn false r).1), λ r. absurd (cc r))

abbrev pub numbers : Names NumName ℕ ℕ
numbers = record {
  labels = λ n. n.0;
  is_fqdn = λ n. n.1;
  is_root = λ n. n.1 && nil n.0;
  is_wildcard = λ n. starred n.0;
  fully_qualified = λ n. (n.0, true);
  base_name = λ n. (drop 1 n.0, true);
  zone_of = λ a b. zone_test a.0 b.0;
  eq_ignore_root_case = λ a b. same_list a.0 b.0;
  name_hash = name_code;
  empty_pattern = 0;
  is_empty_pattern = λ p. p == 0;
  pattern_is_match = λ p l. p == l;
  same_pattern = λ p q. p == q;
  same_name = λ a b. name_code a == name_code b;
  default_hash = λ n. shift 0 (name_code n);
  suffix_hash = λ n. shift 1 (name_code n);
  sub_hash = λ p n. shift 2 (shift p (name_code n));
  full_hash = λ n. shift 3 (name_code n);
  labels-base_name = λ n. refl;
  labels-fully_qualified = λ n. refl;
  is_fqdn-fully_qualified = λ n. refl;
  is_root-labels = λ n h. root_labels n.0 n.1 h;
  zone_of_iff = λ a b. zone_test_iff a.0 b.0;
  eq_ignore_root_case_iff = λ a b. same_list_iff a.0 b.0;
  name_ext = λ a b same one other. name_code_inj a b (cc (same, one, other));
  eq_of_same_name = λ a b h. name_code_inj a b (ground (arith, h));
  eq_of_same_pattern = λ a b h. ground (arith, h);
}

-- All rules are in use, and no two have one hash.
abbrev pub Any : WildcardName NumName ℕ → Type 0
Any w = 0 ≤ 1

pub any_apart : IsApart numbers Any
unfolding hash_code
any_apart (default_rule a) (default_rule b) p q h =
    ap default_rule (name_code_inj a b (shift_inj 0 _ 0 _ h).1)
any_apart (suffix a) (suffix b) p q h = ap suffix (name_code_inj a b (shift_inj 1 _ 1 _ h).1)
any_apart (full a) (full b) p q h = ap full (name_code_inj a b (shift_inj 3 _ 3 _ h).1)
any_apart (sub v a) (sub w b) p q h =
    let (patterns, names) = shift_inj v _ w _ (shift_inj 2 _ 2 _ h).1 in
    let bases = name_code_inj a b names in cc (patterns, bases)
any_apart (default_rule a) (suffix b) p q h = absurd (omega (arith, (shift_inj 0 _ 1 _ h).0))
any_apart (default_rule a) (sub w b) p q h = absurd (omega (arith, (shift_inj 0 _ 2 _ h).0))
any_apart (default_rule a) (full b) p q h = absurd (omega (arith, (shift_inj 0 _ 3 _ h).0))
any_apart (suffix a) (default_rule b) p q h = absurd (omega (arith, (shift_inj 1 _ 0 _ h).0))
any_apart (suffix a) (sub w b) p q h = absurd (omega (arith, (shift_inj 1 _ 2 _ h).0))
any_apart (suffix a) (full b) p q h = absurd (omega (arith, (shift_inj 1 _ 3 _ h).0))
any_apart (sub v a) (default_rule b) p q h = absurd (omega (arith, (shift_inj 2 _ 0 _ h).0))
any_apart (sub v a) (suffix b) p q h = absurd (omega (arith, (shift_inj 2 _ 1 _ h).0))
any_apart (sub v a) (full b) p q h = absurd (omega (arith, (shift_inj 2 _ 3 _ h).0))
any_apart (full a) (default_rule b) p q h = absurd (omega (arith, (shift_inj 3 _ 0 _ h).0))
any_apart (full a) (suffix b) p q h = absurd (omega (arith, (shift_inj 3 _ 1 _ h).0))
any_apart (full a) (sub w b) p q h = absurd (omega (arith, (shift_inj 3 _ 2 _ h).0))
