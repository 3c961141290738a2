-- ===== src/Tests/Order.antt =====
-- A concrete order of names: label by label, from the root.
use smartdns_rs.Prelude.{
  List, Ordering, [], ap, arith, drop, false, if◌then◌else◌, length, length-reverse, length-take,
  ltb, refl, reverse, sym, take, take-append-drop, true, ℕ, ◌++◌, ◌∙◌, ◌∷◌, ◌≡◌, ◌≤◌,
}
use mathlib.Core.List.{reverse-append}
use smartdns_rs.Server.Ranking.{is_greater, then_with}
use smartdns_rs.Server.Domains.Nodes.{NameOrder, flip}
use smartdns_rs.Tests.Names.{numbers}

abbrev cmp_label : ℕ → ℕ → Ordering
cmp_label x y = if ltb x y then Ordering.lt else if ltb y x then Ordering.gt else Ordering.eq

abbrev lex : List ℕ → List ℕ → Ordering
lex [] [] = Ordering.eq
lex [] (y ∷ ys) = Ordering.lt
lex (x ∷ xs) [] = Ordering.gt
lex (x ∷ xs) (y ∷ ys) = then_with (cmp_label x y) (lex xs ys)

pub flip-lex : (xs ys : List ℕ) → lex ys xs ≡ flip (lex xs ys)
flip-lex [] [] = refl
flip-lex [] (y ∷ ys) = refl
flip-lex (x ∷ xs) [] = refl
flip-lex (x ∷ xs) (y ∷ ys) = ground (arith, flip-lex xs ys)

pub lex_trans :
    (xs ys zs : List ℕ)
    → is_greater (lex xs ys) ≡ false
    → is_greater (lex ys zs) ≡ false
    → is_greater (lex xs zs) ≡ false
lex_trans [] ys [] h g = refl
lex_trans [] ys (z ∷ zs) h g = refl
lex_trans (x ∷ xs) [] zs h g = absurd (cc h)
lex_trans (x ∷ xs) (y ∷ ys) [] h g = absurd (cc g)
lex_trans (x ∷ xs) (y ∷ ys) (z ∷ zs) h g = ground (arith, h, g, lex_trans xs ys zs)

lex_refl : (xs : List ℕ) → lex xs xs ≡ Ordering.eq
lex_refl [] = refl
lex_refl (x ∷ xs) = ground (arith, lex_refl xs)

lex-append : (xs ys : List ℕ) → 1 ≤ length ys → is_greater (lex (xs ++ ys) xs) ≡ true
lex-append [] [] h = absurd (omega arith)
lex-append [] (y ∷ ys) h = refl
lex-append (x ∷ xs) ys h = ground (arith, lex-append xs ys h)

pub lex-drop :
    (k : ℕ) (xs : List ℕ)
    → 1 ≤ k
    → k ≤ length xs
    → is_greater (lex (reverse xs) (reverse (drop k xs))) ≡ true
lex-drop k xs least short =
    let size : length (reverse (take k xs)) ≡ k =
      length-reverse (take k xs) ∙ length-take k xs ∙ omega (arith, short) in
    let split : reverse xs ≡ reverse (drop k xs) ++ reverse (take k xs) =
      ap reverse (sym (take-append-drop k xs)) ∙ reverse-append (take k xs) (drop k xs) in
    ap (λ l. is_greater (lex l (reverse (drop k xs)))) split
    ∙ lex-append (reverse (drop k xs)) (reverse (take k xs)) (omega (arith, size, least))

abbrev pub by_labels : NameOrder numbers
by_labels = record {
  cmp_names = λ a b. lex (reverse a.0) (reverse b.0);
  cmp_reverse = λ a b. flip-lex (reverse a.0) (reverse b.0);
  cmp_trans = λ a b c h g. lex_trans (reverse a.0) (reverse b.0) (reverse c.0) h g;
  cmp_above = λ k a b least short same.
      ap (λ l. is_greater (lex (reverse b.0) (reverse l))) same ∙ lex-drop k b.0 least short;
}
