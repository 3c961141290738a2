-- ===== src/Server/Addresses/Remove.antt =====
-- Removing the collected indices from the last to the first is dropping the rules of the domain.
use smartdns_rs.Prelude.{
  Bool, Bool-cases, List, [], ap, append_assoc, arith, inl, inr, keep_if, length, length-append,
  not, refl, reverse, suc, ℕ, ◌++◌, ◌∷◌, ◌≡◌,
}
use mathlib.Core.List.{reverse-cons}
use smartdns_rs.Server.Addresses.{ConfigLine, is_rule_for, indices, remove, remove_each}

module _ {D : Type 0} where
  remove_each-append :
      (is js : List ℕ) (ls : List (ConfigLine D))
      → remove_each (is ++ js) ls ≡ remove_each js (remove_each is ls)
  unfolding remove_each
  remove_each-append [] js ls = refl
  remove_each-append (i ∷ is) js ls = remove_each-append is js (remove i ls)

  remove-front :
      (front ls : List (ConfigLine D)) (l : ConfigLine D)
      → remove (length front) (front ++ l ∷ ls) ≡ front ++ ls
  unfolding remove
  remove-front [] ls l = refl
  remove-front (x ∷ front) ls l = ap (◌∷◌ x) (remove-front front ls l)

module _ {D : Type 0} (same : D → D → Bool) (domain : D) where
  abbrev pub others : List (ConfigLine D) → List (ConfigLine D)
  others = keep_if (λ l. not (is_rule_for same domain l))

  -- Counted from `i`, in a list with `i` lines in front.
  remove_each-front :
      (front ls : List (ConfigLine D))
      → remove_each (reverse (indices same domain (length front) ls)) (front ++ ls)
        ≡ front ++ others ls
  unfolding remove_each indices
  remove_each-front front [] = refl
  remove_each-front front (l ∷ ls) =
      let e : length (front ++ l ∷ []) ≡ suc (length front) =
        omega (arith, length-append front (l ∷ [])) in
      let is = indices same domain (suc (length front)) ls in
      let ih : remove_each (reverse is) (front ++ l ∷ ls) ≡ front ++ l ∷ others ls =
        rw (e, append_assoc, append_assoc) at (remove_each-front (front ++ l ∷ []) ls) in
      elim (Bool-cases (is_rule_for same domain l)) [
        | inl found ↦
            rw
              (
                found,
                reverse-cons (length front) is,
                remove_each-append (reverse is) (length front ∷ []) (front ++ l ∷ ls),
                ih,
              )
              (remove-front front (others ls) l)
        | inr not_found ↦ rw not_found ih
      ]

  -- The collected indices, removed from the last to the first, take away just the rules of the
  -- domain.
  pub remove_each-others :
      (ls : List (ConfigLine D)) → remove_each (reverse (indices same domain 0 ls)) ls ≡ others ls
  remove_each-others ls = remove_each-front [] ls
