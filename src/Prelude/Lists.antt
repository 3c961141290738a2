-- ===== src/Prelude/Lists.antt =====
-- Lists measured, cut and filtered with native numbers and Boolean tests.
use Prim.Native.Nat.{ℕ, zero, suc, ◌+◌, ◌-◌, ◌≤◌, min}
use mathlib.Core.Path.{◌≡◌, refl, sym, ap}
use mathlib.Core.Bool.{Bool, false, ◌||◌}
use mathlib.Core.List.{
  List, map, [], ◌∷◌, ◌++◌, reverse, reverse-cons, flat_map, append_assoc, append-nil,
}
use native.Mathlib.Omega.{arith}
use native.Mathlib.Nat.{zero-add, suc-add}
use native.Mathlib.Numerals.{add-one}
use mathlib.Core.Logic.{inl, inr}
use smartdns_rs.Prelude.Tests.{ltb, ltb→lt, tests, Bool-cases, if◌then◌else◌}

module _ {ℓ} {A : Type ℓ} where
  abbrev pub length : List A → ℕ
  length [] = 0
  length (x ∷ xs) = suc (length xs)

  abbrev pub take : ℕ → List A → List A
  take zero xs = []
  take (suc n) [] = []
  take (suc n) (x ∷ xs) = x ∷ take n xs

  abbrev pub drop : ℕ → List A → List A
  drop zero xs = xs
  drop (suc n) [] = []
  drop (suc n) (x ∷ xs) = drop n xs

  -- `Iterator::filter`, `Array.prototype.filter`, by a Boolean test.
  abbrev pub keep_if : (A → Bool) → List A → List A
  keep_if p [] = []
  keep_if p (x ∷ xs) = if p x then x ∷ keep_if p xs else keep_if p xs

  -- `xs.some(p)`.
  abbrev pub any : (A → Bool) → List A → Bool
  any p [] = false
  any p (x ∷ xs) = p x || any p xs

  pub eq-nil_of_length : (xs : List A) → length xs ≡ 0 → xs ≡ []
  eq-nil_of_length [] h = refl
  eq-nil_of_length (x ∷ xs) h = absurd (omega arith)

  pub any-snoc : (p : A → Bool) (xs : List A) (x : A) → any p (xs ++ x ∷ []) ≡ (any p xs || p x)
  any-snoc p [] x = ground arith
  any-snoc p (y ∷ xs) x = ground (arith, any-snoc p xs x)

  pub take_nil : (n : ℕ) → take n [] ≡ []
  take_nil zero = refl
  take_nil (suc n) = refl

  pub take_cons : (n : ℕ) (x : A) (xs : List A) → 1 ≤ n → take n (x ∷ xs) ≡ x ∷ take (n - 1) xs
  take_cons zero x xs h = absurd (omega arith)
  take_cons (suc n) x xs h = ap (λ k. x ∷ take k xs) (omega arith)

  pub length-append : (xs ys : List A) → length (xs ++ ys) ≡ length xs + length ys
  length-append [] ys = omega arith
  length-append (x ∷ xs) ys = omega (arith, length-append xs ys)

  pub length-reverse : (xs : List A) → length (reverse xs) ≡ length xs
  length-reverse [] = refl
  length-reverse (x ∷ xs) = simp (reverse-cons x xs, length-append, length-reverse xs, add-one)

  pub length-take : (n : ℕ) (xs : List A) → length (take n xs) ≡ min n (length xs)
  length-take zero xs = omega arith
  length-take (suc n) [] = omega arith
  length-take (suc n) (x ∷ xs) = omega (arith, length-take n xs)

  pub length-drop : (n : ℕ) (xs : List A) → length (drop n xs) ≡ length xs - n
  length-drop zero xs = omega arith
  length-drop (suc n) [] = omega arith
  length-drop (suc n) (x ∷ xs) = omega (arith, length-drop n xs)

  pub drop_of_length-le : (n : ℕ) (xs : List A) → length xs ≤ n → drop n xs ≡ []
  drop_of_length-le zero [] h = refl
  drop_of_length-le zero (x ∷ xs) h = absurd (omega arith)
  drop_of_length-le (suc n) [] h = refl
  drop_of_length-le (suc n) (x ∷ xs) h = drop_of_length-le n xs (omega arith)

  pub take-append-drop : (n : ℕ) (xs : List A) → take n xs ++ drop n xs ≡ xs
  take-append-drop zero xs = refl
  take-append-drop (suc n) [] = refl
  take-append-drop (suc n) (x ∷ xs) = rw (take-append-drop n xs)

  -- With nothing dropped, all is taken.
  pub take_of_length-le : (n : ℕ) (xs : List A) → length xs ≤ n → take n xs ≡ xs
  take_of_length-le n xs h =
      let all = take-append-drop n xs in rw (drop_of_length-le n xs h, append-nil) at all

  pub drop-drop : (m n : ℕ) (xs : List A) → drop m (drop n xs) ≡ drop (n + m) xs
  drop-drop m zero xs = rw zero-add
  drop-drop zero (suc n) [] = rw suc-add
  drop-drop (suc m) (suc n) [] = rw suc-add
  drop-drop m (suc n) (x ∷ xs) = rw suc-add (drop-drop m n xs)

  pub length-keep_if-le : (p : A → Bool) (xs : List A) → length (keep_if p xs) ≤ length xs
  length-keep_if-le p [] = omega arith
  length-keep_if-le p (x ∷ xs) = ground (arith, length-keep_if-le p xs)

  pub keep_if-append :
      (p : A → Bool) (xs ys : List A) → keep_if p (xs ++ ys) ≡ keep_if p xs ++ keep_if p ys
  keep_if-append p [] ys = refl
  keep_if-append p (x ∷ xs) ys = ground (arith, keep_if-append p xs ys)

  -- A page and what follows it are what follows the page's start.
  pub take-append-drop_next :
      (n i : ℕ) (xs : List A) → take n (drop i xs) ++ drop (i + n) xs ≡ drop i xs
  take-append-drop_next n i xs = rw (← drop-drop n i xs) (take-append-drop n (drop i xs))

  pub take-min-length : (n k : ℕ) (xs : List A) → length xs ≤ k → take (min n k) xs ≡ take n xs
  take-min-length n k xs h = elim (Bool-cases (ltb k n)) [
    | inl long ↦
        let e : min n k ≡ k = omega (tests, ltb→lt k n long) in
        rw (e, take_of_length-le k xs h)
          (sym (take_of_length-le n xs (omega (tests, ltb→lt k n long))))
    | inr short ↦ ap (λ j. take j xs) (ground arith)
  ]

  -- The last `n` elements.
  abbrev pub last_n : ℕ → List A → List A
  last_n n xs = drop (length xs - n) xs

  pub drop-append_of_le :
      (n : ℕ) (xs ys : List A) → n ≤ length xs → drop n (xs ++ ys) ≡ drop n xs ++ ys
  drop-append_of_le zero xs ys h = refl
  drop-append_of_le (suc n) [] ys h = absurd (omega arith)
  drop-append_of_le (suc n) (x ∷ xs) ys h = drop-append_of_le n xs ys (omega arith)

  -- A bounded queue, `push_back` then `pop_front` when too long, keeps the window.
  pub last_n-push :
      (n : ℕ) (xs : List A) (x : A)
      → (let q = last_n n xs ++ x ∷ [] in if ltb n (length q) then drop 1 q else q)
        ≡ last_n n (xs ++ x ∷ [])
  last_n-push n xs x =
      let k = length xs - n in
      let all = xs ++ x ∷ [] in
      let grown : length all ≡ length xs + 1 = length-append xs (x ∷ []) in
      rw (← drop-append_of_le k xs (x ∷ []) (omega arith), length-drop k all)
        (elim (Bool-cases (ltb n (length all - k))) [
          | inl long ↦
              rw (long, drop-drop 1 k all)
                (ap (λ j. drop j all) (omega (tests, grown, ltb→lt _ _ long)))
          | inr short ↦ rw short (ap (λ j. drop j all) (ground (arith, grown)))
        ])

-- A property of every element.
abbrev pub All {ℓ κ} : {A : Type ℓ} → (A → Type κ) → List A → Type κ
All P [] = Unit
All P (x ∷ xs) = P x × All P xs

module _ {ℓ κ} {A : Type ℓ} (P : A → Type κ) where
  pub All-snoc : (xs : List A) {x : A} → All P xs → P x → All P (xs ++ x ∷ [])
  All-snoc [] h p = (p, tt)
  All-snoc (y ∷ xs) (q, h) p = (q, All-snoc xs h p)

  pub All-keep_if : (test : A → Bool) (xs : List A) → All P xs → All P (keep_if test xs)
  All-keep_if test [] h = tt
  All-keep_if test (x ∷ xs) (p, h) =
      let rest = All-keep_if test xs h in
      elim (Bool-cases (test x)) [ inl y ↦ rw y (p, rest) | inr n ↦ rw n rest ]

pub flat_map-append {ℓ κ} :
    {A : Type ℓ} {B : Type κ} (f : A → List B) (xs ys : List A)
    → flat_map f (xs ++ ys) ≡ flat_map f xs ++ flat_map f ys
unfolding flat_map
flat_map-append f [] ys = refl
flat_map-append f (x ∷ xs) ys = simp (flat_map-append f xs ys, append_assoc)

pub length-map {ℓ κ} :
    {A : Type ℓ} {B : Type κ} (f : A → B) (xs : List A) → length (map f xs) ≡ length xs
length-map f [] = refl
length-map f (x ∷ xs) = ap suc (length-map f xs)
