-- ===== src/Base/Two.antt =====
-- Lists with two new elements at their end.
use mathlib.Core.List.{List, [], ◌∷◌, ◌++◌}
use mathlib.Core.Option.{some}
use mathlib.Core.Path.{◌≡◌, ap, ◌∙◌}
use Prim.Native.Nat.{ℕ, zero, suc, ◌+◌, ◌<◌}
use native.Mathlib.Omega.{arith}
use ltl.Base.Lists.{
  length, get_elem?, set, get_elem?-append_left, get_elem?-append_new, set-append_left,
  set-append_new, length-append,
}

module _ {ℓ} {A : Type ℓ} where
  pub get_elem?_bound : (xs : List A) (i : ℕ) {v : A} → get_elem? xs i ≡ some v → i < length xs
  get_elem?_bound [] i e = cc
  get_elem?_bound (x ∷ xs) zero e = omega arith
  get_elem?_bound (x ∷ xs) (suc i) e = omega (arith, get_elem?_bound xs i e)

  abbrev pub two : List A → A → A → List A
  two xs a z = (xs ++ a ∷ []) ++ z ∷ []

  two_length : (xs : List A) (a : A) → suc (length xs) ≡ length (xs ++ a ∷ [])
  two_length xs a = omega (arith, length-append xs (a ∷ []))

  pub get_elem?-two :
      (xs : List A) (a z : A) (i : ℕ) {v : A}
      → get_elem? xs i ≡ some v
      → get_elem? (two xs a z) i ≡ some v
  get_elem?-two xs a z i e =
      get_elem?-append_left (xs ++ a ∷ []) (z ∷ []) i (get_elem?-append_left xs (a ∷ []) i e)

  pub get_elem?-two_first :
      (xs : List A) (a z : A) (i : ℕ) → i ≡ length xs → get_elem? (two xs a z) i ≡ some a
  get_elem?-two_first xs a z i e =
      rw e (get_elem?-append_left (xs ++ a ∷ []) (z ∷ []) (length xs) (get_elem?-append_new xs a))

  pub get_elem?-two_second :
      (xs : List A) (a z : A) (i : ℕ) → i ≡ suc (length xs) → get_elem? (two xs a z) i ≡ some z
  get_elem?-two_second xs a z i e = rw (e ∙ two_length xs a) (get_elem?-append_new (xs ++ a ∷ []) z)

  pub set-two :
      (xs : List A) (a z : A) (i : ℕ) (v : A) {w : A}
      → get_elem? xs i ≡ some w
      → set (two xs a z) i v ≡ two (set xs i v) a z
  set-two xs a z i v e =
      set-append_left (xs ++ a ∷ []) (z ∷ []) i v (get_elem?-append_left xs (a ∷ []) i e)
      ∙ ap (λ ys. ys ++ z ∷ []) (set-append_left xs (a ∷ []) i v e)

  pub set-two_first :
      (xs : List A) (a z : A) (i : ℕ) (v : A) → i ≡ length xs → set (two xs a z) i v ≡ two xs v z
  set-two_first xs a z i v e = rw e (
      set-append_left (xs ++ a ∷ []) (z ∷ []) (length xs) v (get_elem?-append_new xs a)
      ∙ ap (λ ys. ys ++ z ∷ []) (set-append_new xs a v))

  pub set-two_second :
      (xs : List A) (a z : A) (i : ℕ) (v : A)
      → i ≡ suc (length xs)
      → set (two xs a z) i v ≡ two xs a v
  set-two_second xs a z i v e = rw (e ∙ two_length xs a) (set-append_new (xs ++ a ∷ []) z v)

  get_elem?-append_right :
      (xs ys : List A) (i : ℕ) → get_elem? (xs ++ ys) (length xs + i) ≡ get_elem? ys i
  get_elem?-append_right [] ys i = ap (get_elem? ys) (omega arith)
  get_elem?-append_right (x ∷ xs) ys i =
      let e : suc (length xs) + i ≡ suc (length xs + i) = omega arith in
      ap (get_elem? (x ∷ (xs ++ ys))) e ∙ get_elem?-append_right xs ys i

  set-append_right :
      (xs ys : List A) (i : ℕ) (v : A) → set (xs ++ ys) (length xs + i) v ≡ xs ++ set ys i v
  set-append_right [] ys i v = ap (λ k. set ys k v) (omega arith)
  set-append_right (x ∷ xs) ys i v =
      let e : suc (length xs) + i ≡ suc (length xs + i) = omega arith in
      ap (λ k. set (x ∷ (xs ++ ys)) k v) e ∙ ap (◌∷◌ x) (set-append_right xs ys i v)

  -- The same at an index that is known by an equation.
  pub get_elem?-right :
      (xs ys : List A) (k i : ℕ) → i ≡ length xs + k → get_elem? (xs ++ ys) i ≡ get_elem? ys k
  get_elem?-right xs ys k i e = rw e (get_elem?-append_right xs ys k)

  pub set-right :
      (xs ys : List A) (k i : ℕ) (v : A) → i ≡ length xs + k → set (xs ++ ys) i v ≡ xs ++ set ys k v
  set-right xs ys k i v e = rw e (set-append_right xs ys k v)
