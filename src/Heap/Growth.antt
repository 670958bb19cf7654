-- ===== src/Heap/Growth.antt =====
-- A memory and the same memory at a later time: which changes of its states are allowed, and how many
-- states are still pending.
-- Source: the members of future_state_base in ltl/include/ltl/detail/future_state.hpp.
use ltl.Base.{
  ℕ, zero, suc, ◌≤◌, ◌<◌, ◌≡◌, refl, ◌∙◌, sym, subst, true, false, some, List, [], ◌∷◌, get_elem?,
  set, if◌then◌else◌, arith,
}
use mathlib.Core.Option.{some-injective}
use ltl.Heap.{State, is_set, Heap, Outcome, ret, throw, blocks, fault, out_of_fuel, M}

-- `y` is `x` at a later time.
pub record Keeps (x y : State) : Type 0 where
  pub value_kept : is_set x ≡ true → y.value ≡ x.value
  pub exception_kept : is_set x ≡ true → y.exception ≡ x.exception

abbrev pub Grows : List State → List State → Type 0
Grows [] [] = Unit
Grows [] (y ∷ ys) = ⊥
Grows (x ∷ xs) [] = ⊥
Grows (x ∷ xs) (y ∷ ys) = Keeps x y × Grows xs ys

abbrev pub pending : List State → ℕ
pending [] = 0
pending (x ∷ xs) = if is_set x then pending xs else suc (pending xs)

pub Keeps-refl : (x : State) → Keeps x x
Keeps-refl x = record { value_kept = λ _. refl; exception_kept = λ _. refl }

Keeps-is_set : (x y : State) → Keeps x y → is_set x ≡ true → is_set y ≡ true
Keeps-is_set x y k e = ground (arith, k.value_kept e, k.exception_kept e)

Keeps-trans : (x y z : State) → Keeps x y → Keeps y z → Keeps x z
Keeps-trans x y z k l = record {
  value_kept = λ e. l.value_kept (Keeps-is_set x y k e) ∙ k.value_kept e;
  exception_kept = λ e. l.exception_kept (Keeps-is_set x y k e) ∙ k.exception_kept e;
}

pub Grows-refl : (xs : List State) → Grows xs xs
Grows-refl [] = tt
Grows-refl (x ∷ xs) = (Keeps-refl x, Grows-refl xs)

pub Grows-trans : (xs ys zs : List State) → Grows xs ys → Grows ys zs → Grows xs zs
Grows-trans [] [] [] p q = tt
Grows-trans [] (y ∷ ys) zs p q = elim p [ ]
Grows-trans (x ∷ xs) [] zs p q = elim p [ ]
Grows-trans [] [] (z ∷ zs) p q = elim q [ ]
Grows-trans (x ∷ xs) (y ∷ ys) [] p q = elim q [ ]
Grows-trans (x ∷ xs) (y ∷ ys) (z ∷ zs) p q =
    (Keeps-trans x y z p.0 q.0, Grows-trans xs ys zs p.1 q.1)

pub pending-Grows : (xs ys : List State) → Grows xs ys → pending ys ≤ pending xs
pending-Grows [] [] p = omega arith
pending-Grows [] (y ∷ ys) p = elim p [ ]
pending-Grows (x ∷ xs) [] p = elim p [ ]
pending-Grows (x ∷ xs) (y ∷ ys) p = ground (arith, pending-Grows xs ys p.1, Keeps-is_set x y p.0)

-- What stands in a list that has grown.
get_elem?-Grows :
    (xs ys : List State) (s : ℕ) {x : State}
    → Grows xs ys
    → get_elem? xs s ≡ some x
    → (y : State) × (get_elem? ys s ≡ some y) × Keeps x y
get_elem?-Grows [] ys s p e = cc
get_elem?-Grows (x ∷ xs) [] s p e = elim p [ ]
get_elem?-Grows (x ∷ xs) (y ∷ ys) zero p e =
    (y, refl, subst (λ z. Keeps z y) (some-injective _ _ e) p.0)
get_elem?-Grows (x ∷ xs) (y ∷ ys) (suc s) p e = get_elem?-Grows xs ys s p.1 e

pub Grows-set :
    (xs : List State) (s : ℕ) {x : State} (y : State)
    → get_elem? xs s ≡ some x
    → Keeps x y
    → Grows xs (set xs s y)
Grows-set [] s y e k = tt
Grows-set (x ∷ xs) zero y e k =
    (subst (λ z. Keeps z y) (sym (some-injective _ _ e)) k, Grows-refl xs)
Grows-set (x ∷ xs) (suc s) y e k = (Keeps-refl x, Grows-set xs s y e k)

-- To set a pending state leaves one state fewer to wait for.
pub pending-set :
    (xs : List State) (s : ℕ) {x : State} (y : State)
    → get_elem? xs s ≡ some x
    → is_set x ≡ false
    → is_set y ≡ true
    → pending (set xs s y) < pending xs
pending-set [] s y e p q = cc
pending-set (x ∷ xs) zero y e p q = ground arith
pending-set (x ∷ xs) (suc s) y e p q = ground (arith, pending-set xs s y e p q)

-- A call has an end, and at that end `P` holds of the memory. Undefined behaviour has no memory.
abbrev pub Post : {A : Type 0} → (Heap → Type 0) → Outcome A → Type 0
Post P (ret a h) = P h
Post P (throw e h) = P h
Post P (blocks s h) = P h
Post P (fault x) = Unit
Post P out_of_fuel = ⊥

abbrev pub Evolves : Heap → Heap → Type 0
Evolves h h' = Grows h.states h'.states

-- With fewer than `n` states pending the call ends, and no state that is set has changed.
abbrev pub IsSafe : {A : Type 0} → ℕ → M A → Type 0
IsSafe n m = (h : Heap) → pending h.states < n → Post (Evolves h) (m h)
