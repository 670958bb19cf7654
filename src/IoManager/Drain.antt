-- ===== src/IoManager/Drain.antt =====
-- The rounds of `on_async_new_task`.
-- Source: lio/src/lio/iomanager.cpp.
use ltl.Base.{ℕ, zero, suc, List, [], ◌∷◌, ◌++◌}

module _ {T : Type 0} (spawns : T → List T) where
  abbrev pair : List T → List T → List T × List T
  pair xs ys = (xs, ys)

  -- What the tasks of a list hand over, in order.
  abbrev offspring : List T → List T
  offspring [] = []
  offspring (t ∷ ts) = spawns t ++ offspring ts

  -- The tasks, those that they hand over, and so on for `n` generations.
  abbrev pub generations : ℕ → List T → List T
  generations zero ts = []
  generations (suc n) ts = ts ++ generations n (offspring ts)

  abbrev pub generation : ℕ → List T → List T
  generation zero ts = ts
  generation (suc n) ts = generation n (offspring ts)
