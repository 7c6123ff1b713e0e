-- ===== src/Frontend.antt =====
-- What the loaders of src/frontend have in common: the loop that copies a tree into `class Tree` breadth
-- first, over a queue of pairs of an old id and a new one. How a loader visits a node is an argument.
pub mod Kept
pub mod Statistics
pub mod Written
pub mod Source
pub mod Queue
pub mod Loop
pub mod Represents
use treelite.Prelude.{ℕ, zero, suc, List, [], ◌∷◌, ◌++◌, Result, ok, err, ◌>>=◌, out_of_fuel}
use treelite.Tree.{Tree}

-- `std::queue<std::pair<int, int>>`
abbrev pub IdQueue : Type 0
IdQueue = List (ℕ × ℕ)

-- One round of a loop: from an old id, a new id and a tree to what it pushes, and the tree.
abbrev pub Visit : Type 0
Visit = ℕ → ℕ → Tree → Result (IdQueue × Tree)

-- `while (!Q.empty())`
unfoldable pub run_queue : Visit → ℕ → IdQueue → Tree → Result Tree
run_queue visit zero q tree = err out_of_fuel
run_queue visit (suc fuel) [] tree = ok tree
run_queue visit (suc fuel) ((old_id, new_id) ∷ q) tree = do
  (children, tree') ← visit old_id new_id tree
  run_queue visit fuel (q ++ children) tree'
