-- ===== src/Model/RoundTrip.antt =====
-- A model that is loaded from the frames of another one is that model, in foreign memory.
use treelite.Prelude.{
  ℕ, suc, ◌%◌, ◌≡◌, refl, ◌∙◌, arith, true, List, [], ◌∷◌, ◌++◌, map, ok, ◌>>=◌, ◌-◌, ◌==◌, ==_iff,
  length, length-append,
}
use treelite.ContiguousArray.{ContiguousArray, use_foreign_buffer}
use treelite.Tree.{Tree, default_tree}
use treelite.Model.{Model}
use treelite.Model.Frames.{
  PyBufferFrame, tree_frames, body_frames, model_frames, init_tree, init_trees, init_model,
}

-- The values of an array where they are, owned by someone else.
pub foreign : {A : Type 0} → ContiguousArray A → ContiguousArray A
foreign a = use_foreign_buffer a.items a

pub foreign_tree : Tree → Tree
foreign_tree t = record {
  nodes = foreign t.nodes;
  leaf_vector = foreign t.leaf_vector;
  leaf_vector_offset = foreign t.leaf_vector_offset;
  left_categories = foreign t.left_categories;
  left_categories_offset = foreign t.left_categories_offset;
  num_nodes = t.num_nodes;
}

-- Every tree has as many nodes as it says.
unfoldable pub AllCounted : List Tree → Type 0
AllCounted [] = Unit
AllCounted (t ∷ ts) = (t.num_nodes ≡ length t.nodes.items) × AllCounted ts

self : (n : ℕ) → (n == n) ≡ true
self n = (==_iff n n).1 refl

init_tree-tree_frames :
    (t u : Tree)
    → t.num_nodes ≡ length t.nodes.items
    → init_tree u (tree_frames t) ≡ ok (foreign_tree t)
unfolding init_tree tree_frames foreign_tree foreign use_foreign_buffer
init_tree-tree_frames t u c =
    let counted : (t.num_nodes == length t.nodes.items) ≡ true = (==_iff _ _).1 c in
    simp (
      self (length t.nodes.items),
      self (length t.leaf_vector.items),
      self (length t.leaf_vector_offset.items),
      self (length t.left_categories.items),
      self (length t.left_categories_offset.items),
      counted,
    )

init_trees-tree_frames :
    (t : Tree) (junk : ℕ) (frames : List PyBufferFrame)
    → init_trees junk (tree_frames t ++ frames) ≡ (
        init_tree (default_tree junk) (tree_frames t) >>= λ u.
        init_trees junk frames >>= λ us. ok (u ∷ us))
unfolding init_trees tree_frames
init_trees-tree_frames t junk frames = refl

init_trees-body_frames :
    (ts : List Tree) (junk : ℕ)
    → AllCounted ts
    → init_trees junk (body_frames ts) ≡ ok (map foreign_tree ts)
unfolding body_frames AllCounted init_trees
init_trees-body_frames [] junk c = refl
init_trees-body_frames (t ∷ ts) junk (c, cs) =
    init_trees-tree_frames t junk (body_frames ts)
    ∙ (rw (init_tree-tree_frames t (default_tree junk) c, init_trees-body_frames ts junk cs) refl)

length-tree_frames : (t : Tree) → length (tree_frames t) ≡ 6
unfolding tree_frames
length-tree_frames t = refl

body_frames_six : (ts : List Tree) → length (body_frames ts) % 6 ≡ 0
unfolding body_frames
body_frames_six [] = refl
body_frames_six (t ∷ ts) = omega (
  arith,
  length-append (tree_frames t) (body_frames ts),
  length-tree_frames t,
  body_frames_six ts,
)

-- When every tree of a model has as many nodes as it says, `InitFromPyBuffer` on the frames that
-- `GetPyBuffer` makes of the model succeeds, and its result has the parameters of the model and all
-- arrays of its trees, in the same order, in memory that it does not own.
pub init_model-model_frames :
    (m : Model) (junk : ℕ)
    → AllCounted m.trees
    → init_model junk (model_frames m) ≡ ok (record m { trees = map foreign_tree m.trees })
unfolding init_model model_frames
init_model-model_frames m junk c =
    let six : (length (body_frames m.trees) % 6 == 0) ≡ true =
      (==_iff _ 0).1 (body_frames_six m.trees) in
    let four : suc (suc (suc (suc (length (body_frames m.trees))))) - 4
        ≡ length (body_frames m.trees) =
      omega arith in
    rw (four, six, init_trees-body_frames m.trees junk c) refl
