-- ===== src/Annotator/Walks.antt =====
-- Which nodes a traversal counts: those of the walk of the row from the root to a leaf.
use treelite.Prelude.{
  ℕ, ◌+◌, ◌<◌, ◌≡◌, ◌≢◌, Bool, true, false, ◌⊎◌, List, [], ◌∷◌, ok, some, length, get_elem?,
  if◌then◌else◌,
}
use treelite.Base.{minus_one, numerical, categorical, compare_with_op, float_to_uint32}
use treelite.Tree.{Node, Tree}
use treelite.Tree.Getters.{split_type, left_categories, split_index_of, default_left_of}
use treelite.Annotator.{Entry}
use treelite.Annotator.Categories.{elem, Ascending}
use treelite.Annotator.Traversal.{bump}

-- The test of a node has the answer `b` for a value that is there: by the operator and the threshold,
-- or by membership in the categories, where these are in order.
unfoldable pub Answers : Tree → ℕ → Node → Entry → Bool → Type 0
Answers t nid node entry b =
    ((node.split_type ≡ numerical) × (compare_with_op entry node.cmp node.info ≡ ok b))
    ⊎ ((node.split_type ≡ categorical)
        × ((c : ℕ) × (categories : List ℕ) × (float_to_uint32 entry ≡ ok c)
            × (left_categories t nid ≡ ok categories)
            × (Ascending 0 categories → b ≡ elem c categories)))

-- Which way a row goes at a node, by the entry of the feature: the default way where it is missing.
unfoldable pub GoesLeft : Tree → ℕ → Node → Entry → Bool → Type 0
GoesLeft t nid node entry b =
    ((entry ≡ minus_one) × (b ≡ default_left_of node.sindex))
    ⊎ ((entry ≢ minus_one) × Answers t nid node entry b)

-- The child of a node on one side.
unfoldable pub child_on : Bool → Node → ℕ
child_on true node = node.cleft
child_on false node = node.cright

-- The way of a row from a node to a leaf, as the list of its nodes.
pub data Walk (t : Tree) (entries : List Entry) (base : ℕ) : ℕ → List ℕ → Type 0 where
  arrive :
      (nid : ℕ) (node : Node)
      → get_elem? t.nodes.items nid ≡ some node
      → node.cleft ≡ minus_one
      → Walk t entries base nid (nid ∷ [])
  go :
      (nid : ℕ) (node : Node) (entry : Entry) (b : Bool) (path : List ℕ)
      → get_elem? t.nodes.items nid ≡ some node
      → node.cleft ≢ minus_one
      → get_elem? entries (base + split_index_of node.sindex) ≡ some entry
      → GoesLeft t nid node entry b
      → Walk t entries base (child_on b node) path
      → Walk t entries base nid (nid ∷ path)

-- The counts of a tree, from `cbase` on, before and after: one more for the nodes of the path, and the
-- same for all else.
pub record Along (cbase : ℕ) (path before after : List ℕ) : Type 0 where
  pub same_length : length after ≡ length before
  pub raised :
      (k c : ℕ)
      → get_elem? before (cbase + k) ≡ some c
      → get_elem? after (cbase + k) ≡ some (if elem k path then bump c else c)
  pub not_before : (i : ℕ) → i < cbase → get_elem? after i ≡ get_elem? before i
