-- ===== src/Ast/Complete.antt =====
-- `BuildASTFromTree` on a valid tree: the recursion ends, and the syntax tree stands for the tree.
use treelite.Prelude.{
  ℕ, zero, suc, ◌≢◌, Result, ◌+◌, ◌≤◌, ◌<◌, ◌≡◌, refl, arith, Bool, true, false, inl, inr, List,
  Option, none, some, ok, get_elem?, get_elem?-lt, ◌==◌, Bool-cases,
}
use treelite.Base.{TlFloat, minus_one, numerical, categorical, no_split, SplitFeatureType}
use treelite.ContiguousArray.{at}
use treelite.Tree.{Node, Tree}
use treelite.Tree.Getters.{
  left_child, right_child, leaf_vector, split_index, default_left, is_leaf, leaf_value, threshold,
  comparison_op, split_type, left_categories, missing_category_to_zero, has_gain, gain,
  has_data_count, data_count, has_sum_hess, sum_hess, split_index_of, default_left_of,
}
use treelite.Tree.Invariant.{IsValid}
use treelite.Tree.Append.{left_categories-total, leaf_vector-total}
use treelite.Ast.{
  AstNode, ast_node, leaf, child, Kind, Info, Condition, Numerical, Categorical, to_children,
  vector_output_node, scalar_output_node, numerical_condition_node, categorical_condition_node,
  float_val,
}
use treelite.Ast.Build.{when_present, output_node, condition_node, node_info, build_ast_from_tree}

-- A field that the getters say is there or not.
pub Shown : Result Bool → Result ℕ → Option ℕ → Type 0
Shown has value none = has ≡ ok false
Shown has value (some x) = (has ≡ ok true) × (value ≡ ok x)

-- The fields of every syntax node, for node `nid` of tree `tree_id`.
pub record InfoOf (t : Tree) (tree_id nid : ℕ) (info : Info) : Type 0 where
  pub tree : info.tree_id ≡ tree_id
  pub node : info.node_id ≡ nid
  pub count : Shown (has_data_count t nid) (data_count t nid) info.data_count
  pub hess : Shown (has_sum_hess t nid) (sum_hess t nid) info.sum_hess

-- An output node has the vector of the leaf, or its value.
pub OutputOf : Bool → Tree → ℕ → Kind → Type 0
OutputOf true t nid kind =
    (v : List TlFloat) × (leaf_vector t nid ≡ ok v) × (kind ≡ vector_output_node v)
OutputOf false t nid kind =
    (v : TlFloat) × (leaf_value t nid ≡ ok v) × (kind ≡ scalar_output_node v)

-- The fields of either condition node.
pub record ConditionOf (t : Tree) (nid : ℕ) (c : Condition) : Type 0 where
  pub feature : split_index t nid ≡ ok c.split_index
  pub direction : default_left t nid ≡ ok c.default_left
  pub shown_gain : Shown (has_gain t nid) (gain t nid) c.gain

-- A condition node has the test of the node.
pub data TestOf (t : Tree) (nid : ℕ) : Kind → Type 0 where
  numerical_of :
      (c : Numerical) (th : TlFloat)
      → split_type t nid ≡ ok numerical
      → ConditionOf t nid c.condition
      → comparison_op t nid ≡ ok c.op
      → threshold t nid ≡ ok th
      → c.threshold ≡ float_val th
      → c.quantized ≡ false
      → TestOf t nid (numerical_condition_node c)
  categorical_of :
      (c : Categorical) (type : SplitFeatureType)
      → split_type t nid ≡ ok type
      → type ≢ numerical
      → ConditionOf t nid c.condition
      → left_categories t nid ≡ ok c.left_categories
      → missing_category_to_zero t nid ≡ ok c.convert_missing_to_zero
      → TestOf t nid (categorical_condition_node c)

-- The syntax tree stands for the tree from node `nid` on: leaf for leaf, and test for test with the
-- left and the right child in this order.
pub data StandsFor (vector : Bool) (t : Tree) (tree_id : ℕ) : ℕ → AstNode → Type 0 where
  stands_leaf :
      (nid : ℕ) (kind : Kind) (info : Info)
      → is_leaf t nid ≡ ok true
      → InfoOf t tree_id nid info
      → OutputOf vector t nid kind
      → StandsFor vector t tree_id nid (ast_node kind info leaf)
  stands_test :
      (nid cleft cright : ℕ) (kind : Kind) (info : Info) (left right : AstNode)
      → is_leaf t nid ≡ ok false
      → InfoOf t tree_id nid info
      → TestOf t nid kind
      → left_child t nid ≡ ok cleft
      → StandsFor vector t tree_id cleft left
      → right_child t nid ≡ ok cright
      → StandsFor vector t tree_id cright right
      → StandsFor vector t tree_id nid (ast_node kind info (child left (child right leaf)))

when_present-Shown :
    (b : Bool) (x : ℕ)
    → (o : Option ℕ) × (when_present (ok b) (ok x) ≡ ok o) × Shown (ok b) (ok x) o
unfolding when_present Shown
when_present-Shown true x = (some x, refl, (refl, refl))
when_present-Shown false x = (none, refl, refl)

module _ (t : Tree) (v : IsValid t) (nid : ℕ) (node : Node)
    (e : get_elem? t.nodes.items nid ≡ some node) where
  node_info-InfoOf :
      (tree_id : ℕ)
      → (info : Info) × (node_info t tree_id nid ≡ ok info) × InfoOf t tree_id nid info
  unfolding node_info has_data_count data_count has_sum_hess sum_hess at
  node_info-InfoOf tree_id =
      let (c, ec, sc) = when_present-Shown node.data_count_present node.data_count in
      let (h, eh, sh) = when_present-Shown node.sum_hess_present node.sum_hess in
      (
        record { node_id = nid; tree_id = tree_id; data_count = c; sum_hess = h },
        simp (e, ec, eh),
        record { tree = refl; node = refl; count = rw e sc; hess = rw e sh },
      )

  output_node-OutputOf :
      (vector : Bool)
      → nid < t.num_nodes
      → (kind : Kind) × (output_node t nid vector ≡ ok kind) × OutputOf vector t nid kind
  unfolding output_node leaf_value at OutputOf
  output_node-OutputOf true l =
      let (xs, p) = leaf_vector-total t v nid l in (vector_output_node xs, rw p refl, (xs, p, refl))
  output_node-OutputOf false l =
      (scalar_output_node node.info, rw e refl, (node.info, rw e refl, refl))

  condition-ConditionOf :
      (g : Option ℕ)
      → Shown (ok node.gain_present) (ok node.gain) g
      → ConditionOf t nid (record {
        split_index = split_index_of node.sindex;
        default_left = default_left_of node.sindex;
        gain = g;
      })
  unfolding split_index default_left has_gain gain at
  condition-ConditionOf g s = record {
    feature = rw e refl;
    direction = rw e refl;
    shown_gain = rw e s;
  }

  condition_node-TestOf :
      nid < t.num_nodes → (kind : Kind) × (condition_node t nid ≡ ok kind) × TestOf t nid kind
  unfolding condition_node split_type split_index default_left has_gain gain comparison_op threshold
      missing_category_to_zero at
  condition_node-TestOf l =
      let (g, eg, sg) = when_present-Shown node.gain_present node.gain in
      let (cs, p) = left_categories-total t v nid l in
      by_type node.split_type refl g eg (condition-ConditionOf g sg) cs p
    where
      condition : Option ℕ → Condition
      condition g = record {
        split_index = split_index_of node.sindex;
        default_left = default_left_of node.sindex;
        gain = g;
      }

      numbers : Option ℕ → Numerical
      numbers g = record {
        condition = condition g;
        quantized = false;
        op = node.cmp;
        threshold = float_val node.info;
      }

      categories : Option ℕ → List ℕ → Categorical
      categories g cs = record {
        condition = condition g;
        left_categories = cs;
        convert_missing_to_zero = node.missing_category_to_zero;
      }

      categories_of :
          (type : SplitFeatureType)
          → node.split_type ≡ type
          → type ≢ numerical
          → (g : Option ℕ) → ConditionOf t nid (condition g)
          → (cs : List ℕ) → left_categories t nid ≡ ok cs
          → TestOf t nid (categorical_condition_node (categories g cs))
      categories_of type ty ne g c cs p =
          categorical_of (categories g cs) type (rw (e, ty) refl) ne c p (rw e refl)

      by_type :
          (type : SplitFeatureType)
          → node.split_type ≡ type
          → (g : Option ℕ) → when_present (ok node.gain_present) (ok node.gain) ≡ ok g
          → ConditionOf t nid (condition g)
          → (cs : List ℕ) → left_categories t nid ≡ ok cs
          → (kind : Kind) × (condition_node t nid ≡ ok kind) × TestOf t nid kind
      by_type numerical ty g eg c cs p = (
        numerical_condition_node (numbers g),
        simp (e, eg, ty),
        numerical_of (numbers g) node.info (rw (e, ty) refl) c (rw e refl) (rw e refl) refl refl,
      )
      by_type categorical ty g eg c cs p = (
        categorical_condition_node (categories g cs),
        simp (e, eg, ty, p),
        categories_of categorical ty (λ q. cc) g c cs p,
      )
      by_type no_split ty g eg c cs p = (
        categorical_condition_node (categories g cs),
        simp (e, eg, ty, p),
        categories_of no_split ty (λ q. cc) g c cs p,
      )

-- For a node of a valid tree, and fuel for the nodes from it on, `BuildASTFromTree` ends without an
-- error, and its syntax tree stands for the tree from that node on: a leaf for a leaf with its output,
-- a condition node for a test node with its test and, in order, the syntax trees of its two children;
-- each has the ids of the node and of the tree, and the counts of the node where it has them.
pub build_ast_from_tree-StandsFor :
    (vector : Bool) (t : Tree) (tree_id fuel nid : ℕ)
    → IsValid t
    → nid < t.num_nodes
    → t.num_nodes ≤ nid + fuel
    → (n : AstNode) × (build_ast_from_tree vector t tree_id fuel nid ≡ ok n)
      × StandsFor vector t tree_id nid n
unfolding build_ast_from_tree is_leaf left_child right_child at to_children
build_ast_from_tree-StandsFor vector t tree_id zero nid v l enough =
    absurd (omega (arith, l, enough))
build_ast_from_tree-StandsFor vector t tree_id (suc fuel) nid v l enough =
    let (node, e) = get_elem?-lt t.nodes.items nid (omega (arith, l, v.counted)) in
    let (info, ei, of_info) = node_info-InfoOf t v nid node e tree_id in
    elim (Bool-cases (node.cleft == minus_one)) [
      | inl p ↦
          let (kind, k, of_kind) = output_node-OutputOf t v nid node e vector l in
          (
            ast_node kind info leaf,
            simp (ei, e, p, k),
            stands_leaf nid kind info (rw (e, p) refl) of_info of_kind,
          )
      | inr p ↦ elim (v.children nid node e) [
        | inl bad ↦ absurd (ground arith)
        | inr c ↦
            let (kind, k, of_kind) = condition_node-TestOf t v nid node e l in
            let (a, ea, sa) =
              build_ast_from_tree-StandsFor vector t tree_id fuel node.cleft v c.1
                (omega (arith, c.0, enough)) in
            let (b, eb, sb) =
              build_ast_from_tree-StandsFor vector t tree_id fuel node.cright v c.3
                (omega (arith, c.2, enough)) in
            (
              ast_node kind info (child a (child b leaf)),
              simp (ei, e, p, k, ea, eb),
              stands_test nid node.cleft node.cright kind info a b (rw (e, p) refl) of_info of_kind
                  (rw e refl) sa (rw e refl) sb,
            )
      ]
    ]
