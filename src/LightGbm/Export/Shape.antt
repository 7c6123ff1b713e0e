-- ===== src/LightGbm/Export/Shape.antt =====
-- LightGBM's node arrays that describe a tree, and what the exported nodes have to say about them.
use treelite.Prelude.{ℕ, ◌<◌, ◌≡◌, ◌⊎◌, true, false, List, [], some, ok, get_elem?}
use treelite.Base.{numerical, categorical, le}
use treelite.Tree.{Tree}
use treelite.Tree.Getters.{
  split_index, default_left, is_leaf, leaf_value, threshold, comparison_op, split_type,
  missing_category_to_zero, left_categories,
}
use treelite.Tree.Setters.{sort, split_index_limit}
use treelite.LightGbm.Numbers.{FloatLibrary}
use treelite.LightGbm.Bitset.{get_decision_type, get_missing_type}
use treelite.LightGbm.Parse.{LgbTree}
use treelite.LightGbm.Export.{leaf_of, not_negative, not_nan, left_categories_of}
use treelite.LightGbm.Export.Statistics.{CountOk, GainOk}

module _ (lib : FloatLibrary) (lgb : LgbTree) where
  -- `old` is a leaf: a negative id, with a value in the array.
  pub record LeafOk (old : ℕ) : Type 0 where
    pub negative : not_negative old ≡ false
    pub value : ℕ
    pub from : get_elem? lgb.leaf_value (leaf_of old) ≡ some value
    pub counted : CountOk lgb.leaf_count (leaf_of old)

  -- `old` is a test node with entries in all arrays, whose categories are in the bitset.
  pub record TestOk (old left right : ℕ) : Type 0 where
    pub not_leaf : not_negative old ≡ true
    pub feature : ℕ
    pub feature_from : get_elem? lgb.split_feature old ≡ some feature
    pub small : feature < split_index_limit
    pub decision : ℕ
    pub decision_from : get_elem? lgb.decision_type old ≡ some decision
    pub bound : ℕ
    pub bound_from : get_elem? lgb.threshold old ≡ some bound
    pub categories : List ℕ
    pub kind :
        ((get_decision_type decision 1 ≡ false) × (categories ≡ []))
        ⊎ ((get_decision_type decision 1 ≡ true)
            × (left_categories_of lgb (lib.truncate bound) ≡ ok categories))
    pub left_from : get_elem? lgb.left_child old ≡ some left
    pub right_from : get_elem? lgb.right_child old ≡ some right
    pub counted : CountOk lgb.internal_count old
    pub gained : GainOk lgb.split_gain old

  -- Node `new` of the tree is the leaf `old`.
  pub record LeafExported (t : Tree) (old new : ℕ) : Type 0 where
    pub negative : not_negative old ≡ false
    pub value : ℕ
    pub from : get_elem? lgb.leaf_value (leaf_of old) ≡ some value
    pub at_leaf : is_leaf t new ≡ ok true
    pub has_value : leaf_value t new ≡ ok (lib.narrow value)

  pub record NumericalExported (t : Tree) (bound decision new : ℕ) : Type 0 where
    pub of_type : split_type t new ≡ ok numerical
    pub has_bound : threshold t new ≡ ok (lib.narrow bound)
    pub by_op : comparison_op t new ≡ ok le
    pub direction : default_left t new ≡ ok (get_decision_type decision 2)

  pub record CategoricalExported (t : Tree) (bound decision new : ℕ) : Type 0 where
    pub of_type : split_type t new ≡ ok categorical
    pub categories : List ℕ
    pub from_bits : left_categories_of lgb (lib.truncate bound) ≡ ok categories
    pub has_categories : left_categories t new ≡ ok (sort categories)
    pub direction : default_left t new ≡ ok false
    pub to_zero : missing_category_to_zero t new ≡ ok (not_nan (get_missing_type decision))

  -- Node `new` of the tree makes the test of `old`, by the type that its `decision_type` says.
  pub record TestExported (t : Tree) (old new : ℕ) : Type 0 where
    pub not_leaf : not_negative old ≡ true
    pub feature : ℕ
    pub feature_from : get_elem? lgb.split_feature old ≡ some feature
    pub has_feature : split_index t new ≡ ok feature
    pub decision : ℕ
    pub decision_from : get_elem? lgb.decision_type old ≡ some decision
    pub bound : ℕ
    pub bound_from : get_elem? lgb.threshold old ≡ some bound
    pub kind :
        ((get_decision_type decision 1 ≡ false) × NumericalExported t bound decision new)
        ⊎ ((get_decision_type decision 1 ≡ true) × CategoricalExported t bound decision new)
