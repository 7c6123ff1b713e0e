-- ===== src/LightGbm/Export.antt =====
-- `ParseStream` of src/frontend/lightgbm.cc, step 2: the parameters of the model, and its trees,
-- which get the ids of their nodes breadth first.
pub mod Statistics
pub mod Shape
pub mod Nodes
pub mod Represents
use treelite.Prelude.{
  ℕ, zero, suc, ◌+◌, ◌-◌, ◌*◌, ◌%◌, Bool, true, false, not, ◌&&◌, ◌||◌, List, [], ◌∷◌, ◌++◌, Option,
  none, some, Result, ok, err, ◌>>=◌, ◌>>◌, guard, or_fault, fault, out_of_fuel, check_failed,
  Error, length, get_elem?, drop, ltb, leb, ◌==◌, if◌then◌else◌, Bytes, codes, same_text,
}
use treelite.Base.{TlFloat, minus_one, size_mod, le, float_lt}
use treelite.Tree.{Tree, Node, default_tree, init, add_childs, set_leaf}
use treelite.Tree.Getters.{left_child, right_child}
use treelite.Tree.Setters.{set_numerical_split, set_categorical_split, set_data_count, set_gain}
use treelite.Frontend.{IdQueue, run_queue}
use treelite.Model.{Model, ModelParam, new_param, copied, max_pred_transform_length, one_float}
use treelite.LightGbm.Text.{split_text, load_text}
use treelite.LightGbm.Numbers.{FloatLibrary, text_to_int, text_to_float}
use treelite.LightGbm.Bitset.{
  bitset_to_list, get_decision_type, get_missing_type, MissingType, none_type, zero_type, nan_type,
  unnamed_type,
}
use treelite.LightGbm.Parse.{Globals, LgbTree, Dict, Dicts, parse_lines, parse_globals, parse_tree}

-- `x >= 0` of an `int`
abbrev pub not_negative : ℕ → Bool
not_negative x = ltb x 0x8000_0000

-- The value of a parameter `key:value`, in a list of exactly two tokens.
unfoldable pub value_of : Bytes → List Bytes → Option Bytes
value_of key (k ∷ v ∷ []) = if same_text k key then some v else none
value_of key _ = none

-- `num_class` of "multiclass": the first that is not negative.
unfoldable pub first_num_class : List Bytes → Result (Option ℕ)
unfolding value_of split_text text_to_int
first_num_class [] = ok none
first_num_class (str ∷ strs) = elim (value_of (codes "num_class") (split_text str b':')) [
  | none ↦ first_num_class strs
  | some text ↦ text_to_int text >>= λ tmp. elim (not_negative tmp) [
    | true ↦ ok (some tmp)
    | false ↦ first_num_class strs
  ]
]

-- `alpha` of "binary": the first that is positive.
unfoldable pub first_sigmoid : FloatLibrary → List Bytes → Result (Option TlFloat)
unfolding value_of split_text text_to_float
first_sigmoid lib [] = ok none
first_sigmoid lib (str ∷ strs) = elim (value_of (codes "sigmoid") (split_text str b':')) [
  | none ↦ first_sigmoid lib strs
  | some text ↦ text_to_float lib text >>= λ tmp. elim (float_lt 0 tmp) [
    | true ↦ ok (some tmp)
    | false ↦ first_sigmoid lib strs
  ]
]

-- `num_class` and `alpha` of "multiclassova": the last ones.
unfoldable pub last_params :
    FloatLibrary → List Bytes → Option ℕ → Option TlFloat → Result (Option ℕ × Option TlFloat)
unfolding value_of split_text text_to_float text_to_int
last_params lib [] num_class alpha = ok (num_class, alpha)
last_params lib (str ∷ strs) num_class alpha =
    elim (value_of (codes "num_class") (split_text str b':')) [
      | some text ↦ text_to_int text >>= λ tmp.
          last_params lib strs (if not_negative tmp then some tmp else num_class) alpha
      | none ↦ elim (value_of (codes "sigmoid") (split_text str b':')) [
        | some text ↦ text_to_float lib text >>= λ tmp.
            last_params lib strs num_class (if float_lt 0 tmp then some tmp else alpha)
        | none ↦ last_params lib strs num_class alpha
      ]
    ]

-- `num_class >= 0 && num_class == model.num_output_group`; `none` is the initial -1.
unfoldable pub is_group_count : Option ℕ → ℕ → Bool
is_group_count none num_output_group = false
is_group_count (some num_class) num_output_group = num_class == num_output_group

-- `std::strncpy(model.param.pred_transform, name, sizeof(model.param.pred_transform))`
unfoldable pub with_transform : Bytes → ModelParam → ModelParam
unfolding copied
with_transform name param = record param { pred_transform = copied max_pred_transform_length name }

unfoldable pub set_multiclass : Globals → ModelParam → Result ModelParam
unfolding first_num_class is_group_count with_transform
set_multiclass g param = do
  num_class ← first_num_class g.obj_param
  guard (is_group_count num_class g.num_tree_per_iteration)
      (check_failed "Ill-formed LightGBM model file: not a valid multiclass objective")
  ok (with_transform (codes "softmax") param)

-- The checks behind the loops, for an `alpha` that stays at -1 if there is none.
unfoldable pub with_alpha : Option TlFloat → Bytes → Error → ModelParam → Result ModelParam
unfolding with_transform
with_alpha none name why param = err why
with_alpha (some alpha) name why param =
    ok (record (with_transform name param) { sigmoid_alpha = alpha })

unfoldable pub set_multiclass_ova : FloatLibrary → Globals → ModelParam → Result ModelParam
unfolding last_params is_group_count with_alpha
set_multiclass_ova lib g param = do
  (num_class, alpha) ← last_params lib g.obj_param none none
  let why = check_failed "Ill-formed LightGBM model file: not a valid multiclassova objective"
  guard (is_group_count num_class g.num_tree_per_iteration) why
  with_alpha alpha (codes "multiclass_ova") why param

unfoldable pub set_binary : FloatLibrary → Globals → ModelParam → Result ModelParam
unfolding first_sigmoid with_alpha
set_binary lib g param = do
  alpha ← first_sigmoid lib g.obj_param
  with_alpha alpha (codes "sigmoid")
      (check_failed "Ill-formed LightGBM model file: not a valid binary objective") param

-- "set correct prediction transform function, depending on objective function"
unfoldable pub set_objective : FloatLibrary → Globals → ModelParam → Result ModelParam
unfolding set_multiclass set_multiclass_ova set_binary with_transform
set_objective lib g param =
    if same_text g.obj_name (codes "multiclass")
    then set_multiclass g param
    else if same_text g.obj_name (codes "multiclassova")
    then set_multiclass_ova lib g param
    else if same_text g.obj_name (codes "binary")
    then set_binary lib g param
    else if same_text g.obj_name (codes "xentropy") || same_text g.obj_name (codes "cross_entropy")
    then ok (record (with_transform (codes "sigmoid") param) { sigmoid_alpha = one_float })
    else if same_text g.obj_name (codes "xentlambda")
        || same_text g.obj_name (codes "cross_entropy_lambda")
    then ok (with_transform (codes "logarithm_one_plus_exp") param)
    else ok (with_transform (codes "identity") param)

-- `~old_id` of a negative `int`
abbrev pub leaf_of : ℕ → ℕ
leaf_of old_id = minus_one - old_id

-- `if (!counts.empty())`: the count at `i` must not be negative, and is set.
unfoldable pub put_count : List ℕ → ℕ → ℕ → Tree → Result Tree
put_count [] i new_id tree = ok tree
put_count (c ∷ cs) i new_id tree = do
  data_count ← or_fault (get_elem? (c ∷ cs) i)
  guard (not_negative data_count) (check_failed "Check failed: data_count >= 0")
  set_data_count new_id data_count tree

unfoldable pub put_gain : FloatLibrary → List TlFloat → ℕ → ℕ → Tree → Result Tree
put_gain lib [] i new_id tree = ok tree
put_gain lib (g ∷ gs) i new_id tree = do
  gain ← or_fault (get_elem? (g ∷ gs) i)
  set_gain new_id (lib.widen gain) tree

unfoldable pub export_leaf : FloatLibrary → LgbTree → ℕ → ℕ → Tree → Result Tree
unfolding put_count
export_leaf lib lgb old_id new_id tree = do
  leaf_value ← or_fault (get_elem? lgb.leaf_value (leaf_of old_id))
  tree' ← set_leaf new_id (lib.narrow leaf_value) tree
  put_count lgb.leaf_count (leaf_of old_id) new_id tree'

-- The list of categories of a test, which `cat_boundaries` delimits in `cat_threshold`.
unfoldable pub left_categories_of : LgbTree → ℕ → Result (List ℕ)
unfolding bitset_to_list
left_categories_of lgb cat_idx = do
  first ← or_fault (get_elem? lgb.cat_boundaries cat_idx)
  last ← or_fault (get_elem? lgb.cat_boundaries (cat_idx + 1))
  bitset_to_list (drop first lgb.cat_threshold) ((last + size_mod - first) % size_mod)

-- `missing_type != MissingType::kNaN`
abbrev pub not_nan : MissingType → Bool
not_nan nan_type = false
not_nan type = true

-- `SetCategoricalSplit` or `SetNumericalSplit`.
unfoldable pub export_split : FloatLibrary → LgbTree → ℕ → ℕ → ℕ → ℕ → Tree → Result Tree
unfolding get_decision_type get_missing_type left_categories_of
export_split lib lgb old_id new_id split_index decision_type tree = do
  threshold ← or_fault (get_elem? lgb.threshold old_id)
  if get_decision_type decision_type 1
      then (left_categories_of lgb (lib.truncate threshold) >>= λ left_categories.
          set_categorical_split new_id split_index false (not_nan (get_missing_type decision_type))
            left_categories tree)
      else set_numerical_split new_id split_index (lib.narrow threshold)
          (get_decision_type decision_type 2) le tree

unfoldable pub export_test : FloatLibrary → Node → LgbTree → ℕ → ℕ → Tree → Result Tree
unfolding export_split put_count put_gain
export_test lib junk lgb old_id new_id tree = do
  split_index ← or_fault (get_elem? lgb.split_feature old_id)
  grown ← add_childs junk new_id tree
  decision_type ← or_fault (get_elem? lgb.decision_type old_id)
  split ← export_split lib lgb old_id new_id split_index decision_type grown
  counted ← put_count lgb.internal_count old_id new_id split
  put_gain lib lgb.split_gain old_id new_id counted

-- `Q.push({lgb_tree.left_child[old_id], tree.LeftChild(new_id)})`, and the right one.
unfoldable pub push_children : LgbTree → ℕ → ℕ → Tree → Result IdQueue
push_children lgb old_id new_id tree = do
  old_left ← or_fault (get_elem? lgb.left_child old_id)
  new_left ← left_child tree new_id
  old_right ← or_fault (get_elem? lgb.right_child old_id)
  new_right ← right_child tree new_id
  ok ((old_left, new_left) ∷ (old_right, new_right) ∷ [])

-- One round of the loop: what it pushes, and the tree.
unfoldable pub visit : FloatLibrary → Node → LgbTree → ℕ → ℕ → Tree → Result (IdQueue × Tree)
unfolding export_leaf export_test push_children
visit lib junk lgb old_id new_id tree =
    if not_negative old_id
    then (do
      tree' ← export_test lib junk lgb old_id new_id tree
      children ← push_children lgb old_id new_id tree'
      ok (children, tree'))
    else (do tree' ← export_leaf lib lgb old_id new_id tree; ok ([], tree'))

-- The body of the loop over the trees; `num` is what memory held for `num_nodes`.
unfoldable pub export_tree : FloatLibrary → Node → ℕ → ℕ → LgbTree → Result Tree
unfolding visit run_queue
export_tree lib junk num fuel lgb = do
  tree ← init junk (default_tree num)
  if lgb.num_leaves == 0
      then ok tree
      else run_queue (visit lib junk lgb) fuel
          ((if lgb.num_leaves == 1 then minus_one else 0, 0) ∷ []) tree

unfoldable pub export_trees : FloatLibrary → Node → ℕ → ℕ → List LgbTree → Result (List Tree)
unfolding export_tree
export_trees lib junk num fuel [] = ok []
export_trees lib junk num fuel (lgb ∷ lgbs) = do
  tree ← export_tree lib junk num fuel lgb
  trees ← export_trees lib junk num fuel lgbs
  ok (tree ∷ trees)

unfoldable pub parse_trees : FloatLibrary → List Dict → Result (List LgbTree)
unfolding parse_tree
parse_trees lib [] = ok []
parse_trees lib (dict ∷ dicts) = do
  lgb ← parse_tree lib dict
  lgbs ← parse_trees lib dicts
  ok (lgb ∷ lgbs)

-- The dictionaries of the trees, in the order of the file.
unfoldable pub in_order : List Dict → List Dict → List Dict
in_order [] dicts = dicts
in_order (d ∷ ds) dicts = in_order ds (d ∷ dicts)

-- `num_output_group > 1` of an `int`
abbrev many : ℕ → Bool
many x = ltb 1 x && not_negative x

-- `ParseStream`, on the chunks that the stream delivers into a buffer of `bufsize` bytes.
unfoldable pub parse_stream : FloatLibrary → Node → ℕ → ℕ → ℕ → List Bytes → Result Model
unfolding load_text parse_lines parse_globals parse_trees in_order set_objective export_trees
parse_stream lib junk num fuel bufsize chunks = do
  lines ← load_text bufsize chunks
  dicts ← parse_lines lines (record { global_dict = []; tree_dict = [] })
  g ← parse_globals dicts.global_dict
  lgbs ← parse_trees lib (in_order dicts.tree_dict [])
  let several = many g.num_tree_per_iteration
  guard (not (several && g.average_output)) (
      check_failed
        "Ill-formed LightGBM model file: cannot use random forest mode for multi-class classification")
  param ← set_objective lib g new_param
  trees ← export_trees lib junk num fuel lgbs
  ok (record {
    trees = trees;
    num_feature = (g.max_feature_idx + 1) % 0x1_0000_0000;
    num_output_group = g.num_tree_per_iteration;
    random_forest_flag = g.average_output;
    param = param;
  })
