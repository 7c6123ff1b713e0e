-- ===== src/XgBoost/Export.antt =====
-- `ParseStream` of src/frontend/xgboost.cc, step 2: the parameters of the model, and its trees,
-- which get the ids of their nodes breadth first. The functions on `float` are arguments.
pub mod Nodes
pub mod Represents
use treelite.Prelude.{
  ℕ, ◌≡◌, Bool, false, ◌||◌, List, [], ◌∷◌, Result, ok, err, ◌>>=◌, or_fault, get_elem?, ltb, leb,
  ◌&&◌, if◌then◌else◌, Bytes, codes, same_text,
}
use treelite.Base.{TlFloat, lt}
use treelite.Tree.{Tree, Node, default_tree, init, add_childs, set_leaf}
use treelite.Tree.Getters.{left_child, right_child}
use treelite.Tree.Setters.{set_numerical_split, set_sum_hess, set_gain}
use treelite.Model.{Model, ModelParam, new_param, copied, max_pred_transform_length, one_float}
use treelite.Frontend.{IdQueue, run_queue}
use treelite.XgBoost.Stream.{ByteStream, new_stream}
use treelite.XgBoost.Parse.{
  XgbNode, NodeStat, XgbTree, feature_of, goes_left, is_xgb_leaf, LearnerModelParam, Contents,
  parse_contents,
}

-- The functions on `float`, and the conversion of one to a `double`.
pub record FloatMath : Type 0 where
  pub logf : TlFloat → TlFloat
  pub negate : TlFloat → TlFloat
  pub minus : TlFloat → TlFloat → TlFloat
  pub divided_by : TlFloat → TlFloat → TlFloat
  pub widen : TlFloat → ℕ

-- `ProbToMargin::Sigmoid`
unfoldable pub sigmoid_margin : FloatMath → TlFloat → TlFloat
sigmoid_margin lib global_bias =
    lib.negate (lib.logf (lib.minus (lib.divided_by one_float global_bias) one_float))

-- `ProbToMargin::Exponential`
unfoldable pub exponential_margin : FloatMath → TlFloat → TlFloat
exponential_margin lib global_bias = lib.logf global_bias

unfoldable pub is_logistic : Bytes → Bool
is_logistic name = same_text name (codes "reg:logistic") || same_text name (codes "binary:logistic")

unfoldable pub is_exponential : Bytes → Bool
is_exponential name =
    same_text name (codes "count:poisson")
    || same_text name (codes "reg:gamma")
    || same_text name (codes "reg:tweedie")

-- "set global bias"
unfoldable pub global_bias_of : FloatMath → LearnerModelParam → Bytes → TlFloat
unfolding sigmoid_margin exponential_margin is_logistic is_exponential
global_bias_of lib mparam name =
    if leb 1 mparam.major_version
    then (if is_logistic name
        then sigmoid_margin lib mparam.base_score
        else if is_exponential name
        then exponential_margin lib mparam.base_score
        else mparam.base_score)
    else mparam.base_score

-- `std::strncpy(model.param.pred_transform, name, sizeof(model.param.pred_transform))`
unfoldable pub with_transform : Bytes → ModelParam → ModelParam
unfolding copied
with_transform name param = record param { pred_transform = copied max_pred_transform_length name }

-- "set correct prediction transform function, depending on objective function"
unfoldable pub set_transform : Bytes → ModelParam → ModelParam
unfolding with_transform is_logistic is_exponential
set_transform name param =
    if same_text name (codes "multi:softmax")
    then with_transform (codes "max_index") param
    else if same_text name (codes "multi:softprob")
    then with_transform (codes "softmax") param
    else if is_logistic name
    then record (with_transform (codes "sigmoid") param) { sigmoid_alpha = one_float }
    else if is_exponential name
    then with_transform (codes "exponential") param
    else with_transform (codes "identity") param

-- A node that is not a leaf, without its `SetSumHess`.
unfoldable pub export_test :
    FloatMath → Node → XgbNode → NodeStat → ℕ → Tree → Result (IdQueue × Tree)
unfolding feature_of goes_left
export_test lib junk node stat new_id tree = do
  grown ← add_childs junk new_id tree
  split ← set_numerical_split new_id (feature_of node) node.info (goes_left node) lt grown
  tree' ← set_gain new_id (lib.widen stat.loss_chg) split
  new_left ← left_child tree' new_id
  new_right ← right_child tree' new_id
  ok ((node.cleft, new_left) ∷ (node.cright, new_right) ∷ [], tree')

-- One round of the loop: what it pushes, and the tree.
unfoldable pub visit : FloatMath → Node → XgbTree → ℕ → ℕ → Tree → Result (IdQueue × Tree)
unfolding is_xgb_leaf export_test
visit lib junk xgb_tree old_id new_id tree = do
  node ← or_fault (get_elem? xgb_tree.nodes old_id)
  stat ← or_fault (get_elem? xgb_tree.stats old_id)
  (children, tree') ←
      (if is_xgb_leaf node
        then (set_leaf new_id node.info tree >>= λ t. ok ([], t))
        else export_test lib junk node stat new_id tree)
  tree'' ← set_sum_hess new_id (lib.widen stat.sum_hess) tree'
  ok (children, tree'')

-- The body of the loop over the trees; `num` is what memory held for `num_nodes`.
unfoldable pub export_tree : FloatMath → Node → ℕ → ℕ → XgbTree → Result Tree
unfolding visit run_queue
export_tree lib junk num fuel xgb_tree = do
  tree ← init junk (default_tree num)
  run_queue (visit lib junk xgb_tree) fuel ((0, 0) ∷ []) tree

unfoldable pub export_trees : FloatMath → Node → ℕ → ℕ → List XgbTree → Result (List Tree)
unfolding export_tree
export_trees lib junk num fuel [] = ok []
export_trees lib junk num fuel (xgb_tree ∷ xgb_trees) = do
  tree ← export_tree lib junk num fuel xgb_tree
  trees ← export_trees lib junk num fuel xgb_trees
  ok (tree ∷ trees)

-- `std::max(x, 1)` of an `int`
abbrev pub at_least_one : ℕ → ℕ
at_least_one x = if ltb 1 x && ltb x 0x8000_0000 then x else 1

-- `ParseStream`; `buf` is the buffer of the stream as it was made, of 1025 bytes.
unfoldable pub parse_stream :
    (stream : ByteStream) → FloatMath → Node → ℕ → ℕ → Bytes → stream.State → Result Model
unfolding new_stream parse_contents global_bias_of set_transform export_trees
parse_stream stream lib junk num fuel buf fi = do
  file ← parse_contents stream (new_stream stream buf fi)
  let bias = global_bias_of lib file.mparam file.name_obj
  trees ← export_trees lib junk num fuel file.trees
  ok (record {
    trees = trees;
    num_feature = file.mparam.num_feature;
    num_output_group = at_least_one file.mparam.num_class;
    random_forest_flag = false;
    param = set_transform file.name_obj (record new_param { global_bias = bias });
  })
