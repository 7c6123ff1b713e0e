-- ===== src/Model.antt =====
-- include/treelite/tree.h and include/treelite/tree_impl.h: `struct ModelParam` and `struct Model`.
-- `dmlc::stof` belongs to another library; it is the argument `stof`.
pub mod Param
pub mod Frames
pub mod RoundTrip
use treelite.Prelude.{
  ℕ, zero, suc, ◌-◌, Bool, List, [], ◌∷◌, ◌++◌, map, Result, ok, ◌>>=◌, take, replicate, length,
  String, Bytes, codes, if◌then◌else◌, ◌==◌,
}
use text.Mathlib.Text.{◌==◌ as str_eq}
use treelite.Base.{TlFloat}
use treelite.Tree.{Tree, clone_tree}

-- `TREELITE_MAX_PRED_TRANSFORM_LENGTH`
abbrev pub max_pred_transform_length : ℕ
max_pred_transform_length = 256

pub record ModelParam : Type 0 where
  -- the array of characters, all of it
  pub pred_transform : Bytes
  pub sigmoid_alpha : TlFloat
  pub global_bias : TlFloat

pub record Model : Type 0 where
  pub trees : List Tree
  pub num_feature : ℕ
  pub num_output_group : ℕ
  pub random_forest_flag : Bool
  pub param : ModelParam

-- `std::strncpy`: at most `n` characters, up to the terminator of `src`, and zeros behind them. What
-- the array holds after `n` characters stays.
unfoldable pub copied : ℕ → Bytes → Bytes
copied zero src = []
copied (suc n) [] = replicate (suc n) 0
copied (suc n) (c ∷ src) = if c == 0 then replicate (suc n) 0 else c ∷ copied n src

-- `1.0f`
abbrev pub one_float : TlFloat
one_float = 0x3f80_0000

-- `ModelParam()`
unfoldable pub new_param : ModelParam
unfolding copied
new_param = record {
  pred_transform = copied max_pred_transform_length (codes "identity");
  sigmoid_alpha = one_float;
  global_bias = 0;
}

-- `Model() = default`, with the numbers as memory had them.
unfoldable pub default_model : ℕ → ℕ → Bool → Model
unfolding new_param
default_model num_feature num_output_group flag = record {
  trees = [];
  num_feature = num_feature;
  num_output_group = num_output_group;
  random_forest_flag = flag;
  param = new_param;
}

-- One round of `InitAllowUnknown`.
unfoldable pub set_param :
    (Bytes → Result TlFloat) → String → Bytes → ModelParam → Result ModelParam
unfolding copied
set_param stof name value param =
    if str_eq name "pred_transform"
    then ok
        (record param { pred_transform = copied (max_pred_transform_length - 1) value ++ 0 ∷ [] })
    else if str_eq name "sigmoid_alpha"
    then (stof value >>= λ x. ok (record param { sigmoid_alpha = x }))
    else if str_eq name "global_bias"
    then (stof value >>= λ x. ok (record param { global_bias = x }))
    else ok param

-- `InitAllowUnknown`, with the list of unknown parameters that it returns.
unfoldable pub init_allow_unknown :
    (Bytes → Result TlFloat)
    → List (String × Bytes)
    → ModelParam
    → Result (ModelParam × List (String × Bytes))
unfolding set_param
init_allow_unknown stof [] param = ok (param, [])
init_allow_unknown stof ((name, value) ∷ kwargs) param = do
  param' ← set_param stof name value param
  init_allow_unknown stof kwargs param'

-- `InitParamAndCheck`: the warning goes to the error output.
unfoldable pub init_param_and_check :
    (Bytes → Result TlFloat) → List (String × Bytes) → ModelParam → Result ModelParam
unfolding init_allow_unknown
init_param_and_check stof cfg param = do
  (param', unknown) ← init_allow_unknown stof cfg param
  ok param'

unfoldable pub clone_model : Model → Model
clone_model model = record {
  trees = map clone_tree model.trees;
  num_feature = model.num_feature;
  num_output_group = model.num_output_group;
  random_forest_flag = model.random_forest_flag;
  param = model.param;
}
