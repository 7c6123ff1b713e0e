-- ===== src/XgBoost/Parse/Layout.antt =====
-- How XGBoost writes its structures, and that the reader decodes them.
use treelite.Prelude.{
  ℕ, zero, suc, ◌+◌, ◌*◌, ◌/◌, ◌%◌, ◌<◌, ◌≡◌, refl, sym, ap, length-append, drop-append, ◌∙◌, arith,
  List, [], ◌∷◌, ◌++◌, length, drop, All, Bytes,
}
use treelite.XgBoost.Parse.{
  number, int_at, LearnerModelParam, learner_param, GbTreeModelParam, gbm_param, TreeParam,
  tree_param, NodeStat, node_stat, XgbNode, xgb_node, array_of,
}

-- The `n` low bytes of a number, the lowest first.
unfoldable pub le_bytes : ℕ → ℕ → Bytes
le_bytes zero x = []
le_bytes (suc n) x = x % 256 ∷ le_bytes n (x / 256)

-- The number is below 256 ^ n.
unfoldable Below : ℕ → ℕ → Type 0
Below zero x = x ≡ 0
Below (suc n) x = Below n (x / 256)

number-le_bytes : (n x : ℕ) (more : Bytes) → Below n x → number n (le_bytes n x ++ more) ≡ x
unfolding number le_bytes Below
number-le_bytes zero x more h = omega (arith, h)
number-le_bytes (suc n) x more h = omega (arith, number-le_bytes n (x / 256) more h)

pub length-le_bytes : (n x : ℕ) → length (le_bytes n x) ≡ n
unfolding le_bytes
length-le_bytes zero x = refl
length-le_bytes (suc n) x = ap suc (length-le_bytes n (x / 256))

-- An `int`, an `unsigned` or a `float`
abbrev pub IsInt : ℕ → Type 0
IsInt x = x < 0x1_0000_0000

number-int : (x : ℕ) (more : Bytes) → IsInt x → number 4 (le_bytes 4 x ++ more) ≡ x
unfolding Below
number-int x more h = number-le_bytes 4 x more (omega arith)

pub number-len :
    (x : ℕ) (more : Bytes) → x < 0x1_0000_0000_0000_0000 → number 8 (le_bytes 8 x ++ more) ≡ x
unfolding Below
number-len x more h = number-le_bytes 8 x more (omega arith)

unfoldable pub ints : List ℕ → Bytes
unfolding le_bytes
ints [] = []
ints (x ∷ xs) = le_bytes 4 x ++ ints xs

abbrev pub learner_fields : LearnerModelParam → List ℕ
learner_fields p =
    p.base_score ∷ p.num_feature ∷ p.num_class ∷ p.contain_extra_attrs ∷ p.contain_eval_metrics
    ∷ p.major_version ∷ p.minor_version ∷ []

abbrev pub gbm_fields : GbTreeModelParam → List ℕ
gbm_fields p =
    p.num_trees ∷ p.num_roots ∷ p.num_feature ∷ 0 ∷ 0 ∷ 0 ∷ p.num_output_group ∷ p.size_leaf_vector
    ∷ []

abbrev pub tree_fields : TreeParam → List ℕ
tree_fields p =
    p.num_roots ∷ p.num_nodes ∷ p.num_deleted ∷ p.max_depth ∷ p.num_feature ∷ p.size_leaf_vector
    ∷ []

abbrev pub node_fields : XgbNode → List ℕ
node_fields x = x.parent ∷ x.cleft ∷ x.cright ∷ x.sindex ∷ x.info ∷ []

abbrev pub stat_fields : NodeStat → List ℕ
stat_fields x = x.loss_chg ∷ x.sum_hess ∷ x.base_weight ∷ x.leaf_child_cnt ∷ []

pub xgb_node-ints :
    (x : XgbNode) (more : Bytes)
    → All IsInt (node_fields x)
    → xgb_node (ints (node_fields x) ++ more) ≡ x
unfolding xgb_node int_at ints le_bytes
xgb_node-ints x more (a, (b, (c, (d, (e, u))))) =
    rw
      (
        number-int x.parent (ints (x.cleft ∷ x.cright ∷ x.sindex ∷ x.info ∷ []) ++ more) a,
        number-int x.cleft (ints (x.cright ∷ x.sindex ∷ x.info ∷ []) ++ more) b,
        number-int x.cright (ints (x.sindex ∷ x.info ∷ []) ++ more) c,
        number-int x.sindex (ints (x.info ∷ []) ++ more) d,
        number-int x.info more e,
      )
      refl

pub node_stat-ints :
    (x : NodeStat) (more : Bytes)
    → All IsInt (stat_fields x)
    → node_stat (ints (stat_fields x) ++ more) ≡ x
unfolding node_stat int_at ints le_bytes
node_stat-ints x more (a, (b, (c, (d, u)))) =
    rw
      (
        number-int x.loss_chg (ints (x.sum_hess ∷ x.base_weight ∷ x.leaf_child_cnt ∷ []) ++ more) a,
        number-int x.sum_hess (ints (x.base_weight ∷ x.leaf_child_cnt ∷ []) ++ more) b,
        number-int x.base_weight (ints (x.leaf_child_cnt ∷ []) ++ more) c,
        number-int x.leaf_child_cnt more d,
      )
      refl

pub tree_param-ints :
    (p : TreeParam) (more : Bytes)
    → All IsInt (tree_fields p)
    → tree_param (ints (tree_fields p) ++ more) ≡ p
unfolding tree_param int_at ints le_bytes
tree_param-ints p more (a, (b, (c, (d, (e, (f, u)))))) =
    let at_leaf = ints (p.size_leaf_vector ∷ []) ++ more in
    let at_feature = ints (p.num_feature ∷ p.size_leaf_vector ∷ []) ++ more in
    let at_depth = ints (p.max_depth ∷ p.num_feature ∷ p.size_leaf_vector ∷ []) ++ more in
    rw
      (
        number-int p.num_roots
            (ints (
                p.num_nodes ∷ p.num_deleted ∷ p.max_depth ∷ p.num_feature ∷ p.size_leaf_vector ∷ [])
              ++ more)
            a,
        number-int p.num_nodes
            (ints (p.num_deleted ∷ p.max_depth ∷ p.num_feature ∷ p.size_leaf_vector ∷ []) ++ more)
            b,
        number-int p.num_deleted at_depth c,
        number-int p.max_depth at_feature d,
        number-int p.num_feature at_leaf e,
        number-int p.size_leaf_vector more f,
      )
      refl

pub learner_param-ints :
    (p : LearnerModelParam) (more : Bytes)
    → All IsInt (learner_fields p)
    → learner_param (ints (learner_fields p) ++ more) ≡ p
unfolding learner_param int_at ints le_bytes
learner_param-ints p more (a, (b, (c, (d, (e, (f, (g, u))))))) =
    let after_class =
      ints (p.contain_extra_attrs ∷ p.contain_eval_metrics ∷ p.major_version ∷ p.minor_version ∷ [])
      ++ more in
    let after_attrs =
      ints (p.contain_eval_metrics ∷ p.major_version ∷ p.minor_version ∷ []) ++ more in
    rw
      (
        number-int p.base_score
            (le_bytes 4 p.num_feature ++ (le_bytes 4 p.num_class ++ after_class)) a,
        number-int p.num_feature (le_bytes 4 p.num_class ++ after_class) b,
        number-int p.num_class after_class c,
        number-int p.contain_extra_attrs after_attrs d,
        number-int p.contain_eval_metrics (ints (p.major_version ∷ p.minor_version ∷ []) ++ more) e,
        number-int p.major_version (ints (p.minor_version ∷ []) ++ more) f,
        number-int p.minor_version more g,
      )
      refl

pub gbm_param-ints :
    (p : GbTreeModelParam) (more : Bytes)
    → All IsInt (gbm_fields p)
    → gbm_param (ints (gbm_fields p) ++ more) ≡ p
unfolding gbm_param int_at ints le_bytes
gbm_param-ints p more (a, (b, (c, (z₁, (z₂, (z₃, (d, (e, u)))))))) =
    let after_feature = ints (0 ∷ 0 ∷ 0 ∷ p.num_output_group ∷ p.size_leaf_vector ∷ []) ++ more in
    rw
      (
        number-int p.num_trees
            (le_bytes 4 p.num_roots ++ (le_bytes 4 p.num_feature ++ after_feature)) a,
        number-int p.num_roots (le_bytes 4 p.num_feature ++ after_feature) b,
        number-int p.num_feature after_feature c,
        number-int p.num_output_group (ints (p.size_leaf_vector ∷ []) ++ more) d,
        number-int p.size_leaf_vector more e,
      )
      refl

module _ {A : Type 0} (encode : A → List ℕ) where
  -- The structures one after the other.
  unfoldable pub array_bytes : List A → Bytes
  unfolding ints
  array_bytes [] = []
  array_bytes (x ∷ xs) = ints (encode x) ++ array_bytes xs

  module _ (decode : Bytes → A) (size : ℕ)
      (decodes : (x : A) (more : Bytes)
        → All IsInt (encode x)
        → decode (ints (encode x) ++ more) ≡ x)
      (sized : (x : A) → length (ints (encode x)) ≡ size) where
    pub array_of-array_bytes :
        (xs : List A)
        → All (λ x. All IsInt (encode x)) xs
        → array_of decode size (length xs) (array_bytes xs) ≡ xs
    unfolding array_of array_bytes
    array_of-array_bytes [] ok_all = refl
    array_of-array_bytes (x ∷ xs) (here, there) =
        let skip : drop size (ints (encode x) ++ array_bytes xs) ≡ array_bytes xs =
          ap (λ n. drop n (ints (encode x) ++ array_bytes xs)) (sym (sized x))
          ∙ drop-append (ints (encode x)) (array_bytes xs) in
        rw (decodes x (array_bytes xs) here, skip, array_of-array_bytes xs there) refl

    pub length-array_bytes : (xs : List A) → length (array_bytes xs) ≡ size * length xs
    unfolding array_bytes
    length-array_bytes [] = omega arith
    length-array_bytes (x ∷ xs) =
        length-append (ints (encode x)) (array_bytes xs)
        ∙ ap (λ n. n + length (array_bytes xs)) (sized x)
        ∙ ap (λ n. size + n) (length-array_bytes xs)
        ∙ grind arith

pub length-node_ints : (x : XgbNode) → length (ints (node_fields x)) ≡ 20
unfolding ints le_bytes
length-node_ints x = refl

pub length-stat_ints : (x : NodeStat) → length (ints (stat_fields x)) ≡ 16
unfolding ints le_bytes
length-stat_ints x = refl
