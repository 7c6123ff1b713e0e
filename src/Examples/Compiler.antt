-- ===== src/Examples/Compiler.antt =====
-- A syntax tree of two trees: a test of feature 0 against 1.0, and a leaf.
use treelite.Prelude.{
  ℕ, ◌-◌, ◌*◌, ◌≡◌, refl, arith, true, false, List, [], ◌∷◌, none, some, ok, ◌>>=◌, leb,
}
use treelite.Base.{TlFloat, lt, compare_with_op, is_nan, is_finite, order_key, float_lt}
use treelite.Ast.{
  AstNode, ast_node, leaf, Info, Numerical, main_node, translation_unit_node,
  accumulator_context_node, code_folder_node, numerical_condition_node, scalar_output_node,
  float_val, int_val, new_node, to_children,
}
use treelite.Ast.Core.{core_nodes}
use treelite.Ast.Passes.{load_data_counts}
use treelite.Ast.DataCounts.{NodesOf, CountsOf, load_data_counts-CountsOf}
use treelite.Ast.Folding.{DoubleOps, fold_main, fold_children}
use treelite.Ast.Folding.Unfolded.{fold_main-core_nodes}
use treelite.Ast.Quantize.{
  scan_thresholds, quantize, compare_int, rewrite_node, numerical_condition, unquantized, insert,
  scan_node, math_binary_search,
}
use treelite.Ast.Quantize.Bins.{Above}
use treelite.Ast.Quantize.Search.{quantized_comparison}
use treelite.Ast.Quantize.Nodes.{rewrite_node-numerical_condition}
use treelite.Ast.Quantize.Scan.{Sorted, scan_thresholds-Sorted}

abbrev test : Numerical
test = record {
  condition = record { split_index = 0; default_left = true; gain = none };
  quantized = false;
  op = lt;
  threshold = float_val 0x3f80_0000;
}

abbrev output : TlFloat → AstNode
output v = new_node (scalar_output_node v) []

-- The tree with its counts: 8 rows reach the root.
abbrev counted : Info
counted = record { node_id = 0; tree_id = 0; data_count = some 8; sum_hess = none }

abbrev rare : AstNode
rare =
    ast_node (scalar_output_node 2)
      (record { node_id = 2; tree_id = 0; data_count = some 1; sum_hess = none }) leaf

abbrev tree : List AstNode → AstNode
tree children = ast_node (numerical_condition_node test) counted (to_children children)

abbrev program : List AstNode → AstNode
program heads =
    new_node
      (main_node
        (record { global_bias = 0; average_result = false; num_tree = 2; num_feature = 1 }))
      (new_node accumulator_context_node heads ∷ [])

abbrev unit_of : ℕ → List AstNode → AstNode
unit_of u heads = new_node (translation_unit_node u) (new_node accumulator_context_node heads ∷ [])

abbrev first_tree : AstNode
first_tree = tree (output 1 ∷ rare ∷ [])

abbrev two_trees : AstNode
two_trees = program (first_tree ∷ output 3 ∷ [])

abbrev two_units : AstNode
two_units = program (unit_of 0 (first_tree ∷ []) ∷ unit_of 1 (output 3 ∷ []) ∷ [])

-- A stand-in for the operations of doubles, on small numbers.
abbrev small : DoubleOps
small = record {
  log_of_size = λ x. x;
  log = λ x. x;
  double_is_nan = λ x. false;
  sub = λ x y. x - y;
  double_ge = λ x y. leb y x;
  quiet_nan = 0;
}

abbrev folder : AstNode → AstNode
folder n = new_node code_folder_node (n ∷ [])

fold_main-core_nodes_example :
    core_nodes (program (tree (output 1 ∷ folder rare ∷ []) ∷ output 3 ∷ []))
    ≡ core_nodes (program (first_tree ∷ output 3 ∷ []))
unfolding fold_main to_children fold_children
fold_main-core_nodes_example =
    fold_main-core_nodes small 5 false (program (first_tree ∷ output 3 ∷ []))
      (program (tree (output 1 ∷ folder rare ∷ []) ∷ output 3 ∷ [])) true refl

abbrev cuts : List TlFloat
cuts = 0x3f80_0000 ∷ 0x4000_0000 ∷ []

cuts-Above : Above 0 cuts
unfolding is_nan order_key
cuts-Above = (refl, omega arith, (refl, omega arith, tt))

quantized_comparison_example :
    (quantize (cuts ∷ []) 0x3fc0_0000 0 >>= λ q. compare_int q lt (1 * 2))
    ≡ compare_with_op 0x3fc0_0000 lt 0x4000_0000
unfolding is_nan
quantized_comparison_example =
    quantized_comparison (cuts ∷ []) 0 0x3fc0_0000 0x4000_0000 cuts 1 lt refl cuts-Above
      (omega arith) refl refl (λ e. cc)

abbrev quantized_test : Numerical
quantized_test = record test { quantized = true; threshold = int_val 0 }

rewrite_node-numerical_condition_example :
    (c : Numerical) × (numerical_condition_node quantized_test ≡ numerical_condition_node c)
    × (c.quantized ≡ true)
    × (numerical_condition (false ∷ []) (cuts ∷ []) c 0x3fc0_0000
        ≡ numerical_condition (false ∷ []) (cuts ∷ []) test 0x3fc0_0000)
unfolding rewrite_node is_nan is_finite unquantized math_binary_search float_lt order_key
rewrite_node-numerical_condition_example =
    rewrite_node-numerical_condition (false ∷ []) (cuts ∷ []) cuts test 0x3f80_0000 0x3fc0_0000
      (numerical_condition_node quantized_test) refl refl refl refl (λ e. cc) refl refl cuts-Above
      (omega arith) refl

scan_thresholds-Sorted_example : Sorted (cuts ∷ [])
unfolding scan_thresholds scan_node unquantized is_finite insert float_lt is_nan order_key
    to_children
scan_thresholds-Sorted_example =
    scan_thresholds-Sorted first_tree ((0x4000_0000 ∷ []) ∷ []) (cuts ∷ []) (two, tt) refl
  where
    two : Above 0 (0x4000_0000 ∷ [])
    two = (refl, omega arith, tt)

rare-NodesOf : NodesOf 3 0 rare
unfolding NodesOf
rare-NodesOf = (refl, omega arith, tt)

load_data_counts-CountsOf_example :
    (loaded : AstNode) × (load_data_counts ((8 ∷ 7 ∷ 1 ∷ []) ∷ []) rare ≡ ok loaded)
    × CountsOf (8 ∷ 7 ∷ 1 ∷ []) loaded
load_data_counts-CountsOf_example =
    load_data_counts-CountsOf ((8 ∷ 7 ∷ 1 ∷ []) ∷ []) (8 ∷ 7 ∷ 1 ∷ []) 0 3 rare refl (omega arith)
      (omega arith) (omega arith) rare-NodesOf
