-- ===== src/Ast/Folding/Unfolded.antt =====
-- Folding keeps the core of the syntax tree.
use treelite.Prelude.{
  ℕ, ◌+◌, Bool, not, ◌++◌, ok, guard, fault, ◌≡◌, refl, sym, ap, ◌∙◌, arith, inl, inr, Bool-cases,
  ◌==◌, >>=-eq-ok, ok-injective,
}
use mathlib.Core.List.{append-nil}
use treelite.Ast.{AstNode, ast_node, Children, leaf, child, Info, to_children}
use treelite.Ast.Passes.{count_tu_nodes, count_tu_children, is_tu}
use treelite.Ast.Core.{core_nodes, core_children, own_core}
use treelite.Ast.Folding.{
  DoubleOps, CodeFoldingContext, fold_code, fold_children, fold_node, fold_main, should_fold,
  enter_node,
}

module _ (ops : DoubleOps) (req : ℕ) (create : Bool) where
  fold_node-core :
      (n : AstNode) (context : CodeFoldingContext)
      → core_nodes (fold_node ops req create n context).0 ≡ core_nodes n
  unfolding core_nodes fold_node to_children
  fold_node-core n context = elim (Bool-cases create) [
    | inl p ↦ simp (p, append-nil (core_nodes n))
    | inr p ↦ simp (p, append-nil (core_nodes n))
  ]

  fold_node-count :
      (n : AstNode) (context : CodeFoldingContext)
      → count_tu_nodes (fold_node ops req create n context).0 + context.num_tu
        ≡ count_tu_nodes n + (fold_node ops req create n context).1.num_tu
  unfolding count_tu_nodes fold_node to_children is_tu
  fold_node-count n context = elim (Bool-cases create) [
    | inl p ↦ rw p (omega arith)
    | inr p ↦ rw p (omega arith)
  ]

  mutual
    unfolding fold_code core_nodes

    fold_code-core :
        (n : AstNode) (context : CodeFoldingContext)
        → core_nodes (fold_code ops req create n context).0 ≡ core_nodes n
    fold_code-core (ast_node kind info children) context =
        let context₁ = enter_node ops req create info context in
        elim (Bool-cases (should_fold ops req create info context₁)) [
          | inl p ↦ simp (p, fold_node-core (ast_node kind info children) context₁)
          | inr p ↦ simp (p, fold_children-core children context₁)
        ]

    fold_children-core :
        (ns : Children) (context : CodeFoldingContext)
        → core_children (fold_children ops req create ns context).0 ≡ core_children ns
    fold_children-core leaf context = refl
    fold_children-core (child n ns) context =
        simp
          (fold_code-core n context, fold_children-core ns (fold_code ops req create n context).2)

  enter_node-num_tu :
      (info : Info) (context : CodeFoldingContext)
      → (enter_node ops req create info context).num_tu ≡ context.num_tu
  unfolding enter_node
  enter_node-num_tu info context = elim (Bool-cases (info.node_id == 0)) [
    | inl p ↦ rw p refl
    | inr p ↦ rw p refl
  ]

  mutual
    unfolding fold_code count_tu_nodes

    fold_code-count :
        (n : AstNode) (context : CodeFoldingContext)
        → count_tu_nodes (fold_code ops req create n context).0 + context.num_tu
          ≡ count_tu_nodes n + (fold_code ops req create n context).2.num_tu
    fold_code-count (ast_node kind info children) context =
        let context₁ = enter_node ops req create info context in
        let e = enter_node-num_tu info context in
        elim (Bool-cases (should_fold ops req create info context₁)) [
          | inl p ↦ rw p (
              ap
                (λ (k : ℕ).
                  count_tu_nodes (fold_node ops req create (ast_node kind info children) context₁).0
                  + k)
                (sym e)
              ∙ fold_node-count (ast_node kind info children) context₁)
          | inr p ↦ rw p (omega (arith, e, fold_children-count children context₁))
        ]

    fold_children-count :
        (ns : Children) (context : CodeFoldingContext)
        → count_tu_children (fold_children ops req create ns context).0 + context.num_tu
          ≡ count_tu_children ns + (fold_children ops req create ns context).2.num_tu
    fold_children-count leaf context = refl
    fold_children-count (child n ns) context = omega (
      arith,
      fold_code-count n context,
      fold_children-count ns (fold_code ops req create n context).2,
    )

  -- Where `FoldCode` succeeds, the nodes that compute something, with their fields, are the same before
  -- and after it, in the same order.
  pub fold_main-core_nodes :
      (main main' : AstNode) (folded : Bool)
      → fold_main ops req create main ≡ ok (main', folded)
      → core_nodes main' ≡ core_nodes main
  unfolding fold_main core_nodes
  fold_main-core_nodes (ast_node kind info children) main' folded h =
      let start : CodeFoldingContext = record {
        log_root_data_count = ops.quiet_nan;
        log_root_sum_hess = ops.quiet_nan;
        num_tu = count_tu_nodes (ast_node kind info children);
      } in
      let context = enter_node ops req create info start in
      let r = fold_children ops req create children context in
      let (_, _, h₁) =
        >>=-eq-ok (guard (not (should_fold ops req create info context)) fault)
          (λ _. ok (ast_node kind info r.0, r.1)) h in
      let same : ast_node kind info r.0 ≡ main' =
        ap (λ (q : AstNode × Bool). q.0) (ok-injective h₁) in
      ap core_nodes (sym same)
      ∙ ap (λ c. own_core kind info ++ c) (fold_children-core children context)
