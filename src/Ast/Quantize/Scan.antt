-- ===== src/Ast/Quantize/Scan.antt =====
-- The thresholds that `scan_thresholds` collects are sorted, for every feature.
use treelite.Prelude.{
  ℕ, zero, suc, true, false, List, [], ◌∷◌, some, ◌≡◌, arith, inl, inr, Bool-cases, Option-cases,
  if◌then◌else◌, ok, err, ◌>>=◌, or_fault, fault, >>=-eq-ok, ok-injective, get_elem?, set, All,
}
use treelite.Base.{TlFloat, is_nan, is_finite}
use treelite.Ast.{
  AstNode, ast_node, Children, leaf, child, Kind, main_node, translation_unit_node, quantizer_node,
  accumulator_context_node, code_folder_node, numerical_condition_node, categorical_condition_node,
  scalar_output_node, vector_output_node,
}
use treelite.Ast.Quantize.{
  insert, unquantized, scan_node, scan_thresholds, scan_thresholds_children,
}
use treelite.Ast.Quantize.Bins.{Above, insert-Above}

-- The thresholds of every feature are sorted.
abbrev pub Sorted : List (List TlFloat) → Type 0
Sorted cut_pts = All (Above 0) cut_pts

Sorted-get :
    (cut_pts : List (List TlFloat)) (i : ℕ) (xs : List TlFloat)
    → Sorted cut_pts
    → get_elem? cut_pts i ≡ some xs
    → Above 0 xs
Sorted-get [] i xs s e = cc
Sorted-get (y ∷ ys) zero xs s e = let same : y ≡ xs = cc in rw (← same) s.0
Sorted-get (y ∷ ys) (suc i) xs s e = Sorted-get ys i xs s.1 e

Sorted-set :
    (cut_pts : List (List TlFloat)) (i : ℕ) (xs : List TlFloat)
    → Sorted cut_pts
    → Above 0 xs
    → Sorted (set cut_pts i xs)
Sorted-set [] i xs s a = tt
Sorted-set (y ∷ ys) zero xs s a = (a, s.1)
Sorted-set (y ∷ ys) (suc i) xs s a = (s.0, Sorted-set ys i xs s.1 a)

finite-number : (x : TlFloat) → is_finite x ≡ true → is_nan x ≡ false
unfolding is_finite is_nan
finite-number x h = ground arith

scan_node-Sorted :
    (kind : Kind) (cut_pts out : List (List TlFloat))
    → Sorted cut_pts
    → scan_node kind cut_pts ≡ ok out
    → Sorted out
unfolding scan_node
scan_node-Sorted (main_node x) cut_pts out s h = rw (← ok-injective h) s
scan_node-Sorted (translation_unit_node x) cut_pts out s h = rw (← ok-injective h) s
scan_node-Sorted (quantizer_node x) cut_pts out s h = rw (← ok-injective h) s
scan_node-Sorted accumulator_context_node cut_pts out s h = rw (← ok-injective h) s
scan_node-Sorted code_folder_node cut_pts out s h = rw (← ok-injective h) s
scan_node-Sorted (categorical_condition_node x) cut_pts out s h = rw (← ok-injective h) s
scan_node-Sorted (scalar_output_node x) cut_pts out s h = rw (← ok-injective h) s
scan_node-Sorted (vector_output_node x) cut_pts out s h = rw (← ok-injective h) s
scan_node-Sorted (numerical_condition_node c) cut_pts out s h =
    let i = c.condition.split_index in
    let (th, _, h₁) =
      >>=-eq-ok (unquantized c)
        (λ th.
          if is_finite th
          then (or_fault (get_elem? cut_pts i) >>= λ cuts. ok (set cut_pts i (insert th cuts)))
          else ok cut_pts)
        h in
    elim (Bool-cases (is_finite th)) [
      | inr p ↦ let same : ok cut_pts ≡ ok out = rw p at h₁ in rw (← ok-injective same) s
      | inl p ↦ elim (Option-cases (get_elem? cut_pts i)) [
        | inl e ↦ let bad : err fault ≡ ok out = rw (p, e) at h₁ in cc
        | inr (xs, e) ↦
            let same : ok (set cut_pts i (insert th xs)) ≡ ok out = rw (p, e) at h₁ in
            let a =
              insert-Above 0 th xs (finite-number th p) (omega arith)
                (Sorted-get cut_pts i xs s e) in
            rw (← ok-injective same) (Sorted-set cut_pts i (insert th xs) s a)
      ]
    ]

mutual
  unfolding scan_thresholds

  node-Sorted :
      (n : AstNode) (cut_pts out : List (List TlFloat))
      → Sorted cut_pts
      → scan_thresholds n cut_pts ≡ ok out
      → Sorted out
  node-Sorted (ast_node kind info children) cut_pts out s h =
      let (cut, e, h₁) = >>=-eq-ok (scan_node kind cut_pts) (scan_thresholds_children children) h in
      children-Sorted children cut out (scan_node-Sorted kind cut_pts cut s e) h₁

  children-Sorted :
      (ns : Children) (cut_pts out : List (List TlFloat))
      → Sorted cut_pts
      → scan_thresholds_children ns cut_pts ≡ ok out
      → Sorted out
  children-Sorted leaf cut_pts out s h = rw (← ok-injective h) s
  children-Sorted (child n ns) cut_pts out s h =
      let (cut, e, h₁) = >>=-eq-ok (scan_thresholds n cut_pts) (scan_thresholds_children ns) h in
      children-Sorted ns cut out (node-Sorted n cut_pts cut s e) h₁

-- Where the thresholds of every feature are sorted, without repetition, they still are after
-- `scan_thresholds` has added those of a syntax tree.
pub scan_thresholds-Sorted :
    (n : AstNode) (cut_pts out : List (List TlFloat))
    → Sorted cut_pts
    → scan_thresholds n cut_pts ≡ ok out
    → Sorted out
scan_thresholds-Sorted = node-Sorted
