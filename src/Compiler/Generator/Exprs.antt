-- ===== src/Compiler/Generator/Exprs.antt =====
-- The code of expressions: their trees as the parser builds them, and what generate_helper makes
-- of these.
use bispe.Base.{
  ℕ, ◌+◌, ◌≡◌, refl, sym, ap, ◌∙◌, some, List, [], ◌∷◌, ◌++◌, append_assoc, returned, arith,
}
use bispe.Compiler.Token.{TokenType, tok_plus, tok_minus, tok_star, tok_slash, tok_percent}
use bispe.Compiler.Symbols.{Hashed, Symbols, VarInfo, VarRef, find_var}
use bispe.Compiler.Ast.Nodes.{
  ast_identifier, ast_intliteral, ast_expression, ast_expression1, ast_numop, ast_numop_leaf, Val,
  type, number, var, Node, null, node, leaf,
}
use bispe.Compiler.Instr.{
  InstrType, instr_push, instr_load, instr_add, instr_sub, instr_mul, instr_div, instr_mod, width,
}
use bispe.Compiler.Generator.Defs.{Code, code, Gen, push, numop_instr, generate_helper}

-- The numeric operators.
pub data Op : Type 0 where
  plus minus star slash percent : Op

abbrev pub op_token : Op → TokenType
op_token plus = tok_plus
op_token minus = tok_minus
op_token star = tok_star
op_token slash = tok_slash
op_token percent = tok_percent

abbrev pub op_instr : Op → InstrType
op_instr plus = instr_add
op_instr minus = instr_sub
op_instr star = instr_mul
op_instr slash = instr_div
op_instr percent = instr_mod

-- An expression without calls.
pub data Expr : Type 0 where
  literal : ℕ → Expr
  identifier : VarRef → Expr
  binary : Op → Expr → Expr → Expr

-- The trees of an expression: check_expr1 and check_expr wrap a node around each operand.
pub data IsExpr : Node → Expr → Type 0 where
  is_literal : {n : ℕ} → IsExpr (leaf ast_intliteral (number n)) (literal n)
  is_identifier : {r : VarRef} → IsExpr (leaf ast_identifier (var r)) (identifier r)
  is_expression1 :
      {n : Node} {e : Expr} {v : Val} → IsExpr n e → IsExpr (node ast_expression1 v n null null) e
  is_expression :
      {n : Node} {e : Expr} {v : Val} → IsExpr n e → IsExpr (node ast_expression v n null null) e
  is_binary :
      {l r : Node} {a b : Expr} {v w : Val} {o : Op}
      → IsExpr l a
      → IsExpr r b
      → IsExpr
          (node ast_expression v l
            (node ast_numop w (leaf ast_numop_leaf (type (op_token o))) null null)
            r)
          (binary o a b)

-- The words of a stream.
abbrev pub code_size : List Code → ℕ
code_size [] = 0
code_size (c ∷ cs) = width c.instr + code_size cs

pub code_size-append : (cs ds : List Code) → code_size (cs ++ ds) ≡ code_size cs + code_size ds
code_size-append [] ds = omega arith
code_size-append (c ∷ cs) ds = omega (arith, code_size-append cs ds)

module _ {Table : Type 0} where
  -- Every identifier of the expression is a variable, at these positions.
  unfoldable pub Positions : Symbols Table → (VarRef → ℕ) → Expr → Type 0
  Positions s pos (literal n) = Unit
  Positions s pos (identifier r) = (x : VarInfo) × (find_var s r ≡ some x) × (x.pos ≡ pos r)
  Positions s pos (binary o a b) = Positions s pos a × Positions s pos b

  abbrev pub append_code : List Code → Gen Table → Gen Table
  append_code cs g = record g { elems = g.elems ++ cs; size = g.size + code_size cs }

-- Postfix order: the operands, from the left, and the operator.
abbrev pub code_of : (VarRef → ℕ) → Expr → List Code
code_of pos (literal n) = code instr_push n ∷ []
code_of pos (identifier r) = code instr_load (pos r) ∷ []
code_of pos (binary o a b) = code_of pos a ++ code_of pos b ++ code (op_instr o) 0 ∷ []

module _ {Table : Type 0} where
  pub append_code-append :
      (cs ds : List Code) (g : Gen Table)
      → append_code ds (append_code cs g) ≡ append_code (cs ++ ds) g
  append_code-append cs ds g =
      let e : (g.size + code_size cs) + code_size ds ≡ g.size + code_size (cs ++ ds) =
        omega (arith, code_size-append cs ds) in
      rw (append_assoc g.elems cs ds)
        (ap (λ n. record g { elems = g.elems ++ (cs ++ ds); size = n }) e)

  pub push_lem :
      (i : InstrType) (a : ℕ) (g : Gen Table)
      → push i a g ≡ returned (tt, append_code (code i a ∷ []) g)
  unfolding push
  push_lem i a g =
      let e : g.size + width i ≡ g.size + code_size (code i a ∷ []) = omega arith in
      ap (λ n. returned (tt, record g { elems = g.elems ++ code i a ∷ []; size = n })) e

  numop_leaf_lem :
      (h : Hashed Table) (o : Op) (w : Val) (g : Gen Table)
      → generate_helper h (node ast_numop w (leaf ast_numop_leaf (type (op_token o))) null null) g
        ≡ returned (tt, append_code (code (op_instr o) 0 ∷ []) g)
  unfolding generate_helper numop_instr
  numop_leaf_lem h plus w g = rw (push_lem instr_add 0 g) refl
  numop_leaf_lem h minus w g = rw (push_lem instr_sub 0 g) refl
  numop_leaf_lem h star w g = rw (push_lem instr_mul 0 g) refl
  numop_leaf_lem h slash w g = rw (push_lem instr_div 0 g) refl
  numop_leaf_lem h percent w g = rw (push_lem instr_mod 0 g) refl

-- What generate_helper appends for the tree of a call-free expression whose identifiers are
-- variables is its code in postfix order, with the variables' positions.
pub generate_helper-expr :
    {Table : Type 0} (h : Hashed Table) {n : Node} {e : Expr}
    → IsExpr n e
    → (pos : VarRef → ℕ) (g : Gen Table) → Positions g.symbols pos e
    → generate_helper h n g ≡ returned (tt, append_code (code_of pos e) g)
unfolding generate_helper Positions
generate_helper-expr h (is_literal {n}) pos g p = push_lem instr_push n g
generate_helper-expr h is_identifier pos g (x, f, q) =
    rw f (rw (sym q) (push_lem instr_load x.pos g))
generate_helper-expr h (is_expression1 i) pos g p = rw (generate_helper-expr h i pos g p) refl
generate_helper-expr h (is_expression i) pos g p = rw (generate_helper-expr h i pos g p) refl
generate_helper-expr h (is_binary {a} {b} {w} {o} i j) pos g (p, q) =
    let g' = append_code (code_of pos a) g in
    let ops = code (op_instr o) 0 ∷ [] in
    let joined =
      ap (append_code ops) (append_code-append (code_of pos a) (code_of pos b) g)
      ∙ append_code-append (code_of pos a ++ code_of pos b) ops g in
    rw (generate_helper-expr h i pos g p) (
      rw (generate_helper-expr h j pos g' q) (
        rw (numop_leaf_lem h o w (append_code (code_of pos b) g'))
          (ap (λ g. returned (tt, g)) joined)))
