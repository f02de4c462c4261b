-- ===== src/Compiler/Generator/Stmts.antt =====
-- Statements: their trees as the parser and register_loc_vars build them, and their code.
use bispe.Base.{ℕ, ◌+◌, ◌≡◌, refl, List, [], ◌∷◌, ◌++◌, arith}
use bispe.Compiler.Symbols.{Symbols, VarRef}
use bispe.Compiler.Ast.Nodes.{
  ast_empty, ast_var_def, ast_var_assign, ast_print, ast_statement, ast_sequence, ast_branch,
  ast_loop, Val, var, Node, null, node,
}
use bispe.Compiler.Instr.{instr_store, instr_print, instr_jmp, width}
use bispe.Compiler.Generator.Defs.{Code, code}
use bispe.Compiler.Generator.Exprs.{
  Expr, identifier, IsExpr, Positions, code_of, code_size, code_size-append,
}
use bispe.Compiler.Generator.Jumps.{Cmp, eqeq, neq, gt, lt, ge, le, cmp_instr, opposite, IsCond}
use bispe.Compiler.Generator.Statements.{cond_code}

-- Statements without calls and returns.
pub data Stmt : Type 0 where
  skip : Stmt
  assign : VarRef → Expr → Stmt
  print : Expr → Stmt
  seq : Stmt → Stmt → Stmt
  if_then : Cmp → Expr → Expr → Stmt → Stmt
  if_else : Cmp → Expr → Expr → Stmt → Stmt → Stmt
  while : Cmp → Expr → Expr → Stmt → Stmt

-- Their trees. A declaration without a value is `skip`, one with a value an assignment.
pub data IsStmt : Node → Stmt → Type 0 where
  is_empty : {v : Val} → IsStmt (node ast_empty v null null null) skip
  is_declaration : {v : Val} {m r : Node} → IsStmt (node ast_var_def v null m r) skip
  is_definition :
      {p : VarRef} {n m r : Node} {e : Expr}
      → IsExpr n e
      → IsStmt (node ast_var_def (var p) n m r) (assign p e)
  is_assign :
      {p : VarRef} {n m r : Node} {e : Expr}
      → IsExpr n e
      → IsStmt (node ast_var_assign (var p) n m r) (assign p e)
  is_print :
      {v : Val} {n m r : Node} {e : Expr} → IsExpr n e → IsStmt (node ast_print v n m r) (print e)
  is_statement :
      {v : Val} {n : Node} {s : Stmt} → IsStmt n s → IsStmt (node ast_statement v n null null) s
  is_sequence :
      {v : Val} {l m : Node} {s t : Stmt}
      → IsStmt l s
      → IsStmt m t
      → IsStmt (node ast_sequence v l m null) (seq s t)
  is_if_then :
      {v : Val} {l m : Node} {c : Cmp} {a b : Expr} {s : Stmt}
      → IsCond l c a b
      → IsStmt m s
      → IsStmt (node ast_branch v l m null) (if_then c a b s)
  is_if_else :
      {v : Val} {l m : Node} {c : Cmp} {a b : Expr} {s t : Stmt} {k : Node}
      → IsCond l c a b
      → IsStmt m s
      → IsStmt k t
      → IsStmt (node ast_branch v l m k) (if_else c a b s t)
  is_while :
      {v : Val} {l m : Node} {c : Cmp} {a b : Expr} {s : Stmt}
      → IsCond l c a b
      → IsStmt m s
      → IsStmt (node ast_loop v l m null) (while c a b s)

module _ {Table : Type 0} (s : Symbols Table) (pos : VarRef → ℕ) where
  -- Every variable of the statement is in the table, at these positions.
  unfoldable pub StmtPositions : Stmt → Type 0
  unfolding Positions
  StmtPositions skip = Unit
  StmtPositions (assign r e) = Positions s pos (identifier r) × Positions s pos e
  StmtPositions (print e) = Positions s pos e
  StmtPositions (seq t u) = StmtPositions t × StmtPositions u
  StmtPositions (if_then c a b t) = Positions s pos a × Positions s pos b × StmtPositions t
  StmtPositions (if_else c a b t u) =
      Positions s pos a × Positions s pos b × StmtPositions t × StmtPositions u
  StmtPositions (while c a b t) = Positions s pos a × Positions s pos b × StmtPositions t

-- The words of the code.
abbrev pub stmt_size : (VarRef → ℕ) → Stmt → ℕ
stmt_size pos skip = 0
stmt_size pos (assign r e) = code_size (code_of pos e) + 2
stmt_size pos (print e) = code_size (code_of pos e) + 1
stmt_size pos (seq s t) = stmt_size pos s + stmt_size pos t
stmt_size pos (if_then c a b s) = code_size (cond_code pos a b) + 2 + stmt_size pos s
stmt_size pos (if_else c a b s t) =
    code_size (cond_code pos a b) + 2 + stmt_size pos s + 2 + stmt_size pos t
stmt_size pos (while c a b s) = 2 + stmt_size pos s + code_size (cond_code pos a b) + 2

-- The code from the word `n` on. Targets are words from the beginning of the program.
abbrev pub stmt_code : (VarRef → ℕ) → ℕ → Stmt → List Code
stmt_code pos n skip = []
stmt_code pos n (assign r e) = code_of pos e ++ code instr_store (pos r) ∷ []
stmt_code pos n (print e) = code_of pos e ++ code instr_print 0 ∷ []
stmt_code pos n (seq s t) = stmt_code pos n s ++ stmt_code pos (n + stmt_size pos s) t
stmt_code pos n (if_then c a b s) =
    let body : ℕ = n + code_size (cond_code pos a b) + 2 in
    cond_code pos a b
    ++ code (cmp_instr (opposite c)) (body + stmt_size pos s) ∷ stmt_code pos body s
stmt_code pos n (if_else c a b s t) =
    let body : ℕ = n + code_size (cond_code pos a b) + 2 in
    let other : ℕ = body + stmt_size pos s + 2 in
    cond_code pos a b
    ++ code (cmp_instr (opposite c)) other
      ∷ (stmt_code pos body s ++ code instr_jmp (other + stmt_size pos t) ∷ stmt_code pos other t)
stmt_code pos n (while c a b s) =
    (code instr_jmp (n + 2 + stmt_size pos s) ∷ stmt_code pos (n + 2) s)
    ++ cond_code pos a b
    ++ code (cmp_instr c) (n + 2) ∷ []

pub width_cmp : (c : Cmp) → width (cmp_instr c) ≡ 2
unfolding width
width_cmp eqeq = refl
width_cmp neq = refl
width_cmp gt = refl
width_cmp lt = refl
width_cmp ge = refl
width_cmp le = refl

pub code_size-stmt_code :
    (pos : VarRef → ℕ) (n : ℕ) (s : Stmt) → code_size (stmt_code pos n s) ≡ stmt_size pos s
unfolding width
code_size-stmt_code pos n skip = refl
code_size-stmt_code pos n (assign r e) =
    omega (arith, code_size-append (code_of pos e) (code instr_store (pos r) ∷ []))
code_size-stmt_code pos n (print e) =
    omega (arith, code_size-append (code_of pos e) (code instr_print 0 ∷ []))
code_size-stmt_code pos n (seq s t) = omega (
  arith,
  code_size-append (stmt_code pos n s) (stmt_code pos (n + stmt_size pos s) t),
  code_size-stmt_code pos n s,
  code_size-stmt_code pos (n + stmt_size pos s) t,
)
code_size-stmt_code pos n (if_then c a b s) =
    let body : ℕ = n + code_size (cond_code pos a b) + 2 in
    let jump : Code = code (cmp_instr (opposite c)) (body + stmt_size pos s) in
    omega (
      arith,
      code_size-append (cond_code pos a b) (jump ∷ stmt_code pos body s),
      code_size-stmt_code pos body s,
      width_cmp (opposite c),
    )
code_size-stmt_code pos n (if_else c a b s t) =
    let body : ℕ = n + code_size (cond_code pos a b) + 2 in
    let other : ℕ = body + stmt_size pos s + 2 in
    let jump : Code = code (cmp_instr (opposite c)) other in
    let over : List Code = code instr_jmp (other + stmt_size pos t) ∷ stmt_code pos other t in
    omega (
      arith,
      code_size-append (cond_code pos a b) (jump ∷ (stmt_code pos body s ++ over)),
      code_size-append (stmt_code pos body s) over,
      code_size-stmt_code pos body s,
      code_size-stmt_code pos other t,
      width_cmp (opposite c),
    )
code_size-stmt_code pos n (while c a b s) =
    let body : List Code = code instr_jmp (n + 2 + stmt_size pos s) ∷ stmt_code pos (n + 2) s in
    let back : List Code = code (cmp_instr c) (n + 2) ∷ [] in
    omega (
      arith,
      code_size-append (body ++ cond_code pos a b) back,
      code_size-append body (cond_code pos a b),
      code_size-stmt_code pos (n + 2) s,
      width_cmp c,
    )
