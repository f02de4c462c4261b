-- ===== src/Correct/Generated.antt =====
-- Expressions from their trees to their values on the interpreter.
use mathlib.Core.Path.{subst}
use bispe.Base.{
  ℕ, ◌+◌, ◌-◌, ◌*◌, ◌<◌, ◌≡◌, sym, ap, ◌∙◌, List, ◌++◌, arith, length, length-append, returned,
}
use bispe.Compiler.Symbols.{Hashed, VarRef}
use bispe.Compiler.Ast.Nodes.{Node}
use bispe.Compiler.Codebuf.Layout.{encode}
use bispe.Compiler.Generator.Defs.{Code, Gen, generate_helper}
use bispe.Compiler.Generator.Exprs.{
  Expr, IsExpr, Positions, append_code, code_of, code_size, generate_helper-expr,
}
use bispe.Compiler.Generator.Jumps.{with_code}
use bispe.Compiler.Generator.Stmts.{Stmt, IsStmt, StmtPositions, stmt_code, stmt_size}
use bispe.Compiler.Generator.Compiles.{done, generate_helper-stmt}
use bispe.Correct.Semantics.{Vars, Executes, StmtInFrame, StmtFits}
use bispe.Correct.Reaches.{Agrees, Reaches}
use bispe.Correct.Programs.{stmt_code-Simulates}
use bispe.Backend.Vm.Defs.{Vm}
use bispe.Backend.Vm.Exec.{run}
use bispe.Correct.Steps.{Words, Words-append, variable}
use bispe.Correct.Exprs.{
  Computed, InFrame, depth, eval, encode-append, length-encode_code_size, run-code_of,
}

-- The words in the middle of a stream.
middle-Words :
    (cs ds rest : List Code) (seg : ℕ → ℕ)
    → Words (encode (cs ++ ds ++ rest)) seg 0
    → Words (encode ds) seg (code_size cs)
middle-Words cs ds rest seg w =
    let e : encode (cs ++ ds ++ rest) ≡ encode cs ++ encode ds ++ encode rest =
      encode-append (cs ++ ds) rest ∙ ap (λ xs. xs ++ encode rest) (encode-append cs ds) in
    let (w1, w2) =
      Words-append (encode cs ++ encode ds) (encode rest) seg 0
        (subst (λ xs. Words xs seg 0) e w) in
    let (wc, wd) = Words-append (encode cs) (encode ds) seg 0 w1 in
    subst (Words (encode ds) seg) (omega (arith, length-encode_code_size cs)) wd

-- Let generate_helper go from `g` to `g'` over the tree of a call-free expression whose
-- identifiers are variables, and let the interpreter stand at the end of the code of `g` in a
-- segment that holds the code of `g'` and any further code, with its variables in the frame and
-- room on the stack. Then as many steps as elements were added bring it to the end of the code of
-- `g'`, with the value of the expression on top of a stack that is otherwise what it was and
-- nothing else changed; or to the division error, if the expression divides by zero.
pub run-generate_helper :
    {Table : Type 0} (h : Hashed Table) {n : Node} {e : Expr}
    → IsExpr n e
    → (pos : VarRef → ℕ) (g g' : Gen Table) (rest : List Code) (vm : Vm) → Positions g.symbols pos e
    → g.size ≡ code_size g.elems
    → generate_helper h n g ≡ returned (tt, g')
    → vm.instr_ptr ≡ g.size
    → Words (encode (g'.elems ++ rest)) vm.code_seg 0
    → InFrame pos vm.call_ptr e
    → 4 * (vm.stack_ptr + depth e) < vm.stack_size
    → Computed vm
        (g'.size - g.size)
        (eval (λ r. variable vm (pos r)) e)
        (run (length g'.elems - length g.elems) vm)
run-generate_helper {Table} h {e} i pos g g' rest vm p sized generated at words frame room =
    let same : append_code (code_of pos e) g ≡ g' = cc (generate_helper-expr h i pos g p) in
    let elems : g.elems ++ code_of pos e ≡ g'.elems = ap (λ (x : Gen Table). x.elems) same in
    let size : g'.size - g.size ≡ code_size (code_of pos e) =
      omega (arith, ap (λ (x : Gen Table). x.size) same) in
    let len : length g'.elems - length g.elems ≡ length (code_of pos e) =
      omega (arith, ap length elems, length-append g.elems (code_of pos e)) in
    let w : Words (encode (code_of pos e)) vm.code_seg (code_size g.elems) =
      middle-Words g.elems (code_of pos e) rest vm.code_seg
        (subst (λ xs. Words (encode (xs ++ rest)) vm.code_seg 0) (sym elems) words) in
    rw size (
      rw len (
        run-code_of pos e vm
          (subst (Words (encode (code_of pos e)) vm.code_seg) (sym (at ∙ sized)) w) frame room))

-- Let generate_helper go from `g` to `g'` over the tree of a statement without calls and returns
-- whose identifiers are variables, let the code segment hold the code of `g'` and any further
-- code, with the end of the code of `g'` inside it, and let the statement's variables be in the
-- frame and its expressions have room on the stack. If the statement, begun with the variables of
-- the frame, ends and has printed `ws`, then the interpreter, begun at the end of the code of
-- `g`, comes to the end of the code of `g'` in some number of steps; it has appended `ws` to its
-- print buffer, its frame holds the variables that the statement ends with, and its stack is as
-- high as before.
pub run-generate_helper-stmt :
    {Table : Type 0} (h : Hashed Table) {n : Node} {s : Stmt}
    → IsStmt n s
    → (pos : VarRef → ℕ) (g g' : Gen Table) (rest : List Code) (vm : Vm) (vars vars' : Vars)
      (ws : List ℕ)
    → StmtPositions g.symbols pos s
    → g.size ≡ code_size g.elems
    → generate_helper h n g ≡ returned (tt, g')
    → Words (encode (g'.elems ++ rest)) vm.code_seg 0
    → 4 * g'.size < vm.code_size
    → StmtInFrame pos vm.call_ptr s
    → StmtFits vm.stack_size vm.stack_ptr s
    → Agrees vars vm.call_ptr vm.call_seg
    → Executes pos s vars ws vars'
    → Reaches vm g.size g'.size ws vars'
run-generate_helper-stmt {Table} h {s} i pos g g' rest vm vars vars' ws p sized generated words
      inside frame room agrees x =
    let cs : List Code = stmt_code pos g.size s in
    let same : done g (g.elems ++ cs) (g.size + stmt_size pos s) ≡ returned (tt, g') =
      sym (generate_helper-stmt h pos i g p) ∙ generated in
    let same' : with_code g (g.elems ++ cs) (g.size + stmt_size pos s) ≡ g' = cc (same) in
    let elems : g.elems ++ cs ≡ g'.elems = ap (λ (x : Gen Table). x.elems) same' in
    let size : g.size + stmt_size pos s ≡ g'.size = ap (λ (x : Gen Table). x.size) same' in
    let w : Words (encode cs) vm.code_seg (code_size g.elems) =
      middle-Words g.elems cs rest vm.code_seg
        (subst (λ xs. Words (encode (xs ++ rest)) vm.code_seg 0) (sym elems) words) in
    subst (λ k. Reaches vm g.size k ws vars') size
      (stmt_code-Simulates pos s g.size vm vars vars' ws x
        (subst (Words (encode cs) vm.code_seg) (sym sized) w) (omega (arith, inside, size)) frame
        room agrees)
