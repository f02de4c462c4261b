-- ===== src/Correct/Loops.antt =====
-- The code of while-loops, run on the interpreter.
use mathlib.Core.Path.{subst}
use bispe.Base.{ℕ, ◌+◌, ◌*◌, ◌<◌, refl, true, false, List, [], ◌∷◌, ◌++◌, arith, append_assoc}
use bispe.Compiler.Symbols.{VarRef}
use bispe.Compiler.Instr.{instr_jmp}
use bispe.Compiler.Codebuf.Layout.{encode}
use bispe.Compiler.Generator.Defs.{Code, code}
use bispe.Compiler.Generator.Exprs.{Expr, code_size-append}
use bispe.Compiler.Generator.Jumps.{Cmp, cmp_instr}
use bispe.Compiler.Generator.Statements.{cond_code}
use bispe.Compiler.Generator.Stmts.{Stmt, while, stmt_code, stmt_size, code_size-stmt_code}
use bispe.Backend.Vm.Defs.{Vm}
use bispe.Correct.Steps.{Words}
use bispe.Correct.Semantics.{Vars, Executes, of_while_end, of_while_turn, StmtInFrame, StmtFits}
use bispe.Correct.Reaches.{reached, Agrees, Reaches, Reaches-then, Reaches-eq}
use bispe.Correct.Stmts.{code-Words, Simulates, test_run}
use bispe.Correct.Jumping.{jmp_run, code_size_jmp}

module _ (pos : VarRef → ℕ) where
  -- A loop, from the code of its condition on.
  turns :
      (n : ℕ) (c : Cmp) (a b : Expr) (s : Stmt)
      → Simulates pos (n + 2) s
      → (vm : Vm) (vars vars' : Vars) (ws : List ℕ) → Executes pos (while c a b s) vars ws vars'
      → Words (encode (stmt_code pos (n + 2) s)) vm.code_seg (n + 2)
      → Words
          (encode (cond_code pos a b ++ code (cmp_instr c) (n + 2) ∷ []))
          vm.code_seg
          (n + 2 + stmt_size pos s)
      → 4 * (n + stmt_size pos (while c a b s)) < vm.code_size
      → StmtInFrame pos vm.call_ptr (while c a b s)
      → StmtFits vm.stack_size vm.stack_ptr (while c a b s)
      → Agrees vars vm.call_ptr vm.call_seg
      → Reaches vm (n + 2 + stmt_size pos s) (n + stmt_size pos (while c a b s)) ws vars'
  turns n c a b s hs vm vars vars' ws (of_while_end test silent kept) wb wc inside (fa, fb, fs)
        (ra, rb, rs) agrees =
      Reaches-eq (omega arith) silent kept (
        test_run pos (n + 2 + stmt_size pos s) (n + 2) c a b false vm vars test wc
          (omega (arith, inside)) fa fb ra rb agrees)
  turns n c a b s hs vm vars vars'' ws (of_while_turn {vars'} {us} {vs} test x y e) wb wc inside
        (fa, fb, fs) (ra, rb, rs) agrees =
      let k : ℕ = n + 2 + stmt_size pos s in
      Reaches-then refl refl refl
        (test_run pos k (n + 2) c a b true vm vars test wc (omega (arith, inside)) fa fb ra rb
          agrees)
        λ σ τ held.
          Reaches-then e refl refl
            (hs (reached vm (n + 2) σ τ []) vars vars' us x wb (omega (arith, inside)) fs rs held)
            λ σ' τ' held'.
              turns n c a b s hs (reached (reached vm (n + 2) σ τ []) k σ' τ' us) vars' vars'' vs y
                wb wc inside (fa, fb, fs) (ra, rb, rs) held'

  pub while-Simulates :
      (n : ℕ) (c : Cmp) (a b : Expr) (s : Stmt)
      → Simulates pos (n + 2) s
      → Simulates pos n (while c a b s)
  while-Simulates n c a b s hs vm vars vars' ws x w inside f room agrees =
      let k : ℕ = n + 2 + stmt_size pos s in
      let jump : Code = code instr_jmp k in
      let block : List Code = stmt_code pos (n + 2) s in
      let back : List Code = code (cmp_instr c) (n + 2) ∷ [] in
      let cs : List Code = cond_code pos a b in
      let (w1, w2) =
        code-Words (jump ∷ block) (cs ++ back) vm.code_seg n
          (subst (λ xs. Words (encode xs) vm.code_seg n) (append_assoc (jump ∷ block) cs back) w) in
      let (wj, wb) = code-Words (jump ∷ []) block vm.code_seg n w1 in
      let wb' : Words (encode block) vm.code_seg (n + 2) =
        subst (Words (encode block) vm.code_seg) (omega (arith, code_size_jmp k)) wb in
      let wc : Words (encode (cs ++ back)) vm.code_seg k =
        subst (Words (encode (cs ++ back)) vm.code_seg)
          (omega (
            arith,
            code_size_jmp k,
            code_size-append (jump ∷ []) block,
            code_size-stmt_code pos (n + 2) s,
          ))
          w2 in
      Reaches-then refl refl refl (jmp_run vm n k vars wj (omega (arith, inside)) agrees)
        λ σ τ held.
          turns n c a b s hs (reached vm k σ τ []) vars vars' ws x wb' wc inside f room held
