-- ===== src/Correct/Branches.antt =====
-- The code of branches, run on the interpreter.
use mathlib.Core.Path.{subst}
use bispe.Base.{ℕ, ◌+◌, refl, sym, ap, true, false, [], ◌∷◌, ◌++◌, arith, append-nil}
use bispe.Compiler.Symbols.{VarRef}
use bispe.Compiler.Instr.{instr_jmp}
use bispe.Compiler.Codebuf.Layout.{encode}
use bispe.Compiler.Generator.Defs.{Code, code}
use bispe.Compiler.Generator.Exprs.{Expr, code_size}
use bispe.Compiler.Generator.Jumps.{Cmp, opposite}
use bispe.Compiler.Generator.Statements.{cond_code}
use bispe.Compiler.Generator.Stmts.{
  Stmt, if_then, if_else, stmt_code, stmt_size, code_size-stmt_code,
}
use bispe.Correct.Steps.{Words}
use bispe.Correct.Semantics.{value_of, of_if_then, of_if_not, of_if_first, of_if_second}
use bispe.Correct.Reaches.{reached, Reaches-then, Reaches-eq}
use bispe.Correct.Stmts.{code-Words, Simulates, test_run}
use bispe.Correct.Jumping.{both-opposite, jmp_run, code_size_jmp, cond-Words}

module _ (pos : VarRef → ℕ) where
  pub if_then-Simulates :
      (n : ℕ) (c : Cmp) (a b : Expr) (s : Stmt)
      → Simulates pos (n + code_size (cond_code pos a b) + 2) s
      → Simulates pos n (if_then c a b s)
  if_then-Simulates n c a b s hs vm vars vars' ws (of_if_then test x) w inside (fa, fb, fs)
        (ra, rb, rs) agrees =
      let body : ℕ = n + code_size (cond_code pos a b) + 2 in
      let (wc, wb) =
        cond-Words (cond_code pos a b) (stmt_code pos body s) (opposite c) (body + stmt_size pos s)
          vm.code_seg n w in
      Reaches-then refl (omega arith) (omega arith)
        (test_run pos n (body + stmt_size pos s) (opposite c) a b false vm vars
          (both-opposite c (value_of pos vars a) (value_of pos vars b) true test) wc
          (omega (arith, inside)) fa fb ra rb agrees)
        λ σ τ held.
          hs (reached vm body σ τ []) vars vars' ws x wb (omega (arith, inside)) fs rs held
  if_then-Simulates n c a b s hs vm vars vars' ws (of_if_not test silent kept) w inside (fa, fb, fs)
        (ra, rb, rs) agrees =
      let body : ℕ = n + code_size (cond_code pos a b) + 2 in
      let (wc, wb) =
        cond-Words (cond_code pos a b) (stmt_code pos body s) (opposite c) (body + stmt_size pos s)
          vm.code_seg n w in
      Reaches-eq (omega arith) silent kept (
        test_run pos n (body + stmt_size pos s) (opposite c) a b true vm vars
          (both-opposite c (value_of pos vars a) (value_of pos vars b) false test) wc
          (omega (arith, inside)) fa fb ra rb agrees)

  pub if_else-Simulates :
      (n : ℕ) (c : Cmp) (a b : Expr) (s t : Stmt)
      → Simulates pos (n + code_size (cond_code pos a b) + 2) s
      → Simulates pos (n + code_size (cond_code pos a b) + 2 + stmt_size pos s + 2) t
      → Simulates pos n (if_else c a b s t)
  if_else-Simulates n c a b s t hs ht vm vars vars' ws (of_if_first test x) w inside
        (fa, fb, fs, ft) (ra, rb, rs, rt) agrees =
      let body : ℕ = n + code_size (cond_code pos a b) + 2 in
      let other : ℕ = body + stmt_size pos s + 2 in
      let end : ℕ = other + stmt_size pos t in
      let over : Code = code instr_jmp end in
      let (wc, wr) =
        cond-Words (cond_code pos a b) (stmt_code pos body s ++ over ∷ stmt_code pos other t)
          (opposite c) other vm.code_seg n w in
      let (ws1, wo) =
        code-Words (stmt_code pos body s) (over ∷ stmt_code pos other t) vm.code_seg body wr in
      let (wj, wt) =
        code-Words (over ∷ []) (stmt_code pos other t) vm.code_seg
          (body + code_size (stmt_code pos body s)) wo in
      let wj' =
        subst (Words (encode (over ∷ [])) vm.code_seg)
          (ap (λ k. body + k) (code_size-stmt_code pos body s)) wj in
      Reaches-then refl (omega arith) (omega arith)
        (test_run pos n other (opposite c) a b false vm vars
          (both-opposite c (value_of pos vars a) (value_of pos vars b) true test) wc
          (omega (arith, inside)) fa fb ra rb agrees)
        λ σ τ held.
          Reaches-then {n = end} (sym (append-nil ws)) refl refl
            (hs (reached vm body σ τ []) vars vars' ws x ws1 (omega (arith, inside)) fs rs held)
            λ σ' τ' held'.
              jmp_run (reached (reached vm body σ τ []) (body + stmt_size pos s) σ' τ' ws)
                (body + stmt_size pos s) end vars' wj' (omega (arith, inside)) held'
  if_else-Simulates n c a b s t hs ht vm vars vars' ws (of_if_second test x) w inside
        (fa, fb, fs, ft) (ra, rb, rs, rt) agrees =
      let body : ℕ = n + code_size (cond_code pos a b) + 2 in
      let other : ℕ = body + stmt_size pos s + 2 in
      let over : Code = code instr_jmp (other + stmt_size pos t) in
      let (wc, wr) =
        cond-Words (cond_code pos a b) (stmt_code pos body s ++ over ∷ stmt_code pos other t)
          (opposite c) other vm.code_seg n w in
      let (ws1, wo) =
        code-Words (stmt_code pos body s) (over ∷ stmt_code pos other t) vm.code_seg body wr in
      let (wj, wt) =
        code-Words (over ∷ []) (stmt_code pos other t) vm.code_seg
          (body + code_size (stmt_code pos body s)) wo in
      let wt' : Words (encode (stmt_code pos other t)) vm.code_seg other =
        subst (Words (encode (stmt_code pos other t)) vm.code_seg)
          (omega (arith, code_size-stmt_code pos body s, code_size_jmp (other + stmt_size pos t)))
          wt in
      Reaches-then refl refl (omega arith)
        (test_run pos n other (opposite c) a b true vm vars
          (both-opposite c (value_of pos vars a) (value_of pos vars b) false test) wc
          (omega (arith, inside)) fa fb ra rb agrees)
        λ σ τ held.
          ht (reached vm other σ τ []) vars vars' ws x wt' (omega (arith, inside)) ft rt held
