-- ===== src/Correct/Programs.antt =====
-- The code of every statement, run on the interpreter.
use mathlib.Core.Path.{subst}
use bispe.Base.{ℕ, ◌+◌, refl, ap, arith}
use bispe.Compiler.Symbols.{VarRef}
use bispe.Compiler.Codebuf.Layout.{encode}
use bispe.Compiler.Generator.Exprs.{code_size}
use bispe.Compiler.Generator.Statements.{cond_code}
use bispe.Compiler.Generator.Stmts.{
  Stmt, skip, assign, print, seq, if_then, if_else, while, stmt_code, stmt_size,
  code_size-stmt_code,
}
use bispe.Correct.Steps.{Words}
use bispe.Correct.Semantics.{of_skip, of_seq}
use bispe.Correct.Reaches.{reached, Reaches-then, Reaches-eq}
use bispe.Correct.Stmts.{code-Words, Simulates, assign-Simulates, print-Simulates}
use bispe.Correct.Jumping.{stay}
use bispe.Correct.Branches.{if_then-Simulates, if_else-Simulates}
use bispe.Correct.Loops.{while-Simulates}

module _ (pos : VarRef → ℕ) where
  seq-Simulates :
      (n : ℕ) (s t : Stmt)
      → Simulates pos n s
      → Simulates pos (n + stmt_size pos s) t
      → Simulates pos n (seq s t)
  seq-Simulates n s t hs ht vm vars vars'' ws (of_seq {vars'} {us} {vs} x y e) w inside (fs, ft)
        (rs, rt) agrees =
      let m : ℕ = n + stmt_size pos s in
      let (w1, w2) = code-Words (stmt_code pos n s) (stmt_code pos m t) vm.code_seg n w in
      let w2' =
        subst (Words (encode (stmt_code pos m t)) vm.code_seg)
          (ap (λ k. n + k) (code_size-stmt_code pos n s)) w2 in
      Reaches-then e refl (omega arith)
        (hs vm vars vars' us x w1 (omega (arith, inside)) fs rs agrees)
        λ σ τ held.
          ht (reached vm m σ τ us) vars' vars'' vs y w2' (omega (arith, inside)) ft rt held

  skip-Simulates : (n : ℕ) → Simulates pos n skip
  skip-Simulates n vm vars vars' ws (of_skip silent kept) w inside f room agrees =
      Reaches-eq (omega arith) silent kept (stay vm n vars agrees)

  -- The code of every statement does what the statement does.
  pub stmt_code-Simulates : (s : Stmt) (n : ℕ) → Simulates pos n s
  stmt_code-Simulates skip n = skip-Simulates n
  stmt_code-Simulates (assign r e) n = assign-Simulates pos n r e
  stmt_code-Simulates (print e) n = print-Simulates pos n e
  stmt_code-Simulates (seq s t) n =
      seq-Simulates n s t (stmt_code-Simulates s n) (stmt_code-Simulates t (n + stmt_size pos s))
  stmt_code-Simulates (if_then c a b s) n =
      if_then-Simulates pos n c a b s
        (stmt_code-Simulates s (n + code_size (cond_code pos a b) + 2))
  stmt_code-Simulates (if_else c a b s t) n =
      if_else-Simulates pos n c a b s t
        (stmt_code-Simulates s (n + code_size (cond_code pos a b) + 2))
        (stmt_code-Simulates t (n + code_size (cond_code pos a b) + 2 + stmt_size pos s + 2))
  stmt_code-Simulates (while c a b s) n =
      while-Simulates pos n c a b s (stmt_code-Simulates s (n + 2))
