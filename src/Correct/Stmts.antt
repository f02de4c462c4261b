-- ===== src/Correct/Stmts.antt =====
-- The code of statements, run on the interpreter, does what the statements do.
use mathlib.Core.Path.{subst, ap₂}
use bispe.Base.{
  ℕ, ◌+◌, ◌-◌, ◌*◌, ◌<◌, ◌≡◌, refl, ap, ◌∙◌, Bool, some, List, [], ◌∷◌, ◌++◌, arith, length,
  if◌then◌else◌,
}
use bispe.Compiler.Symbols.{VarRef}
use bispe.Compiler.Instr.{instr_store, instr_print, instr_info}
use bispe.Compiler.Codebuf.Layout.{encode}
use bispe.Compiler.Generator.Defs.{Code, code}
use bispe.Compiler.Generator.Exprs.{
  Expr, literal, identifier, binary, code_of, code_size, code_size-append,
}
use bispe.Compiler.Generator.Jumps.{Cmp, cmp_instr}
use bispe.Compiler.Generator.Statements.{cond_code}
use bispe.Compiler.Generator.Stmts.{Stmt, assign, print, stmt_code, stmt_size, width_cmp}
use bispe.Backend.Vm.Defs.{Vm, update, next}
use bispe.Backend.Vm.Exec.{more, running, resume, run, step}
use bispe.Backend.Vm.Runs.{run-add, run_one}
use bispe.Correct.Steps.{Words, Words-append, after, variable, step_store, step_print, op_value}
use bispe.Correct.Exprs.{
  Computed, InFrame, both, depth, eval, encode-append, length-encode_code_size, run-code_of,
}
use bispe.Correct.Jumps.{Branched, holds, run-cond_code}
use bispe.Correct.Semantics.{
  Vars, value_of, test_of, Executes, of_assign, of_print, StmtInFrame, StmtFits,
}
use bispe.Correct.Reaches.{at, Agrees, Reaches}

-- The code of two streams, one behind the other.
pub code-Words :
    (cs ds : List Code) (seg : ℕ → ℕ) (p : ℕ)
    → Words (encode (cs ++ ds)) seg p
    → Words (encode cs) seg p × Words (encode ds) seg (p + code_size cs)
code-Words cs ds seg p w =
    let (a, b) =
      Words-append (encode cs) (encode ds) seg p
        (subst (λ xs. Words xs seg p) (encode-append cs ds) w) in
    (a, subst (Words (encode ds) seg) (ap (λ n. p + n) (length-encode_code_size cs)) b)

-- An expression has the same value over the frame as over the variables that it holds.
eval-Agrees :
    (pos : VarRef → ℕ) (vars : Vars) (vm : Vm) (e : Expr)
    → Agrees vars vm.call_ptr vm.call_seg
    → InFrame pos vm.call_ptr e
    → eval (λ r. variable vm (pos r)) e ≡ value_of pos vars e
unfolding eval
eval-Agrees pos vars vm (literal n) agrees f = refl
eval-Agrees pos vars vm (identifier r) agrees (frame, small) = ap some (agrees (pos r) frame)
eval-Agrees pos vars vm (binary o a b) agrees (fa, fb) =
    ap₂ (λ x y. both x y (op_value o)) (eval-Agrees pos vars vm a agrees fa)
      (eval-Agrees pos vars vm b agrees fb)

run_then_step :
    (k : ℕ) (vm vm1 vm2 : Vm)
    → run k vm ≡ running vm1
    → step vm1 ≡ next more vm2
    → run (k + 1) vm ≡ running vm2
run_then_step k vm vm1 vm2 ran stepped =
    run-add k 1 vm ∙ (ap (λ s. resume s (run 1)) ran ∙ run_one vm1 vm2 stepped)

module _ (pos : VarRef → ℕ) where
  -- The interpreter, at the code of a statement at the word `n`, ends behind it, and has done what
  -- the statement does.
  abbrev pub Simulates : ℕ → Stmt → Type 0
  Simulates n s =
      (vm : Vm) (vars vars' : Vars) (ws : List ℕ)
      → Executes pos s vars ws vars'
      → Words (encode (stmt_code pos n s)) vm.code_seg n
      → 4 * (n + stmt_size pos s) < vm.code_size
      → StmtInFrame pos vm.call_ptr s
      → StmtFits vm.stack_size vm.stack_ptr s
      → Agrees vars vm.call_ptr vm.call_seg
      → Reaches vm n (n + stmt_size pos s) ws vars'

  -- The code of an expression that has a value.
  value_run :
      (n v : ℕ) (e : Expr) (vm : Vm) (vars : Vars)
      → value_of pos vars e ≡ some v
      → Words (encode (code_of pos e)) vm.code_seg n
      → InFrame pos vm.call_ptr e
      → 4 * (vm.stack_ptr + depth e) < vm.stack_size
      → Agrees vars vm.call_ptr vm.call_seg
      → Computed
          (at vm n)
          (code_size (code_of pos e))
          (some v)
          (run (length (code_of pos e)) (at vm n))
  value_run n v e vm vars value w f room agrees =
      subst
        (λ o.
          Computed (at vm n) (code_size (code_of pos e)) o (run (length (code_of pos e)) (at vm n)))
        (eval-Agrees pos vars vm e agrees f ∙ value) (run-code_of pos e (at vm n) w f room)

  store-Words :
      (r : VarRef) (seg : ℕ → ℕ) (p : ℕ)
      → Words (encode (code instr_store (pos r) ∷ [])) seg p
      → Words (0x05 ∷ pos r ∷ []) seg p
  unfolding encode instr_info
  store-Words r seg p w = w

  pub assign-Simulates : (n : ℕ) (r : VarRef) (e : Expr) → Simulates n (assign r e)
  assign-Simulates n r e vm vars vars' ws (of_assign {v} value silent written) w inside
        ((frame, small), f) room agrees =
      let cs : List Code = code_of pos e in
      let (we, wr) = code-Words cs (code instr_store (pos r) ∷ []) vm.code_seg n w in
      let (stack_seg, ran, top, below) = value_run n v e vm vars value we f room agrees in
      let vm1 : Vm = after (at vm n) (code_size cs) (vm.stack_ptr + 1) stack_seg in
      let stored =
        step_store vm1 (pos r) (store-Words r vm.code_seg (n + code_size cs) wr) frame small
          (omega arith) in
      let ip : n + code_size cs + 2 ≡ n + (code_size cs + 2) = omega arith in
      let sp : vm.stack_ptr + 1 - 1 ≡ vm.stack_ptr = omega arith in
      record {
        steps = length cs + 1;
        stack_seg = stack_seg;
        call_seg = update vm.call_seg (vm.call_ptr - pos r) v;
        runs =
            run_then_step (length cs) (at vm n) vm1 _ ran stored
            ∙ rw silent (rw top (rw ip (rw sp refl)));
        agrees = λ p h. rw written (ground (arith, frame, h, agrees p h));
      }

  opcode_of_print :
      (seg : ℕ → ℕ) (p : ℕ) → Words (encode (code instr_print 0 ∷ [])) seg p → seg p ≡ 0x03
  unfolding encode instr_info
  opcode_of_print seg p (e, u) = e

  pub print-Simulates : (n : ℕ) (e : Expr) → Simulates n (print e)
  print-Simulates n e vm vars vars' ws (of_print {v} value spoken kept) w inside f room agrees =
      let cs : List Code = code_of pos e in
      let (we, wp) = code-Words cs (code instr_print 0 ∷ []) vm.code_seg n w in
      let (stack_seg, ran, top, below) = value_run n v e vm vars value we f room agrees in
      let vm1 : Vm = after (at vm n) (code_size cs) (vm.stack_ptr + 1) stack_seg in
      let stepped =
        step_print vm1 (opcode_of_print vm.code_seg (n + code_size cs) wp) (omega arith) in
      let ip : n + code_size cs + 1 ≡ n + (code_size cs + 1) = omega arith in
      let sp : vm.stack_ptr + 1 - 1 ≡ vm.stack_ptr = omega arith in
      record {
        steps = length cs + 1;
        stack_seg = stack_seg;
        call_seg = vm.call_seg;
        runs =
            run_then_step (length cs) (at vm n) vm1 _ ran stepped
            ∙ rw spoken (rw top (rw ip (rw sp refl)));
        agrees = λ p h. rw kept (agrees p h);
      }

  -- The operands of a condition and its jump.
  pub test_run :
      (n target : ℕ) (c : Cmp) (a b : Expr) (taken : Bool) (vm : Vm) (vars : Vars)
      → test_of pos vars c a b ≡ some taken
      → Words (encode (cond_code pos a b ++ code (cmp_instr c) target ∷ [])) vm.code_seg n
      → 4 * target < vm.code_size
      → InFrame pos vm.call_ptr a
      → InFrame pos vm.call_ptr b
      → 4 * (vm.stack_ptr + depth a) < vm.stack_size
      → 4 * (vm.stack_ptr + 1 + depth b) < vm.stack_size
      → Agrees vars vm.call_ptr vm.call_seg
      → Reaches vm n (if taken then target else n + (code_size (cond_code pos a b) + 2)) [] vars
  test_run n target c a b taken vm vars test w inside fa fb ra rb agrees =
      let cs : List Code = cond_code pos a b ++ code (cmp_instr c) target ∷ [] in
      let values =
        ap₂ (λ x y. both x y (λ x y. some (holds c x y))) (eval-Agrees pos vars vm a agrees fa)
          (eval-Agrees pos vars vm b agrees fb) in
      let branched : Branched (at vm n) (code_size cs) target (some taken)
          (run (length cs) (at vm n)) =
        subst (λ o. Branched (at vm n) (code_size cs) target o (run (length cs) (at vm n)))
          (values ∙ test) (run-cond_code pos c a b target (at vm n) w inside fa fb ra rb) in
      let (stack_seg, ran, below) = branched in
      let size : code_size cs ≡ code_size (cond_code pos a b) + 2 = omega (
        arith,
        code_size-append (cond_code pos a b) (code (cmp_instr c) target ∷ []),
        width_cmp c,
      ) in
      record {
        steps = length cs;
        stack_seg = stack_seg;
        call_seg = vm.call_seg;
        runs =
            ran
            ∙ ap
                (λ k. running (record vm {
                  instr_ptr = if taken then target else n + k;
                  stack_seg = stack_seg;
                }))
                size;
        agrees = agrees;
      }
