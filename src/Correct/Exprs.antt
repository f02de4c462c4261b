-- ===== src/Correct/Exprs.antt =====
-- The code of an expression, run on the interpreter, computes its value.
use mathlib.Core.Path.{subst, ap₂}
use bispe.Base.{
  ℕ, ◌+◌, ◌-◌, ◌*◌, ◌^◌, ◌≤◌, ◌<◌, ◌≡◌, refl, sym, ap, ◌∙◌, Option, none, some, List, [], ◌∷◌, ◌++◌,
  arith, length, length-append, leb, if◌then◌else◌,
}
use bispe.Compiler.Symbols.{VarRef}
use bispe.Compiler.Instr.{instr_info, width}
use bispe.Compiler.Codebuf.Layout.{encode}
use bispe.Compiler.Generator.Defs.{Code, code}
use bispe.Compiler.Generator.Exprs.{
  Op, plus, minus, star, slash, percent, op_instr, Expr, literal, identifier, binary, code_of,
  code_size, code_size-append,
}
use bispe.Backend.Vm.Defs.{Vm, update, div_zero, next}
use bispe.Backend.Vm.Exec.{more, step, Status, running, failed, status, resume, run}
use bispe.Backend.Vm.Runs.{run-add, run_one}
use bispe.Correct.Steps.{
  Words, Words-append, after, step_push, step_load, step_op, variable, op_value, op_step,
}

pub encode-append : (cs ds : List Code) → encode (cs ++ ds) ≡ encode cs ++ encode ds
unfolding encode
encode-append [] ds = refl
encode-append (c ∷ cs) ds = ground (arith, encode-append cs ds)

pub length-encode_code_size : (cs : List Code) → length (encode cs) ≡ code_size cs
unfolding encode width
length-encode_code_size [] = refl
length-encode_code_size (c ∷ cs) = ground (arith, length-encode_code_size cs)

-- A value needs both operands.
abbrev pub both : {A : Type 0} → Option ℕ → Option ℕ → (ℕ → ℕ → Option A) → Option A
both none y f = none
both (some x) none f = none
both (some x) (some y) f = f x y

-- The value of an expression: none where it divides by zero.
unfoldable pub eval : (VarRef → ℕ) → Expr → Option ℕ
eval env (literal n) = some n
eval env (identifier r) = some (env r)
eval env (binary o a b) = both (eval env a) (eval env b) (op_value o)

-- The words of stack that the computation needs.
abbrev pub depth : Expr → ℕ
depth (literal n) = 1
depth (identifier r) = 1
depth (binary o a b) = if leb (depth a) (1 + depth b) then 1 + depth b else depth a

-- The variables are in the function's frame.
abbrev pub InFrame : (VarRef → ℕ) → ℕ → Expr → Type 0
InFrame pos call_ptr (literal n) = Unit
InFrame pos call_ptr (identifier r) = (pos r ≤ call_ptr) × (pos r < 2 ^ 30)
InFrame pos call_ptr (binary o a b) = InFrame pos call_ptr a × InFrame pos call_ptr b

-- The run ended behind `n` words of code with the value on the stack, in front of what was there,
-- and nothing but the instruction pointer and the stack has changed; or with the error, if there
-- is no value.
abbrev pub Computed : Vm → ℕ → Option ℕ → Status → Type 0
Computed vm n none s = s ≡ failed div_zero
Computed vm n (some v) s =
    (stack_seg : ℕ → ℕ) × (s ≡ running (after vm n (vm.stack_ptr + 1) stack_seg))
    × (stack_seg (vm.stack_ptr + 1) ≡ v)
    × ((k : ℕ) → k ≤ vm.stack_ptr → stack_seg k ≡ vm.stack_seg k)

-- A word pushed on the stack.
pushed :
    (vm : Vm) (n v : ℕ)
    → step vm ≡ next more (after vm n (vm.stack_ptr + 1) (update vm.stack_seg (vm.stack_ptr + 1) v))
    → Computed vm n (some v) (run 1 vm)
pushed vm n v e = (
  update vm.stack_seg (vm.stack_ptr + 1) v,
  run_one vm (after vm n (vm.stack_ptr + 1) (update vm.stack_seg (vm.stack_ptr + 1) v)) e,
  ground arith,
  λ k h. ground (arith, h),
)

-- An operator on the two words above the stack of `vm`.
op_step-Computed :
    (vm : Vm) (n : ℕ) (stack_seg : ℕ → ℕ) (r : Option ℕ)
    → ((k : ℕ) → k ≤ vm.stack_ptr → stack_seg k ≡ vm.stack_seg k)
    → Computed vm
        (n + 1)
        r
        (resume (status (op_step (after vm n (vm.stack_ptr + 1 + 1) stack_seg) r)) (run 0))
unfolding run
op_step-Computed vm n stack_seg none below = refl
op_step-Computed vm n stack_seg (some v) below =
    let ip : vm.instr_ptr + n + 1 ≡ vm.instr_ptr + (n + 1) = omega arith in
    let sp : vm.stack_ptr + 1 + 1 - 1 ≡ vm.stack_ptr + 1 = omega arith in
    (
      update stack_seg (vm.stack_ptr + 1) v,
      rw ip (rw sp refl),
      ground arith,
      λ k h. ground (arith, h, below k h),
    )

-- The code of an operator behind that of its operands, `x` and `y`.
run_op :
    (o : Op) (vm : Vm) (n x y : ℕ) (stack_seg : ℕ → ℕ)
    → vm.code_seg (vm.instr_ptr + n) ≡ (instr_info (op_instr o)).opcode
    → stack_seg (vm.stack_ptr + 1) ≡ x
    → stack_seg (vm.stack_ptr + 1 + 1) ≡ y
    → ((k : ℕ) → k ≤ vm.stack_ptr → stack_seg k ≡ vm.stack_seg k)
    → Computed vm (n + 1) (op_value o x y) (run 1 (after vm n (vm.stack_ptr + 1 + 1) stack_seg))
unfolding run step
run_op o vm n x y stack_seg op hx hy below =
    let vm' : Vm = after vm n (vm.stack_ptr + 1 + 1) stack_seg in
    let sp : vm.stack_ptr + 1 + 1 - 1 ≡ vm.stack_ptr + 1 = omega arith in
    let e : step vm' ≡ op_step vm' (op_value o x y) =
      step_op o vm' op (omega arith)
      ∙ ap (op_step vm') (ap₂ (op_value o) (ap stack_seg sp ∙ hx) hy) in
    subst (Computed vm (n + 1) (op_value o x y)) (sym (ap (λ s. resume (status s) (run 0)) e))
      (op_step-Computed vm n stack_seg (op_value o x y) below)

pub pieces :
    (vm : Vm) (la lb : ℕ) → run (la + lb + 1) vm ≡ resume (resume (run la vm) (run lb)) (run 1)
pieces vm la lb = run-add (la + lb) 1 vm ∙ ap (λ s. resume s (run 1)) (run-add la lb vm)

-- The operands' runs are joined.
binary_run :
    (o : Op) (vm : Vm) (la lb na nb : ℕ) (ra rb : Option ℕ)
    → vm.code_seg (vm.instr_ptr + (na + nb)) ≡ (instr_info (op_instr o)).opcode
    → Computed vm na ra (run la vm)
    → ((stack_seg : ℕ → ℕ)
        → Computed
            (after vm na (vm.stack_ptr + 1) stack_seg)
            nb
            rb
            (run lb (after vm na (vm.stack_ptr + 1) stack_seg)))
    → Computed vm (na + nb + 1) (both ra rb (op_value o)) (run (la + lb + 1) vm)
binary_run o vm la lb na nb none rb op ca cb = pieces vm la lb ∙ rw ca refl
binary_run o vm la lb na nb (some x) none op (stack_seg, e, top, below) cb =
    pieces vm la lb ∙ rw e (rw (cb stack_seg) refl)
binary_run o vm la lb na nb (some x) (some y) op (stack_seg, e, top, below) cb =
    let vm' : Vm = after vm na (vm.stack_ptr + 1) stack_seg in
    let (stack_seg', e', top', below') = cb stack_seg in
    let ip : vm.instr_ptr + na + nb ≡ vm.instr_ptr + (na + nb) = omega arith in
    let joined : run (la + lb + 1) vm
        ≡ run 1 (after vm (na + nb) (vm.stack_ptr + 1 + 1) stack_seg') =
      pieces vm la lb ∙ rw e (rw e' (rw ip refl)) in
    subst (Computed vm (na + nb + 1) (op_value o x y)) (sym joined) (
      run_op o vm (na + nb) x y stack_seg' op (below' (vm.stack_ptr + 1) (omega arith) ∙ top) top'
        λ k h. below' k (omega (arith, h)) ∙ below k h)

opcode_word :
    (c : Code) (seg : ℕ → ℕ) (p : ℕ)
    → Words (encode (c ∷ [])) seg p
    → seg p ≡ (instr_info c.instr).opcode
unfolding encode
opcode_word c seg p (e, w) = e

pub binary-Words :
    (cs ds : List Code) (c : Code) (seg : ℕ → ℕ) (p : ℕ)
    → Words (encode (cs ++ ds ++ c ∷ [])) seg p
    → Words (encode cs) seg p
      × Words (encode ds) seg (p + code_size cs)
      × Words (encode (c ∷ [])) seg (p + (code_size cs + code_size ds))
binary-Words cs ds c seg p w =
    let e : encode (cs ++ ds ++ c ∷ []) ≡ encode cs ++ encode ds ++ encode (c ∷ []) =
      encode-append (cs ++ ds) (c ∷ []) ∙ ap (λ xs. xs ++ encode (c ∷ [])) (encode-append cs ds) in
    let (w1, w2) =
      Words-append (encode cs ++ encode ds) (encode (c ∷ [])) seg p
        (subst (λ xs. Words xs seg p) e w) in
    let (wc, wd) = Words-append (encode cs) (encode ds) seg p w1 in
    let l : p + length (encode cs ++ encode ds) ≡ p + (code_size cs + code_size ds) = omega (
      arith,
      length-append (encode cs) (encode ds),
      length-encode_code_size cs,
      length-encode_code_size ds,
    ) in
    (
      wc,
      subst (Words (encode ds) seg) (ap (λ n. p + n) (length-encode_code_size cs)) wd,
      subst (Words (encode (c ∷ [])) seg) l w2,
    )

pub width_op : (o : Op) → width (op_instr o) ≡ 1
unfolding width
width_op plus = refl
width_op minus = refl
width_op star = refl
width_op slash = refl
width_op percent = refl

-- The run of the code of an expression, which takes at most as many words of stack as there are
-- left, and whose variables are in the frame.
pub run-code_of :
    (pos : VarRef → ℕ) (e : Expr) (vm : Vm)
    → Words (encode (code_of pos e)) vm.code_seg vm.instr_ptr
    → InFrame pos vm.call_ptr e
    → 4 * (vm.stack_ptr + depth e) < vm.stack_size
    → Computed vm
        (code_size (code_of pos e))
        (eval (λ r. variable vm (pos r)) e)
        (run (length (code_of pos e)) vm)
unfolding eval encode width
run-code_of pos (literal n) vm w f room = pushed vm 2 n (step_push vm n w room)
run-code_of pos (identifier r) vm w (frame, small) room =
    pushed vm 2 (variable vm (pos r)) (step_load vm (pos r) w frame small room)
run-code_of pos (binary o a b) vm w (fa, fb) room =
    let cs : List Code = code_of pos a in
    let ds : List Code = code_of pos b in
    let (wa, wb, wo) = binary-Words cs ds (code (op_instr o) 0) vm.code_seg vm.instr_ptr w in
    let op =
      opcode_word (code (op_instr o) 0) vm.code_seg (vm.instr_ptr + (code_size cs + code_size ds))
        wo in
    let len : length (cs ++ ds ++ code (op_instr o) 0 ∷ []) ≡ length cs + length ds + 1 =
      omega (arith, length-append (cs ++ ds) (code (op_instr o) 0 ∷ []), length-append cs ds) in
    let size : code_size (cs ++ ds ++ code (op_instr o) 0 ∷ []) ≡ code_size cs + code_size ds + 1 =
      omega (
        arith,
        code_size-append (cs ++ ds) (code (op_instr o) 0 ∷ []),
        code_size-append cs ds,
        width_op o,
      ) in
    rw size (
      rw len (
        binary_run o vm (length cs) (length ds) (code_size cs) (code_size ds)
          (eval (λ r. variable vm (pos r)) a) (eval (λ r. variable vm (pos r)) b) op
          (run-code_of pos a vm wa fa (ground (arith, room)))
          λ stack_seg.
            run-code_of pos b (after vm (code_size cs) (vm.stack_ptr + 1) stack_seg) wb fb
              (ground (arith, room))))
