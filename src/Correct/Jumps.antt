-- ===== src/Correct/Jumps.antt =====
-- The code of a condition, run on the interpreter, goes on where its jump sends it.
use mathlib.Core.Path.{ap₂}
use bispe.Base.{
  ℕ, ◌+◌, ◌-◌, ◌*◌, ◌%◌, ◌^◌, ◌≤◌, ◌<◌, ◌≡◌, refl, ap, ◌∙◌, Bool, not, Option, none, some, List, [],
  ◌∷◌, ◌++◌, arith, length, length-append, ltb, leb, ◌==◌, if◌then◌else◌,
}
use bispe.Compiler.Symbols.{VarRef}
use bispe.Compiler.Instr.{instr_info, width}
use bispe.Compiler.Codebuf.Layout.{encode}
use bispe.Compiler.Generator.Defs.{Code, code}
use bispe.Compiler.Generator.Exprs.{Expr, code_of, code_size, code_size-append}
use bispe.Compiler.Generator.Jumps.{Cmp, eqeq, neq, gt, lt, ge, le, cmp_instr, opposite}
use bispe.Compiler.Generator.Statements.{cond_code}
use bispe.Backend.Vm.Defs.{Vm, div_zero, next}
use bispe.Backend.Vm.Exec.{more, step, Status, running, failed, run}
use bispe.Backend.Vm.Runs.{run_one}
use bispe.Correct.Steps.{Words, after, variable}
use bispe.Correct.Exprs.{Computed, InFrame, both, depth, eval, run-code_of, pieces, binary-Words}

-- The number that a word stands for, in two's complement, raised by 2 ^ 31.
abbrev pub raised : ℕ → ℕ
raised a = let w : ℕ = a % 2 ^ 32 in if ltb w (2 ^ 31) then w + 2 ^ 31 else w - 2 ^ 31

-- The comparison of two words, as signed numbers.
abbrev pub holds : Cmp → ℕ → ℕ → Bool
holds eqeq a b = a == b
holds neq a b = not (a == b)
holds lt a b = ltb (raised a) (raised b)
holds gt a b = ltb (raised b) (raised a)
holds ge a b = leb (raised b) (raised a)
holds le a b = leb (raised a) (raised b)

raised_lem : (a : ℕ) → (a + 2 ^ 31) % 2 ^ 32 ≡ raised a
raised_lem a = ground arith

leb-not : (a b : ℕ) → leb a b ≡ not (ltb b a)
leb-not a b = ground arith

ltb-not : (a b : ℕ) → ltb a b ≡ not (leb b a)
ltb-not a b = ground arith

-- The jump of a negated comparison is taken exactly when the comparison does not hold.
pub holds-opposite : (c : Cmp) (a b : ℕ) → holds (opposite c) a b ≡ not (holds c a b)
holds-opposite eqeq a b = refl
holds-opposite neq a b = ground arith
holds-opposite gt a b = leb-not (raised a) (raised b)
holds-opposite lt a b = leb-not (raised b) (raised a)
holds-opposite ge a b = ltb-not (raised a) (raised b)
holds-opposite le a b = ltb-not (raised b) (raised a)

-- The state behind a jump.
abbrev pub jumped : Vm → ℕ → Bool → ℕ → Vm
jumped vm target taken stack_ptr = record vm {
  instr_ptr = if taken then target else vm.instr_ptr + 2;
  stack_ptr = stack_ptr;
}

step_jump :
    (c : Cmp) (vm : Vm) (target : ℕ)
    → Words ((instr_info (cmp_instr c)).opcode ∷ target ∷ []) vm.code_seg vm.instr_ptr
    → 4 * target < vm.code_size
    → 1 < vm.stack_ptr
    → step vm
      ≡ next more (
          jumped vm target
            (holds c (vm.stack_seg (vm.stack_ptr - 1)) (vm.stack_seg vm.stack_ptr))
            (vm.stack_ptr - 2))
unfolding step instr_info
step_jump eqeq vm target (op, (arg, u)) inside above = rw op (ground (arith, arg, inside, above))
step_jump neq vm target (op, (arg, u)) inside above = rw op (ground (arith, arg, inside, above))
step_jump gt vm target (op, (arg, u)) inside above = rw op (
    ground (
      arith,
      arg,
      inside,
      above,
      raised_lem (vm.stack_seg (vm.stack_ptr - 1)),
      raised_lem (vm.stack_seg vm.stack_ptr),
    ))
step_jump lt vm target (op, (arg, u)) inside above = rw op (
    ground (
      arith,
      arg,
      inside,
      above,
      raised_lem (vm.stack_seg (vm.stack_ptr - 1)),
      raised_lem (vm.stack_seg vm.stack_ptr),
    ))
step_jump ge vm target (op, (arg, u)) inside above = rw op (
    ground (
      arith,
      arg,
      inside,
      above,
      raised_lem (vm.stack_seg (vm.stack_ptr - 1)),
      raised_lem (vm.stack_seg vm.stack_ptr),
    ))
step_jump le vm target (op, (arg, u)) inside above = rw op (
    ground (
      arith,
      arg,
      inside,
      above,
      raised_lem (vm.stack_seg (vm.stack_ptr - 1)),
      raised_lem (vm.stack_seg vm.stack_ptr),
    ))

jump-Words :
    (c : Cmp) (target : ℕ) (seg : ℕ → ℕ) (p : ℕ)
    → Words (encode (code (cmp_instr c) target ∷ [])) seg p
    → Words ((instr_info (cmp_instr c)).opcode ∷ target ∷ []) seg p
unfolding encode instr_info
jump-Words eqeq target seg p w = w
jump-Words neq target seg p w = w
jump-Words gt target seg p w = w
jump-Words lt target seg p w = w
jump-Words ge target seg p w = w
jump-Words le target seg p w = w

width_jump : (c : Cmp) → width (cmp_instr c) ≡ 2
unfolding width
width_jump eqeq = refl
width_jump neq = refl
width_jump gt = refl
width_jump lt = refl
width_jump ge = refl
width_jump le = refl

-- The run took the jump or ended behind `n` words of code, with the stack as it was; or with the
-- error.
abbrev pub Branched : Vm → ℕ → ℕ → Option Bool → Status → Type 0
Branched vm n target none s = s ≡ failed div_zero
Branched vm n target (some taken) s =
    (stack_seg : ℕ → ℕ) × (s
      ≡ running (record vm {
        instr_ptr = if taken then target else vm.instr_ptr + n;
        stack_seg = stack_seg;
      }))
    × ((k : ℕ) → k ≤ vm.stack_ptr → stack_seg k ≡ vm.stack_seg k)

-- The jump behind the operands, `x` and `y`.
run_jump :
    (c : Cmp) (vm : Vm) (target n x y : ℕ) (stack_seg : ℕ → ℕ)
    → Words ((instr_info (cmp_instr c)).opcode ∷ target ∷ []) vm.code_seg (vm.instr_ptr + n)
    → 4 * target < vm.code_size
    → stack_seg (vm.stack_ptr + 1) ≡ x
    → stack_seg (vm.stack_ptr + 1 + 1) ≡ y
    → run 1 (after vm n (vm.stack_ptr + 1 + 1) stack_seg)
      ≡ running (record vm {
        instr_ptr = if holds c x y then target else vm.instr_ptr + (n + 2);
        stack_seg = stack_seg;
      })
run_jump c vm target n x y stack_seg w inside hx hy =
    let vm' : Vm = after vm n (vm.stack_ptr + 1 + 1) stack_seg in
    let ip : vm.instr_ptr + n + 2 ≡ vm.instr_ptr + (n + 2) = omega arith in
    let sp : vm.stack_ptr + 1 + 1 - 1 ≡ vm.stack_ptr + 1 = omega arith in
    let sp' : vm.stack_ptr + 1 + 1 - 2 ≡ vm.stack_ptr = omega arith in
    let e : holds c (stack_seg (vm.stack_ptr + 1 + 1 - 1)) (stack_seg (vm.stack_ptr + 1 + 1))
        ≡ holds c x y =
      ap₂ (holds c) (ap stack_seg sp ∙ hx) hy in
    run_one vm'
      (jumped vm' target
        (holds c (stack_seg (vm.stack_ptr + 1 + 1 - 1)) (stack_seg (vm.stack_ptr + 1 + 1)))
        (vm.stack_ptr + 1 + 1 - 2))
      (step_jump c vm' target w inside (omega arith))
    ∙ rw e (rw sp' (rw ip refl))

operands_run :
    (c : Cmp) (vm : Vm) (target la lb na nb : ℕ) (ra rb : Option ℕ)
    → Words ((instr_info (cmp_instr c)).opcode ∷ target ∷ []) vm.code_seg (vm.instr_ptr + (na + nb))
    → 4 * target < vm.code_size
    → Computed vm na ra (run la vm)
    → ((stack_seg : ℕ → ℕ)
        → Computed
            (after vm na (vm.stack_ptr + 1) stack_seg)
            nb
            rb
            (run lb (after vm na (vm.stack_ptr + 1) stack_seg)))
    → Branched vm
        (na + nb + 2)
        target
        (both ra rb (λ x y. some (holds c x y)))
        (run (la + lb + 1) vm)
operands_run c vm target la lb na nb none rb w inside ca cb = pieces vm la lb ∙ rw ca refl
operands_run c vm target la lb na nb (some x) none w inside (stack_seg, e, top, below) cb =
    pieces vm la lb ∙ rw e (rw (cb stack_seg) refl)
operands_run c vm target la lb na nb (some x) (some y) w inside (stack_seg, e, top, below) cb =
    let (stack_seg', e', top', below') = cb stack_seg in
    let ip : vm.instr_ptr + na + nb ≡ vm.instr_ptr + (na + nb) = omega arith in
    let joined : run (la + lb + 1) vm
        ≡ run 1 (after vm (na + nb) (vm.stack_ptr + 1 + 1) stack_seg') =
      pieces vm la lb ∙ rw e (rw e' (rw ip refl)) in
    (
      stack_seg',
      joined
          ∙ run_jump c vm target (na + nb) x y stack_seg' w inside
              (below' (vm.stack_ptr + 1) (omega arith) ∙ top) top',
      λ k h. below' k (omega (arith, h)) ∙ below k h,
    )

-- Let the interpreter stand at the code of a comparison of two call-free expressions and a jump
-- to a target in the code segment, with the variables in the frame and room on the stack. Then as
-- many steps as the code has elements bring it to the target if the comparison holds of the
-- values of the expressions, and else behind the code, with the stack as it was and nothing else
-- changed; or to the division error, if one of the expressions divides by zero.
pub run-cond_code :
    (pos : VarRef → ℕ) (c : Cmp) (a b : Expr) (target : ℕ) (vm : Vm)
    → Words (encode (cond_code pos a b ++ code (cmp_instr c) target ∷ [])) vm.code_seg vm.instr_ptr
    → 4 * target < vm.code_size
    → InFrame pos vm.call_ptr a
    → InFrame pos vm.call_ptr b
    → 4 * (vm.stack_ptr + depth a) < vm.stack_size
    → 4 * (vm.stack_ptr + 1 + depth b) < vm.stack_size
    → Branched vm
        (code_size (cond_code pos a b ++ code (cmp_instr c) target ∷ []))
        target
        (both
          (eval (λ r. variable vm (pos r)) a)
          (eval (λ r. variable vm (pos r)) b)
          λ x y. some (holds c x y))
        (run (length (cond_code pos a b ++ code (cmp_instr c) target ∷ [])) vm)
run-cond_code pos c a b target vm w inside fa fb room_a room_b =
    let cs : List Code = code_of pos a in
    let ds : List Code = code_of pos b in
    let jump : Code = code (cmp_instr c) target in
    let (wa, wb, wj) = binary-Words cs ds jump vm.code_seg vm.instr_ptr w in
    let len : length (cs ++ ds ++ jump ∷ []) ≡ length cs + length ds + 1 =
      omega (arith, length-append (cs ++ ds) (jump ∷ []), length-append cs ds) in
    let size : code_size (cs ++ ds ++ jump ∷ []) ≡ code_size cs + code_size ds + 2 =
      omega
        (arith, code_size-append (cs ++ ds) (jump ∷ []), code_size-append cs ds, width_jump c) in
    rw size (
      rw len (
        operands_run c vm target (length cs) (length ds) (code_size cs) (code_size ds)
          (eval (λ r. variable vm (pos r)) a) (eval (λ r. variable vm (pos r)) b)
          (jump-Words c target vm.code_seg (vm.instr_ptr + (code_size cs + code_size ds)) wj) inside
          (run-code_of pos a vm wa fa room_a)
          λ stack_seg.
            run-code_of pos b (after vm (code_size cs) (vm.stack_ptr + 1) stack_seg) wb fb room_b))
