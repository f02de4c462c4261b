-- ===== src/Correct/Steps.antt =====
-- Single instructions of generated code.
use mathlib.Core.Path.{subst}
use bispe.Base.{
  ℕ, suc, ◌+◌, ◌-◌, ◌*◌, ◌/◌, ◌%◌, ◌^◌, ◌≤◌, ◌<◌, ◌≡◌, ltb, ◌==◌, if◌then◌else◌, Option, none, some,
  List, [], ◌∷◌, ◌++◌, arith, length,
}
use bispe.Compiler.Instr.{instr_info}
use bispe.Compiler.Generator.Exprs.{Op, plus, minus, star, slash, percent, op_instr}
use bispe.Backend.Vm.Defs.{Vm, Step, next, fail, div_zero, update, displacement}
use bispe.Backend.Vm.Exec.{Flow, more, step}

-- The words of the code segment from a position on.
abbrev pub Words : List ℕ → (ℕ → ℕ) → ℕ → Type 0
Words [] seg p = Unit
Words (w ∷ ws) seg p = (seg p ≡ w) × Words ws seg (p + 1)

pub Words-append :
    (xs ys : List ℕ) (seg : ℕ → ℕ) (p : ℕ)
    → Words (xs ++ ys) seg p
    → Words xs seg p × Words ys seg (p + length xs)
Words-append [] ys seg p h = let e : p ≡ p + 0 = omega arith in (tt, subst (Words ys seg) e h)
Words-append (x ∷ xs) ys seg p (e, h) =
    let (hx, hy) = Words-append xs ys seg (p + 1) h in
    let a : p + 1 + length xs ≡ p + suc (length xs) = omega arith in
    ((e, hx), subst (Words ys seg) a hy)

-- The state behind an instruction of a number of words.
abbrev pub after : Vm → ℕ → ℕ → (ℕ → ℕ) → Vm
after vm width stack_ptr stack_seg = record vm {
  instr_ptr = vm.instr_ptr + width;
  stack_ptr = stack_ptr;
  stack_seg = stack_seg;
}

pub step_push :
    (vm : Vm) (n : ℕ)
    → Words (0x02 ∷ n ∷ []) vm.code_seg vm.instr_ptr
    → 4 * (vm.stack_ptr + 1) < vm.stack_size
    → step vm ≡ next more (after vm 2 (vm.stack_ptr + 1) (update vm.stack_seg (vm.stack_ptr + 1) n))
unfolding step
step_push vm n (op, (arg, u)) room = rw op (ground (arith, arg, room))

-- The word of a variable that is `pos` words below the top of the call stack.
abbrev pub variable : Vm → ℕ → ℕ
variable vm pos = vm.call_seg (vm.call_ptr - pos)

pub step_load :
    (vm : Vm) (pos : ℕ)
    → Words (0x04 ∷ pos ∷ []) vm.code_seg vm.instr_ptr
    → pos ≤ vm.call_ptr
    → pos < 2 ^ 30
    → 4 * (vm.stack_ptr + 1) < vm.stack_size
    → step vm
      ≡ next more
          (after vm 2 (vm.stack_ptr + 1) (update vm.stack_seg (vm.stack_ptr + 1) (variable vm pos)))
unfolding step
step_load vm pos (op, (arg, u)) frame small room =
    let e : displacement pos ≡ 4 * pos = omega (arith, small) in
    let q : 4 * pos / 4 ≡ pos = omega arith in
    rw op (rw arg (rw e (rw q (ground (arith, frame, room)))))

-- The value of an operator on two words, as unsigned arithmetic modulo 2 ^ 32; there is none
-- where it divides by zero.
abbrev pub op_value : Op → ℕ → ℕ → Option ℕ
op_value plus a b = some ((a + b) % 2 ^ 32)
op_value minus a b = some ((a + 2 ^ 32 - b) % 2 ^ 32)
op_value star a b = some (a * b % 2 ^ 32)
op_value slash a b = if b == 0 then none else some (a / b)
op_value percent a b = if b == 0 then none else some (a % b)

abbrev pub op_step : Vm → Option ℕ → Step Flow
op_step vm none = fail div_zero
op_step vm (some v) =
    next more (after vm 1 (vm.stack_ptr - 1) (update vm.stack_seg (vm.stack_ptr - 1) v))

pub step_op :
    (o : Op) (vm : Vm)
    → vm.code_seg vm.instr_ptr ≡ (instr_info (op_instr o)).opcode
    → 0 < vm.stack_ptr
    → step vm
      ≡ op_step vm (op_value o (vm.stack_seg (vm.stack_ptr - 1)) (vm.stack_seg vm.stack_ptr))
unfolding step instr_info
step_op plus vm op above = rw op (ground (arith, above))
step_op minus vm op above = rw op (ground (arith, above))
step_op star vm op above = rw op (ground (arith, above))
step_op slash vm op above = rw op (ground (arith, above))
step_op percent vm op above = rw op (ground (arith, above))

pub step_store :
    (vm : Vm) (pos : ℕ)
    → Words (0x05 ∷ pos ∷ []) vm.code_seg vm.instr_ptr
    → pos ≤ vm.call_ptr
    → pos < 2 ^ 30
    → 0 < vm.stack_ptr
    → step vm
      ≡ next more (record vm {
        instr_ptr = vm.instr_ptr + 2;
        stack_ptr = vm.stack_ptr - 1;
        call_seg = update vm.call_seg (vm.call_ptr - pos) (vm.stack_seg vm.stack_ptr);
      })
unfolding step
step_store vm pos (op, (arg, u)) frame small above =
    let e : displacement pos ≡ 4 * pos = omega (arith, small) in
    let q : 4 * pos / 4 ≡ pos = omega arith in
    rw op (rw arg (rw e (ground (arith, frame, above, q))))

pub step_print :
    (vm : Vm)
    → vm.code_seg vm.instr_ptr ≡ 0x03
    → 0 < vm.stack_ptr
    → step vm
      ≡ next more (record vm {
        instr_ptr = vm.instr_ptr + 1;
        stack_ptr = vm.stack_ptr - 1;
        print_seg = update vm.print_seg vm.print_ptr (vm.stack_seg vm.stack_ptr);
        print_ptr = if ltb (4 * (vm.print_ptr + 1)) vm.print_size then vm.print_ptr + 1 else 0;
      })
unfolding step
step_print vm op above = rw op (ground (arith, above))

pub step_jmp :
    (vm : Vm) (target : ℕ)
    → Words (0x0B ∷ target ∷ []) vm.code_seg vm.instr_ptr
    → 4 * target < vm.code_size
    → step vm ≡ next more (record vm { instr_ptr = target })
unfolding step
step_jmp vm target (op, (arg, u)) inside = rw op (rw arg (ground (arith, inside)))
