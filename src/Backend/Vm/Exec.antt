-- ===== src/Backend/Vm/Exec.antt =====
-- The instructions, their dispatch by opcode, and runs of the interpreter.
use bispe.Base.{
  ℕ, zero, suc, ◌+◌, ◌-◌, ◌*◌, ◌/◌, ◌%◌, ◌^◌, Bool, not, none, some, ltb, ◌==◌, if◌then◌else◌,
  get_elem?,
}
use bispe.Backend.Vm.Defs.{
  Error, inv_opcode, div_zero, arg_range, Vm, Step, next, fail, Exec, ◌>>=◌, ◌>>◌, pure, error,
  update, extr_next_instr, set_instr_ptr, inc_instr_ptr, immediate, extr_stack, ins_stack,
  inc_stack_ptr, dec_stack_ptr, displacement, fetch_call_element, save_call_element, inc_call_ptr,
  dec_call_ptr, calc_jmp_target,
}

-- Go on with the instruction at the instruction pointer, or halt.
pub data Flow : Type 0 where
  more halt : Flow

-- `goto_next_instr`
abbrev pub goto_next_instr : Exec Flow
goto_next_instr = do inc_instr_ptr; pure more

-- The order of two 32 bit words as signed numbers.
abbrev pub signed_lt : ℕ → ℕ → Bool
signed_lt a b = ltb ((a + 2 ^ 31) % 2 ^ 32) ((b + 2 ^ 31) % 2 ^ 32)

unfoldable pub instr_push : Exec Flow
instr_push = do v ← immediate; inc_stack_ptr; ins_stack v; goto_next_instr

-- The ring buffer of printed words.
abbrev pub print_word : ℕ → Exec (Unit {0})
print_word v vm = next tt (record vm {
  print_seg = update vm.print_seg vm.print_ptr v;
  print_ptr = if ltb (4 * (vm.print_ptr + 1)) vm.print_size then vm.print_ptr + 1 else 0;
})

unfoldable pub instr_print : Exec Flow
instr_print = do v ← extr_stack; dec_stack_ptr; print_word v; goto_next_instr

unfoldable pub instr_load : Exec Flow
instr_load = do
  d ← immediate
  v ← fetch_call_element (displacement d)
  inc_stack_ptr
  ins_stack v
  goto_next_instr

unfoldable pub instr_store : Exec Flow
instr_store = do
  d ← immediate
  v ← extr_stack
  dec_stack_ptr
  save_call_element (displacement d) v
  goto_next_instr

-- The top word `b` and the word `a` below it make way for `op a b`.
abbrev pub arithmetic : (ℕ → ℕ → ℕ) → Exec Flow
arithmetic op = do
  b ← extr_stack
  dec_stack_ptr
  a ← extr_stack
  ins_stack (op a b)
  goto_next_instr

unfoldable pub instr_add : Exec Flow
instr_add = arithmetic λ a b. (a + b) % 2 ^ 32

unfoldable pub instr_sub : Exec Flow
instr_sub = arithmetic λ a b. (a + 2 ^ 32 - b) % 2 ^ 32

unfoldable pub instr_mul : Exec Flow
instr_mul = arithmetic λ a b. a * b % 2 ^ 32

-- `div` is the unsigned division.
abbrev pub division : (ℕ → ℕ → ℕ) → Exec Flow
division op = do
  b ← extr_stack
  dec_stack_ptr
  if b == 0 then error div_zero else (do a ← extr_stack; ins_stack (op a b); goto_next_instr)

unfoldable pub instr_div : Exec Flow
instr_div = division λ a b. a / b

unfoldable pub instr_mod : Exec Flow
instr_mod = division λ a b. a % b

unfoldable pub instr_jmp : Exec Flow
instr_jmp = do d ← immediate; t ← calc_jmp_target d; set_instr_ptr t; pure more

-- The word below the top is compared with the top.
abbrev pub compare_jump : (ℕ → ℕ → Bool) → Exec Flow
compare_jump test = do
  b ← extr_stack
  dec_stack_ptr
  a ← extr_stack
  dec_stack_ptr
  if test a b then instr_jmp else (do inc_instr_ptr; goto_next_instr)

unfoldable pub instr_jeq : Exec Flow
unfolding instr_jmp
instr_jeq = compare_jump λ a b. a == b

unfoldable pub instr_jne : Exec Flow
unfolding instr_jmp
instr_jne = compare_jump λ a b. not (a == b)

unfoldable pub instr_jl : Exec Flow
unfolding instr_jmp
instr_jl = compare_jump λ a b. signed_lt a b

unfoldable pub instr_jle : Exec Flow
unfolding instr_jmp
instr_jle = compare_jump λ a b. not (signed_lt b a)

unfoldable pub instr_jg : Exec Flow
unfolding instr_jmp
instr_jg = compare_jump λ a b. signed_lt b a

unfoldable pub instr_jge : Exec Flow
unfolding instr_jmp
instr_jge = compare_jump λ a b. not (signed_lt a b)

unfoldable pub instr_call : Exec Flow
instr_call = do
  d ← immediate
  t ← calc_jmp_target d
  ret ← λ vm. next (vm.instr_ptr + 1) vm
  inc_call_ptr 4
  save_call_element 0 ret
  set_instr_ptr t
  pure more

unfoldable pub instr_ret : Exec Flow
instr_ret = do
  ret ← fetch_call_element 0
  t ← calc_jmp_target ret
  dec_call_ptr 4
  set_instr_ptr t
  pure more

unfoldable pub instr_prolog : Exec Flow
instr_prolog = do d ← immediate; inc_call_ptr (displacement d); goto_next_instr

unfoldable pub instr_epilog : Exec Flow
instr_epilog = do d ← immediate; dec_call_ptr (displacement d); goto_next_instr

-- The program argument at a position, if there is one.
abbrev pub fetch_arg : ℕ → Exec ℕ
fetch_arg d vm = elim (get_elem? vm.argv d) [ none ↦ fail arg_range | some v ↦ next v vm ]

unfoldable pub instr_argload : Exec Flow
instr_argload = do
  d ← immediate
  v ← fetch_arg d
  save_call_element (displacement d) v
  goto_next_instr

-- The table of the instructions by opcode, above `maximum_opcode` an error.
unfoldable pub jmp_through_table : ℕ → Exec Flow
unfolding instr_push instr_print instr_load instr_store instr_add instr_sub instr_mul instr_div
    instr_mod instr_jmp instr_jeq instr_jne instr_jl instr_jle instr_jg instr_jge instr_call
    instr_ret instr_prolog instr_epilog instr_argload
jmp_through_table op =
    if op == 0x00
    then goto_next_instr
    else if op == 0x01
    then pure halt
    else if op == 0x02
    then instr_push
    else if op == 0x03
    then instr_print
    else if op == 0x04
    then instr_load
    else if op == 0x05
    then instr_store
    else if op == 0x06
    then instr_add
    else if op == 0x07
    then instr_sub
    else if op == 0x08
    then instr_mul
    else if op == 0x09
    then instr_div
    else if op == 0x0A
    then instr_mod
    else if op == 0x0B
    then instr_jmp
    else if op == 0x0C
    then instr_jeq
    else if op == 0x0D
    then instr_jne
    else if op == 0x0E
    then instr_jl
    else if op == 0x0F
    then instr_jle
    else if op == 0x10
    then instr_jg
    else if op == 0x11
    then instr_jge
    else if op == 0x12
    then instr_call
    else if op == 0x13
    then instr_ret
    else if op == 0x14
    then instr_prolog
    else if op == 0x15
    then instr_epilog
    else if op == 0x16
    then instr_argload
    else error inv_opcode

unfoldable pub step : Exec Flow
unfolding jmp_through_table
step = do op ← extr_next_instr; jmp_through_table op

-- Where a run stands: in front of an instruction, at its end, or behind an error.
pub data Status : Type 0 where
  running : Vm → Status
  halted : Vm → Status
  failed : Error → Status

abbrev pub status : Step Flow → Status
status (next more vm) = running vm
status (next halt vm) = halted vm
status (fail e) = failed e

abbrev pub resume : Status → (Vm → Status) → Status
resume (running vm) k = k vm
resume (halted vm) k = halted vm
resume (failed e) k = failed e

-- At most `n` instructions, as one cycle with `bispe_instr_per_cycle` equal to `n` runs.
unfoldable pub run : ℕ → Vm → Status
run zero vm = running vm
run (suc n) vm = resume (status (step vm)) (run n)
