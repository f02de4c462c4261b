-- ===== src/Backend/Vm/Defs.antt =====
-- The state of the interpreter and one function for each instruction.
use bispe.Base.{ℕ, ◌+◌, ◌-◌, ◌*◌, ◌/◌, ◌%◌, ◌^◌, ◌&&◌, List, ltb, leb, ◌==◌, if◌then◌else◌}

pub data Error : Type 0 where
  inv_opcode jmp_bounds stack_overflow stack_underflow call_overflow call_underflow : Error
  div_zero arg_range : Error

-- The codes of backend/include/bispe_defines.h.
unfoldable pub error_code : Error → ℕ
error_code inv_opcode = 0x1
error_code jmp_bounds = 0x2
error_code stack_overflow = 0x3
error_code stack_underflow = 0x4
error_code call_overflow = 0x5
error_code call_underflow = 0x6
error_code div_zero = 0x7
error_code arg_range = 0x8

-- The pointers are word offsets from the segments' base pointers, the sizes are in bytes.
pub record Vm : Type 0 where
  pub code_seg : ℕ → ℕ
  pub code_size : ℕ
  pub stack_seg : ℕ → ℕ
  pub stack_size : ℕ
  pub call_seg : ℕ → ℕ
  pub call_size : ℕ
  pub print_seg : ℕ → ℕ
  pub print_size : ℕ
  pub argv : List ℕ
  pub instr_ptr : ℕ
  pub stack_ptr : ℕ
  pub call_ptr : ℕ
  pub print_ptr : ℕ

-- An instruction ends, or jumps to an error handler.
pub data Step {ℓ} (A : Type ℓ) : Type ℓ where
  next : A → Vm → Step A
  fail : Error → Step A

abbrev pub Exec : Type 0 → Type 0
Exec A = Vm → Step A

abbrev pub and_then : {A B : Type 0} → Step A → (A → Vm → Step B) → Step B
and_then (next a vm) f = f a vm
and_then (fail e) f = fail e

infixl 5 ◌>>=◌ ◌>>◌
abbrev pub ◌>>=◌ : {A B : Type 0} → Exec A → (A → Exec B) → Exec B
◌>>=◌ m f vm = and_then (m vm) f

abbrev pub ◌>>◌ : {B : Type 0} → Exec (Unit {0}) → Exec B → Exec B
◌>>◌ m k vm = and_then (m vm) λ a. k

abbrev pub pure : {A : Type 0} → A → Exec A
pure a vm = next a vm

abbrev pub error : {A : Type 0} → Error → Exec A
error e vm = fail e

abbrev pub update : (ℕ → ℕ) → ℕ → ℕ → ℕ → ℕ
update m a v b = if a == b then v else m b

-- The word at the instruction pointer.
abbrev pub extr_next_instr : Exec ℕ
extr_next_instr vm = next (vm.code_seg vm.instr_ptr) vm

abbrev pub set_instr_ptr : ℕ → Exec (Unit {0})
set_instr_ptr p vm = next tt (record vm { instr_ptr = p })

abbrev pub inc_instr_ptr : Exec (Unit {0})
inc_instr_ptr vm = next tt (record vm { instr_ptr = vm.instr_ptr + 1 })

-- The immediate behind the opcode.
abbrev pub immediate : Exec ℕ
immediate = do inc_instr_ptr; extr_next_instr

abbrev pub extr_stack : Exec ℕ
extr_stack vm = next (vm.stack_seg vm.stack_ptr) vm

abbrev pub ins_stack : ℕ → Exec (Unit {0})
ins_stack v vm = next tt (record vm { stack_seg = update vm.stack_seg vm.stack_ptr v })

-- The bound is checked where a line of four words is full.
abbrev pub inc_stack_ptr : Exec (Unit {0})
inc_stack_ptr vm =
    if vm.stack_ptr % 4 == 3 && leb vm.stack_size (4 * (vm.stack_ptr + 1))
    then fail stack_overflow
    else next tt (record vm { stack_ptr = vm.stack_ptr + 1 })

-- The bound is checked at the beginning of a line.
abbrev pub dec_stack_ptr : Exec (Unit {0})
dec_stack_ptr vm =
    if vm.stack_ptr == 0
    then fail stack_underflow
    else next tt (record vm { stack_ptr = vm.stack_ptr - 1 })

-- The displacement of a variable in bytes, in a 32 bit register.
abbrev pub displacement : ℕ → ℕ
displacement d = d * 4 % 2 ^ 32

-- The line of the target is checked when it is fetched; `d` is in bytes.
abbrev pub fetch_call_element : ℕ → Exec ℕ
fetch_call_element d vm =
    if ltb (4 * vm.call_ptr) d
    then fail call_underflow
    else next (vm.call_seg (vm.call_ptr - d / 4)) vm

abbrev pub save_call_element : ℕ → ℕ → Exec (Unit {0})
save_call_element d v vm =
    if ltb (4 * vm.call_ptr) d
    then fail call_underflow
    else next tt (record vm { call_seg = update vm.call_seg (vm.call_ptr - d / 4) v })

abbrev pub inc_call_ptr : ℕ → Exec (Unit {0})
inc_call_ptr d vm =
    if leb vm.call_size (4 * vm.call_ptr + d)
    then fail call_overflow
    else next tt (record vm { call_ptr = vm.call_ptr + d / 4 })

abbrev pub dec_call_ptr : ℕ → Exec (Unit {0})
dec_call_ptr d vm =
    if ltb (4 * vm.call_ptr) d
    then fail call_underflow
    else next tt (record vm { call_ptr = vm.call_ptr - d / 4 })

-- The target, a word offset, is in the code segment.
abbrev pub calc_jmp_target : ℕ → Exec ℕ
calc_jmp_target t vm = if leb vm.code_size (4 * t) then fail jmp_bounds else next t vm
