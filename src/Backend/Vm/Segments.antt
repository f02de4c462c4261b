-- ===== src/Backend/Vm/Segments.antt =====
-- The interpreter's pointers stay in their segments, and it writes nowhere else:
-- backend/asm_instructions.S and backend/asm_state_macros.S.
use bispe.Base.{ℕ, ◌*◌, ◌%◌, ◌≤◌, ◌<◌, ◌≡◌}
use bispe.Backend.Vm.Defs.{Vm, Step, next, fail}
use bispe.Backend.Vm.Exec.{Status, running, halted, failed}

-- The stack is whole lines of four words, and the pointers of the operand stack, of the call stack and
-- of the printed words are in their segments.
pub record InSegments (vm : Vm) : Type 0 where
  pub lines : vm.stack_size % 16 ≡ 0
  pub stack : 4 * vm.stack_ptr < vm.stack_size
  pub call : 4 * vm.call_ptr < vm.call_size
  pub print : 4 * vm.print_ptr < vm.print_size

-- The segments are where they were, and the word `i` of each is as before if it is not in the segment.
pub record Keeps (i : ℕ) (vm vm' : Vm) : Type 0 where
  pub code : vm'.code_seg i ≡ vm.code_seg i
  pub stack_size : vm'.stack_size ≡ vm.stack_size
  pub call_size : vm'.call_size ≡ vm.call_size
  pub print_size : vm'.print_size ≡ vm.print_size
  pub stack : vm.stack_size ≤ 4 * i → vm'.stack_seg i ≡ vm.stack_seg i
  pub call : vm.call_size ≤ 4 * i → vm'.call_seg i ≡ vm.call_seg i
  pub print : vm.print_size ≤ 4 * i → vm'.print_seg i ≡ vm.print_seg i

abbrev Leaves {ℓ} : {A : Type ℓ} → (Vm → Type 0) → Step A → Type 0
Leaves P (next a vm) = P vm
Leaves P (fail e) = Unit

-- What a run has done to the segments and pointers of `vm`, where it has not failed.
abbrev pub Stays : Vm → Status → Type 0
Stays vm (running vm') = InSegments vm' × ((i : ℕ) → Keeps i vm vm')
Stays vm (halted vm') = InSegments vm' × ((i : ℕ) → Keeps i vm vm')
Stays vm (failed e) = Unit
