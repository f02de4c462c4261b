-- ===== src/Correct/Jumping.antt =====
-- Single jumps and opposite conditions, and the words of conditions.
use mathlib.Core.Path.{subst}
use bispe.Base.{
  ℕ, ◌+◌, ◌*◌, ◌<◌, ◌≡◌, refl, sym, ap, ◌∙◌, Bool, not, Option, none, some, List, [], ◌∷◌, ◌++◌,
  arith, append_assoc,
}
use bispe.Compiler.Instr.{instr_jmp, instr_info, width}
use bispe.Compiler.Codebuf.Layout.{encode}
use bispe.Compiler.Generator.Defs.{Code, code}
use bispe.Compiler.Generator.Exprs.{code_size, code_size-append}
use bispe.Compiler.Generator.Jumps.{Cmp, cmp_instr, opposite}
use bispe.Compiler.Generator.Stmts.{width_cmp}
use bispe.Backend.Vm.Defs.{Vm}
use bispe.Backend.Vm.Exec.{run}
use bispe.Backend.Vm.Runs.{run_one}
use bispe.Correct.Steps.{Words, step_jmp}
use bispe.Correct.Exprs.{both}
use bispe.Correct.Jumps.{holds, holds-opposite}
use bispe.Correct.Semantics.{Vars}
use bispe.Correct.Reaches.{at, Agrees, Reaches}
use bispe.Correct.Stmts.{code-Words}

pub both-opposite :
    (c : Cmp) (x y : Option ℕ) (t : Bool)
    → both x y (λ a b. some (holds c a b)) ≡ some t
    → both x y (λ a b. some (holds (opposite c) a b)) ≡ some (not t)
both-opposite c none y t e = absurd (cc)
both-opposite c (some x) none t e = absurd (cc)
both-opposite c (some x) (some y) t e =
    let e' : holds c x y ≡ t = cc in ap some (holds-opposite c x y ∙ ap not e')

-- A run that does nothing.
pub stay :
    (vm : Vm) (n : ℕ) (vars : Vars) → Agrees vars vm.call_ptr vm.call_seg → Reaches vm n n [] vars
unfolding run
stay vm n vars agrees = record {
  steps = 0;
  stack_seg = vm.stack_seg;
  call_seg = vm.call_seg;
  runs = refl;
  agrees = agrees;
}

jmp-Words :
    (target : ℕ) (seg : ℕ → ℕ) (p : ℕ)
    → Words (encode (code instr_jmp target ∷ [])) seg p
    → Words (0x0B ∷ target ∷ []) seg p
unfolding encode instr_info
jmp-Words target seg p w = w

pub jmp_run :
    (vm : Vm) (n target : ℕ) (vars : Vars)
    → Words (encode (code instr_jmp target ∷ [])) vm.code_seg n
    → 4 * target < vm.code_size
    → Agrees vars vm.call_ptr vm.call_seg
    → Reaches vm n target [] vars
jmp_run vm n target vars w inside agrees = record {
  steps = 1;
  stack_seg = vm.stack_seg;
  call_seg = vm.call_seg;
  runs =
      run_one (at vm n) (at vm target)
        (step_jmp (at vm n) target (jmp-Words target vm.code_seg n w) inside);
  agrees = agrees;
}

pub code_size_jmp : (target : ℕ) → code_size (code instr_jmp target ∷ []) ≡ 2
unfolding width
code_size_jmp target = refl

-- The words of a condition with its jump, and of what follows.
pub cond-Words :
    (cs rest : List Code) (c : Cmp) (target : ℕ) (seg : ℕ → ℕ) (n : ℕ)
    → Words (encode (cs ++ code (cmp_instr c) target ∷ rest)) seg n
    → Words (encode (cs ++ code (cmp_instr c) target ∷ [])) seg n
      × Words (encode rest) seg (n + code_size cs + 2)
cond-Words cs rest c target seg n w =
    let jump : Code = code (cmp_instr c) target in
    let (wc, wr) =
      code-Words (cs ++ jump ∷ []) rest seg n
        (subst (λ xs. Words (encode xs) seg n) (sym (append_assoc cs (jump ∷ []) rest)) w) in
    (
      wc,
      subst (Words (encode rest) seg) (omega (arith, code_size-append cs (jump ∷ []), width_cmp c))
          wr,
    )
