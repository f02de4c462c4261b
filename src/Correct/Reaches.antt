-- ===== src/Correct/Reaches.antt =====
-- Runs that go on, and how they are joined.
use mathlib.Core.Path.{subst, ap₂}
use bispe.Base.{
  ℕ, ◌+◌, ◌-◌, ◌*◌, ◌≤◌, ◌≡◌, refl, sym, ap, ◌∙◌, List, [], ◌∷◌, ◌++◌, ltb, if◌then◌else◌,
}
use bispe.Backend.Vm.Defs.{Vm, update}
use bispe.Backend.Vm.Exec.{running, resume, run}
use bispe.Backend.Vm.Runs.{run-add}
use bispe.Correct.Semantics.{Vars}

-- The print pointer, and the ring buffer, behind the printed words.
abbrev pub ptr_after : ℕ → List ℕ → ℕ → ℕ
ptr_after size [] p = p
ptr_after size (w ∷ ws) p = ptr_after size ws (if ltb (4 * (p + 1)) size then p + 1 else 0)

abbrev pub seg_after : ℕ → List ℕ → (ℕ → ℕ) → ℕ → ℕ → ℕ
seg_after size [] seg p = seg
seg_after size (w ∷ ws) seg p =
    seg_after size ws (update seg p w) (if ltb (4 * (p + 1)) size then p + 1 else 0)

ptr_after-append :
    (size : ℕ) (us vs : List ℕ) (p : ℕ)
    → ptr_after size (us ++ vs) p ≡ ptr_after size vs (ptr_after size us p)
ptr_after-append size [] vs p = refl
ptr_after-append size (u ∷ us) vs p =
    ptr_after-append size us vs (if ltb (4 * (p + 1)) size then p + 1 else 0)

seg_after-append :
    (size : ℕ) (us vs : List ℕ) (seg : ℕ → ℕ) (p : ℕ)
    → seg_after size (us ++ vs) seg p
      ≡ seg_after size vs (seg_after size us seg p) (ptr_after size us p)
seg_after-append size [] vs seg p = refl
seg_after-append size (u ∷ us) vs seg p =
    seg_after-append size us vs (update seg p u) (if ltb (4 * (p + 1)) size then p + 1 else 0)

abbrev pub at : Vm → ℕ → Vm
at vm n = record vm { instr_ptr = n }

-- The state at another instruction, with these segments and the words `ws` printed.
abbrev pub reached : Vm → ℕ → (ℕ → ℕ) → (ℕ → ℕ) → List ℕ → Vm
reached vm target stack_seg call_seg ws = record vm {
  instr_ptr = target;
  stack_seg = stack_seg;
  call_seg = call_seg;
  print_seg = seg_after vm.print_size ws vm.print_seg vm.print_ptr;
  print_ptr = ptr_after vm.print_size ws vm.print_ptr;
}

-- The frame of the call stack holds the variables.
abbrev pub Agrees : Vars → ℕ → (ℕ → ℕ) → Type 0
Agrees vars call_ptr call_seg = (p : ℕ) → p ≤ call_ptr → call_seg (call_ptr - p) ≡ vars p

-- From the instruction at `n`, some number of steps leads to that at `target`, with the words
-- `ws` printed, the variables `vars` in the frame, and the stack as high as it was.
pub record Reaches (vm : Vm) (n target : ℕ) (ws : List ℕ) (vars : Vars) : Type 0 where
  pub steps : ℕ
  pub stack_seg : ℕ → ℕ
  pub call_seg : ℕ → ℕ
  pub runs : run steps (at vm n) ≡ running (reached vm target stack_seg call_seg ws)
  pub agrees : Agrees vars vm.call_ptr call_seg

reached-append :
    (vm : Vm) (m n : ℕ) (s s' c c' : ℕ → ℕ) (us vs : List ℕ)
    → reached (reached vm m s c us) n s' c' vs ≡ reached vm n s' c' (us ++ vs)
reached-append vm m n s s' c c' us vs =
    ap₂
      (λ (seg : ℕ → ℕ) (p : ℕ). record vm {
        instr_ptr = n;
        stack_seg = s';
        call_seg = c';
        print_seg = seg;
        print_ptr = p;
      })
      (sym (seg_after-append vm.print_size us vs vm.print_seg vm.print_ptr))
      (sym (ptr_after-append vm.print_size us vs vm.print_ptr))

-- One run behind another.
pub Reaches-trans :
    {vm : Vm} {k m n : ℕ} {us vs ws : List ℕ} {vars vars' : Vars}
    → ws ≡ us ++ vs
    → (r : Reaches vm k m us vars) → Reaches (reached vm m r.stack_seg r.call_seg us) m n vs vars'
    → Reaches vm k n ws vars'
Reaches-trans {vm} {k} {m} {n} {us} {vs} e r q = record {
  steps = r.steps + q.steps;
  stack_seg = q.stack_seg;
  call_seg = q.call_seg;
  runs =
      run-add r.steps q.steps (at vm k)
      ∙ (ap (λ s. resume s (run q.steps)) r.runs
          ∙ (q.runs
              ∙ ap running (
                  reached-append vm m n r.stack_seg q.stack_seg r.call_seg q.call_seg us vs
                  ∙ ap (reached vm n q.stack_seg q.call_seg) (sym e))));
  agrees = q.agrees;
}

-- The same, where the places are written in other ways.
pub Reaches-then :
    {vm : Vm} {k m m' n n' : ℕ} {us vs ws : List ℕ} {vars vars' : Vars}
    → ws ≡ us ++ vs
    → m ≡ m'
    → n' ≡ n
    → Reaches vm k m us vars
    → ((stack_seg call_seg : ℕ → ℕ)
        → Agrees vars vm.call_ptr call_seg
        → Reaches (reached vm m' stack_seg call_seg us) m' n' vs vars')
    → Reaches vm k n ws vars'
Reaches-then {vm} {k} {m'} {us} {vs} {vars} {vars'} e p q r f =
    let r' : Reaches vm k m' us vars = subst (λ m. Reaches vm k m us vars) p r in
    let vm' : Vm = reached vm m' r'.stack_seg r'.call_seg us in
    Reaches-trans e r'
      (subst (λ n. Reaches vm' m' n vs vars') q (f r'.stack_seg r'.call_seg r'.agrees))

-- The same run, with the place, the words and the variables written in other ways.
pub Reaches-eq :
    {vm : Vm} {k n n' : ℕ} {ws ws' : List ℕ} {vars vars' : Vars}
    → n ≡ n'
    → ws' ≡ ws
    → vars' ≡ vars
    → Reaches vm k n ws vars
    → Reaches vm k n' ws' vars'
Reaches-eq p q e r = rw e (rw q (rw (sym p) r))
