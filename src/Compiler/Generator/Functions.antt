-- ===== src/Compiler/Generator/Functions.antt =====
-- What generate_helper adds around the body of a function.
use bispe.Base.{
  ℕ, ◌+◌, ◌≡◌, sym, ap, ◌∙◌, Bool, true, false, some, List, [], ◌∷◌, ◌++◌, append-nil, ltb,
  get_elem?, get_elem?-append, get_elem?-modify_self, if◌then◌else◌, returned, pure, ◌>>◌, arith,
}
use bispe.Compiler.Symbols.{FuncInfo, update_func}
use bispe.Compiler.Ast.Nodes.{func}
use bispe.Compiler.Instr.{InstrType, instr_prolog, instr_epilog, instr_ret, is_ret}
use bispe.Compiler.Generator.Defs.{
  Code, code, Gen, Generate, push, push_func_prolog, push_func_epilog, generate_function,
}
use bispe.Compiler.Generator.Exprs.{append_code, append_code-append, push_lem}
use bispe.Compiler.Generator.Jumps.{with_code, current_lem}

module _ {Table : Type 0} where
  abbrev pub frame_size : FuncInfo Table → ℕ
  frame_size i = i.var_count + i.max_call_size

  abbrev pub prolog_code : FuncInfo Table → List Code
  prolog_code i = if ltb 0 (frame_size i) then code instr_prolog (frame_size i) ∷ [] else []

  abbrev pub epilog_code : FuncInfo Table → List Code
  epilog_code i = if ltb 0 (frame_size i) then code instr_epilog (frame_size i) ∷ [] else []

  -- The function `f` is the current one, and its address is the size of the code so far.
  abbrev pub entered : ℕ → Gen Table → Gen Table
  entered f g = record g {
    current_func = some f;
    symbols = update_func (λ i. record i { addr = g.size }) f g.symbols;
  }

  append_code-nil : (g : Gen Table) → append_code [] g ≡ g
  append_code-nil g =
      let e : g.size + 0 ≡ g.size = omega arith in
      rw (append-nil g.elems) (ap (λ n. record g { size = n }) e)

  push_if :
      (b : Bool) (x : InstrType) (a : ℕ) (g : Gen Table)
      → (if b then push x a else pure tt) g
        ≡ returned (tt, append_code (if b then code x a ∷ [] else []) g)
  push_if true x a g = push_lem x a g
  push_if false x a g = ap (λ g. returned (tt, g)) (sym (append_code-nil g))

  push_func_prolog_lem :
      (i : FuncInfo Table) (g : Gen Table)
      → push_func_prolog i g ≡ returned (tt, append_code (prolog_code i) g)
  unfolding push_func_prolog
  push_func_prolog_lem i g = push_if (ltb 0 (frame_size i)) instr_prolog (frame_size i) g

  push_func_epilog_lem :
      (i : FuncInfo Table) (g : Gen Table)
      → push_func_epilog i g ≡ returned (tt, append_code (epilog_code i) g)
  unfolding push_func_epilog
  push_func_epilog_lem i g = push_if (ltb 0 (frame_size i)) instr_epilog (frame_size i) g

  -- The code behind the body.
  abbrev pub closing_code : FuncInfo Table → Code → List Code
  closing_code i c = if is_ret c.instr then [] else epilog_code i ++ code instr_ret 0 ∷ []

  close_lem :
      (b : Bool) (i : FuncInfo Table) (g : Gen Table)
      → (if b then pure tt else (do push_func_epilog i; push instr_ret 0)) g
        ≡ returned (tt, append_code (if b then [] else epilog_code i ++ code instr_ret 0 ∷ []) g)
  close_lem true i g = ap (λ g. returned (tt, g)) (sym (append_code-nil g))
  close_lem false i g = rw (push_func_epilog_lem i g) (
      push_lem instr_ret 0 (append_code (epilog_code i) g)
      ∙ ap (λ g. returned (tt, g)) (append_code-append (epilog_code i) (code instr_ret 0 ∷ []) g))

  -- Let `body` append code that ends with the instruction `c` when the function `f`, with the
  -- entry `i`, has been entered behind its prolog. Then generate_function appends, behind the
  -- prolog and the code of the body, the epilog and `ret` if `c` is not `ret`, and nothing if it
  -- is, wherever this last `ret` stands; prolog and epilog are left out for an empty frame.
  pub generate_function_lem :
      (f : ℕ) (i : FuncInfo Table) (body : Generate Table) (g : Gen Table) (cs : List Code)
      (c : Code) (n : ℕ)
      → get_elem? g.symbols.funcs f ≡ some i
      → (body (append_code (prolog_code i) (entered f g))
          ≡ returned (tt, with_code (entered f g) (cs ++ c ∷ []) n))
      → generate_function (func f) body g
        ≡ returned (tt, append_code (closing_code i c) (with_code (entered f g) (cs ++ c ∷ []) n))
  unfolding generate_function
  generate_function_lem f i body g cs c n e hb =
      let addressed : get_elem? (entered f g).symbols.funcs f ≡ some (record i { addr = g.size }) =
        get_elem?-modify_self (λ i. record i { addr = g.size }) g.symbols.funcs f e in
      rw addressed (
        rw (push_func_prolog_lem (record i { addr = g.size }) (entered f g)) (
          rw hb (
            rw (current_lem (entered f g) cs c n) (
              rw (get_elem?-append cs c []) (
                rw addressed (
                  close_lem (is_ret c.instr) (record i { addr = g.size })
                    (with_code (entered f g) (cs ++ c ∷ []) n)))))))
