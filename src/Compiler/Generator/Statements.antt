-- ===== src/Compiler/Generator/Statements.antt =====
-- What generate_helper makes of conditions, branches and while-loops.
use mathlib.Core.Path.{subst}
use bispe.Base.{ℕ, ◌+◌, ◌≡◌, refl, sym, ap, ◌∙◌, false, List, [], ◌∷◌, ◌++◌, append_assoc, returned}
use bispe.Compiler.Symbols.{Hashed, VarRef}
use bispe.Compiler.Ast.Nodes.{
  ast_condition, ast_boolop, ast_boolop_leaf, ast_branch, ast_loop, Val, type, Node, null, node,
  leaf,
}
use bispe.Compiler.Instr.{instr_jmp, neg_jmp_instr}
use bispe.Compiler.Generator.Defs.{Code, code, Gen, generate_helper, generate_branch, loop_type}
use bispe.Compiler.Generator.Exprs.{
  Expr, Positions, append_code, code_of, code_size, append_code-append, generate_helper-expr,
}
use bispe.Compiler.Generator.Jumps.{
  Cmp, eqeq, neq, gt, lt, ge, le, cmp_token, cmp_instr, opposite, IsCond, is_cond, with_code,
  boolop_leaf_lem, generate_branch-if, generate_forward_lem,
}

-- The code of the operands of a condition, in front of its jump.
abbrev pub cond_code : (VarRef → ℕ) → Expr → Expr → List Code
cond_code pos a b = code_of pos a ++ code_of pos b

module _ {Table : Type 0} (h : Hashed Table) where
  pub generate_helper-cond :
      {n : Node} {c : Cmp} {a b : Expr}
      → IsCond n c a b
      → (pos : VarRef → ℕ) (g : Gen Table) → Positions g.symbols pos a
      → Positions g.symbols pos b
      → generate_helper h n g
        ≡ returned (tt, append_code (cond_code pos a b ++ code (cmp_instr c) 0 ∷ []) g)
  unfolding generate_helper
  generate_helper-cond (is_cond {a} {b} {w} {c} i j) pos g p q =
      let g' = append_code (code_of pos a) g in
      let jump = code (cmp_instr c) 0 ∷ [] in
      let joined =
        ap (append_code jump) (append_code-append (code_of pos a) (code_of pos b) g)
        ∙ append_code-append (code_of pos a ++ code_of pos b) jump g in
      rw (generate_helper-expr h i pos g p) (
        rw (generate_helper-expr h j pos g' q) (
          rw (boolop_leaf_lem h c w (append_code (code_of pos b) g'))
            (ap (λ g. returned (tt, g)) joined)))

  pub opposite_lem : (c : Cmp) → neg_jmp_instr (cmp_instr c) ≡ cmp_instr (opposite c)
  unfolding neg_jmp_instr
  opposite_lem eqeq = refl
  opposite_lem neq = refl
  opposite_lem gt = refl
  opposite_lem lt = refl
  opposite_lem ge = refl
  opposite_lem le = refl

  -- Let generate_helper make `body` of the second child of a branch whose condition is a
  -- comparison of call-free expressions. Of a branch without an else branch it makes the operands
  -- of the condition, a jump by the opposite comparison, and `body`; the target of the jump is the
  -- end of this code.
  pub generate_helper-branch :
      {l : Node} {c : Cmp} {a b : Expr}
      → IsCond l c a b
      → (pos : VarRef → ℕ) (g : Gen Table) (v : Val) (middle : Node) (body : List Code) (n : ℕ)
      → Positions g.symbols pos a
      → Positions g.symbols pos b
      → generate_helper h middle (
          with_code g
            ((g.elems ++ cond_code pos a b) ++ code (cmp_instr (opposite c)) 0 ∷ [])
            (g.size + code_size (cond_code pos a b ++ code (cmp_instr c) 0 ∷ [])))
        ≡ returned (
          tt,
          with_code g ((g.elems ++ cond_code pos a b) ++ code (cmp_instr (opposite c)) 0 ∷ body) n,
        )
      → generate_helper h (node ast_branch v l middle null) g
        ≡ returned (
          tt,
          with_code g ((g.elems ++ cond_code pos a b) ++ code (cmp_instr (opposite c)) n ∷ body) n,
        )
  unfolding generate_helper
  generate_helper-branch {l} {c} {a} {b} i pos g v middle body n p q hm =
      let cs : List Code = g.elems ++ cond_code pos a b in
      let m : ℕ = g.size + code_size (cond_code pos a b ++ code (cmp_instr c) 0 ∷ []) in
      let e : neg_jmp_instr (cmp_instr c) ≡ cmp_instr (opposite c) = opposite_lem c in
      let hl : generate_helper h l g
          ≡ returned (tt, with_code g (cs ++ code (cmp_instr c) 0 ∷ []) m) =
        generate_helper-cond i pos g p q
        ∙ ap (λ es. returned (tt, with_code g es m))
            (sym (append_assoc g.elems (cond_code pos a b) (code (cmp_instr c) 0 ∷ []))) in
      subst
        (λ j.
          generate_branch (generate_helper h l) (generate_helper h middle) false
            (generate_helper h null) g
          ≡ returned (tt, with_code g (cs ++ code j n ∷ body) n))
        e
        (generate_branch-if (generate_helper h l) (generate_helper h middle)
          (generate_helper h null) g cs body (cmp_instr c) m n hl
          (subst
            (λ j.
              generate_helper h middle (with_code g (cs ++ code j 0 ∷ []) m)
              ≡ returned (tt, with_code g (cs ++ code j 0 ∷ body) n))
            (sym e) hm))

  -- Let generate_helper make `body` of the second child of a while-loop whose condition is a
  -- comparison of call-free expressions. Of the loop it makes a jump, `body`, the operands of the
  -- condition, and a jump by the comparison; the target of the first jump is the code of the
  -- condition, that of the second one is `body`.
  pub generate_helper-while :
      {l : Node} {c : Cmp} {a b : Expr}
      → IsCond l c a b
      → (pos : VarRef → ℕ) (g : Gen Table) (v : Val) (middle : Node) (body : List Code) (m : ℕ)
      → Positions g.symbols pos a
      → Positions g.symbols pos b
      → generate_helper h middle (with_code g (g.elems ++ code instr_jmp 0 ∷ []) (g.size + 2))
        ≡ returned (tt, with_code g (g.elems ++ code instr_jmp 0 ∷ body) m)
      → generate_helper h (node ast_loop v l middle null) g
        ≡ returned (
          tt,
          with_code g
              ((g.elems ++ code instr_jmp m ∷ body)
                ++ cond_code pos a b
                ++ code (cmp_instr c) (g.size + 2) ∷ [])
              (m + code_size (cond_code pos a b ++ code (cmp_instr c) 0 ∷ [])),
        )
  unfolding generate_helper loop_type
  generate_helper-while (is_cond {l} {r} {a} {b} {v = u} {w} {c} i j) pos g v middle body m p q hm =
      let cs : List Code = cond_code pos a b in
      let es : List Code = g.elems ++ code instr_jmp m ∷ body in
      let n : ℕ = m + code_size (cs ++ code (cmp_instr c) 0 ∷ []) in
      let condition : Node =
        node ast_condition u l
          (node ast_boolop w (leaf ast_boolop_leaf (type (cmp_token c))) null null) r in
      generate_forward_lem (generate_helper h middle) (generate_helper h condition) g body cs
        (cmp_instr c) m n hm
        (generate_helper-cond (is_cond {v = u} {w = w} i j) pos (with_code g es m) p q
          ∙ ap (λ xs. returned (tt, with_code g xs n))
              (sym (append_assoc es cs (code (cmp_instr c) 0 ∷ []))))
