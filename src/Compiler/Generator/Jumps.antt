-- ===== src/Compiler/Generator/Jumps.antt =====
-- Conditions, branches and while-loops: the jumps and their back-patched targets.
use bispe.Base.{
  ℕ, ◌+◌, ◌-◌, ◌≡◌, refl, sym, ap, ◌∙◌, true, false, List, [], ◌∷◌, ◌++◌, append_assoc, returned,
  arith, length, length-append, modify-append, get_elem?-append,
}
use bispe.Compiler.Token.{TokenType, tok_eqeq, tok_neq, tok_gt, tok_lt, tok_ge, tok_le}
use bispe.Compiler.Symbols.{Hashed}
use bispe.Compiler.Ast.Nodes.{
  ast_condition, ast_boolop, ast_boolop_leaf, Val, type, Node, null, node, leaf,
}
use bispe.Compiler.Instr.{
  InstrType, instr_jmp, instr_jeq, instr_jne, instr_jl, instr_jle, instr_jg, instr_jge, width,
  neg_jmp_instr, boolop_to_jmp_instr,
}
use bispe.Compiler.Generator.Defs.{
  Code, code, Gen, Generate, current, set_arg, generate_helper, generate_branch, generate_forward,
}
use bispe.Compiler.Generator.Exprs.{Expr, IsExpr, append_code, push_lem}

-- The comparisons.
pub data Cmp : Type 0 where
  eqeq neq gt lt ge le : Cmp

abbrev pub cmp_token : Cmp → TokenType
cmp_token eqeq = tok_eqeq
cmp_token neq = tok_neq
cmp_token gt = tok_gt
cmp_token lt = tok_lt
cmp_token ge = tok_ge
cmp_token le = tok_le

abbrev pub cmp_instr : Cmp → InstrType
cmp_instr eqeq = instr_jeq
cmp_instr neq = instr_jne
cmp_instr gt = instr_jg
cmp_instr lt = instr_jl
cmp_instr ge = instr_jge
cmp_instr le = instr_jle

-- The opposite comparison.
abbrev pub opposite : Cmp → Cmp
opposite eqeq = neq
opposite neq = eqeq
opposite gt = le
opposite lt = ge
opposite ge = lt
opposite le = gt

-- The trees of a condition.
pub data IsCond : Node → Cmp → Expr → Expr → Type 0 where
  is_cond :
      {l r : Node} {a b : Expr} {v w : Val} {c : Cmp}
      → IsExpr l a
      → IsExpr r b
      → IsCond
          (node ast_condition v l
            (node ast_boolop w (leaf ast_boolop_leaf (type (cmp_token c))) null null)
            r)
          c
          a
          b

module _ {Table : Type 0} where
  -- The generator with these elements and this size.
  abbrev pub with_code : Gen Table → List Code → ℕ → Gen Table
  with_code g es n = record g { elems = es; size = n }

  pub current_lem :
      (g : Gen Table) (xs : List Code) (c : Code) (n : ℕ)
      → current (with_code g (xs ++ c ∷ []) n) ≡ returned (length xs, with_code g (xs ++ c ∷ []) n)
  current_lem g [] c n = refl
  current_lem g (x ∷ xs) c n =
      let e : length (x ∷ (xs ++ c ∷ [])) - 1 ≡ length (x ∷ xs) =
        omega (arith, length-append xs (c ∷ [])) in
      ap (λ k. returned (k, with_code g (x ∷ (xs ++ c ∷ [])) n)) e

  set_arg_lem :
      (g : Gen Table) (xs ys : List Code) (c : Code) (a n : ℕ)
      → set_arg (length xs) a (with_code g (xs ++ c ∷ ys) n)
        ≡ returned (tt, with_code g (xs ++ code c.instr a ∷ ys) n)
  set_arg_lem g xs ys c a n =
      ap (λ es. returned (tt, with_code g es n)) (modify-append (λ c. record c { arg = a }) xs c ys)

  pub boolop_leaf_lem :
      (h : Hashed Table) (c : Cmp) (w : Val) (g : Gen Table)
      → generate_helper h
          (node ast_boolop w (leaf ast_boolop_leaf (type (cmp_token c))) null null)
          g
        ≡ returned (tt, append_code (code (cmp_instr c) 0 ∷ []) g)
  unfolding generate_helper boolop_to_jmp_instr
  boolop_leaf_lem h eqeq w g = rw (push_lem instr_jeq 0 g) refl
  boolop_leaf_lem h neq w g = rw (push_lem instr_jne 0 g) refl
  boolop_leaf_lem h gt w g = rw (push_lem instr_jg 0 g) refl
  boolop_leaf_lem h lt w g = rw (push_lem instr_jl 0 g) refl
  boolop_leaf_lem h ge w g = rw (push_lem instr_jge 0 g) refl
  boolop_leaf_lem h le w g = rw (push_lem instr_jle 0 g) refl

  -- A branch without an else branch: the negated jump goes to the end.
  pub generate_branch-if :
      (left middle right : Generate Table) (g : Gen Table) (cs body : List Code) (i : InstrType)
      (m n : ℕ)
      → left g ≡ returned (tt, with_code g (cs ++ code i 0 ∷ []) m)
      → middle (with_code g (cs ++ code (neg_jmp_instr i) 0 ∷ []) m)
        ≡ returned (tt, with_code g (cs ++ code (neg_jmp_instr i) 0 ∷ body) n)
      → generate_branch left middle false right g
        ≡ returned (tt, with_code g (cs ++ code (neg_jmp_instr i) n ∷ body) n)
  unfolding generate_branch
  generate_branch-if left middle right g cs body i m n hl hm = rw hl (
      rw (current_lem g cs (code i 0) m) (
        rw (get_elem?-append cs (code i 0) []) (
          rw (modify-append (λ c. record c { instr = neg_jmp_instr i }) cs (code i 0) [])
            (rw hm (set_arg_lem g cs body (code (neg_jmp_instr i) 0) n n)))))

  -- With an else branch: behind the first branch stands a jump over the second one, and the
  -- negated jump goes behind that.
  pub generate_branch-else :
      (left middle right : Generate Table) (g : Gen Table) (cs body others : List Code)
      (i : InstrType) (m n k : ℕ)
      → left g ≡ returned (tt, with_code g (cs ++ code i 0 ∷ []) m)
      → middle (with_code g (cs ++ code (neg_jmp_instr i) 0 ∷ []) m)
        ≡ returned (tt, with_code g (cs ++ code (neg_jmp_instr i) 0 ∷ body) n)
      → right (
          with_code g
            (cs ++ code (neg_jmp_instr i) (n + 2) ∷ (body ++ code instr_jmp 0 ∷ []))
            (n + 2))
        ≡ returned (
          tt,
          with_code g
              (cs ++ code (neg_jmp_instr i) (n + 2) ∷ (body ++ code instr_jmp 0 ∷ others))
              k,
        )
      → generate_branch left middle true right g
        ≡ returned (
          tt,
          with_code g
              (cs ++ code (neg_jmp_instr i) (n + 2) ∷ (body ++ code instr_jmp k ∷ others))
              k,
        )
  unfolding generate_branch width
  generate_branch-else left middle right g cs body others i m n k hl hm hr =
      let c : ℕ → Code = code (neg_jmp_instr i) in
      let jump : ℕ → List Code = λ a. code instr_jmp a ∷ [] in
      let q : (a b : ℕ) (ys : List Code)
          → (cs ++ c a ∷ body) ++ code instr_jmp b ∷ ys
            ≡ cs ++ c a ∷ (body ++ code instr_jmp b ∷ ys) =
        λ a b ys. append_assoc cs (c a ∷ body) (code instr_jmp b ∷ ys) in
      let len : length (cs ++ c 0 ∷ body) ≡ length (cs ++ c (n + 2) ∷ body) =
        length-append cs (c 0 ∷ body) ∙ sym (length-append cs (c (n + 2) ∷ body)) in
      rw hl (
        rw (current_lem g cs (code i 0) m) (
          rw (get_elem?-append cs (code i 0) []) (
            rw (modify-append (λ c. record c { instr = neg_jmp_instr i }) cs (code i 0) []) (
              rw hm (
                rw (q 0 0 []) (
                  rw (modify-append (λ c. record c { arg = n + 2 }) cs (c 0) (body ++ jump 0)) (
                    rw hr (
                      rw len (
                        rw (sym (q (n + 2) 0 others)) (
                          rw (sym (q (n + 2) k others)) (
                            set_arg_lem g (cs ++ c (n + 2) ∷ body) others (code instr_jmp 0) k
                              k)))))))))))

  -- A loop that tests at its end: the first jump goes to the condition, whose jump goes back
  -- behind the first one.
  pub generate_forward_lem :
      (body condition : Generate Table) (g : Gen Table) (block cs : List Code) (i : InstrType)
      (m n : ℕ)
      → body (with_code g (g.elems ++ code instr_jmp 0 ∷ []) (g.size + 2))
        ≡ returned (tt, with_code g (g.elems ++ code instr_jmp 0 ∷ block) m)
      → condition (with_code g (g.elems ++ code instr_jmp m ∷ block) m)
        ≡ returned
            (tt, with_code g ((g.elems ++ code instr_jmp m ∷ block) ++ cs ++ code i 0 ∷ []) n)
      → generate_forward body condition g
        ≡ returned (
          tt,
          with_code g ((g.elems ++ code instr_jmp m ∷ block) ++ cs ++ code i (g.size + 2) ∷ []) n,
        )
  unfolding generate_forward width
  generate_forward_lem body condition g block cs i m n hb hc =
      let es : List Code = g.elems ++ code instr_jmp m ∷ block in
      rw hb (
        rw (modify-append (λ c. record c { arg = m }) g.elems (code instr_jmp 0) block) (
          rw hc (
            rw (current_lem g (es ++ cs) (code i 0) n)
              (set_arg_lem g (es ++ cs) [] (code i 0) (g.size + 2) n))))
