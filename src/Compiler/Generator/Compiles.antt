-- ===== src/Compiler/Generator/Compiles.antt =====
-- What generate_helper makes of statements.
use mathlib.Core.Path.{ap₂}
use bispe.Base.{
  ℕ, ◌+◌, ◌≡◌, refl, sym, ap, ◌∙◌, false, List, [], ◌∷◌, ◌++◌, append_assoc, append-nil, returned,
  Result, arith,
}
use bispe.Compiler.Symbols.{Hashed, VarRef}
use bispe.Compiler.Ast.Nodes.{ast_branch, ast_loop, Val, Node, null, node}
use bispe.Compiler.Ast.Register.{is_null}
use bispe.Compiler.Instr.{InstrType, instr_jmp, instr_store, instr_print, width, neg_jmp_instr}
use bispe.Compiler.Generator.Defs.{Code, code, Gen, generate_helper, loop_type}
use bispe.Compiler.Generator.Exprs.{
  Expr, IsExpr, is_literal, is_identifier, is_expression1, is_expression, is_binary, Positions,
  append_code, code_of, code_size, code_size-append, push_lem, generate_helper-expr,
}
use bispe.Compiler.Generator.Jumps.{
  Cmp, cmp_instr, IsCond, with_code, generate_branch-if, generate_branch-else,
}
use bispe.Compiler.Generator.Statements.{
  cond_code, generate_helper-cond, opposite_lem, generate_helper-while,
}
use bispe.Compiler.Generator.Stmts.{
  Stmt, if_then, if_else, while, IsStmt, is_empty, is_declaration, is_definition, is_assign,
  is_print, is_statement, is_sequence, is_if_then, is_if_else, is_while, StmtPositions, stmt_code,
  stmt_size, width_cmp,
}

IsExpr-is_null : {n : Node} {e : Expr} → IsExpr n e → is_null n ≡ false
unfolding is_null
IsExpr-is_null is_literal = refl
IsExpr-is_null is_identifier = refl
IsExpr-is_null (is_expression1 i) = refl
IsExpr-is_null (is_expression i) = refl
IsExpr-is_null (is_binary i j) = refl

IsStmt-is_null : {n : Node} {s : Stmt} → IsStmt n s → is_null n ≡ false
unfolding is_null
IsStmt-is_null is_empty = refl
IsStmt-is_null is_declaration = refl
IsStmt-is_null (is_definition i) = refl
IsStmt-is_null (is_assign i) = refl
IsStmt-is_null (is_print i) = refl
IsStmt-is_null (is_statement i) = refl
IsStmt-is_null (is_sequence i j) = refl
IsStmt-is_null (is_if_then i j) = refl
IsStmt-is_null (is_if_else i j k) = refl
IsStmt-is_null (is_while i j) = refl

module _ {Table : Type 0} where
  -- The end of a routine that has brought the code to `es` and the size to `n`.
  abbrev pub done : Gen Table → List Code → ℕ → Result (Unit {0} × Gen Table)
  done g es n = returned (tt, with_code g es n)

  done_eq :
      (g : Gen Table) {es es' : List Code} {n n' : ℕ}
      → es ≡ es'
      → n ≡ n'
      → done g es n ≡ done g es' n'
  done_eq g p q = ap₂ (done g) p q

module _ {Table : Type 0} (h : Hashed Table) (pos : VarRef → ℕ) where
  -- generate_helper appends the code of the statement.
  abbrev pub Compiles : Node → Stmt → Gen Table → Type 0
  Compiles n s g =
      generate_helper h n g ≡ done g (g.elems ++ stmt_code pos g.size s) (g.size + stmt_size pos s)

  -- An expression and one more instruction.
  tail_lem :
      (g : Gen Table) (e : Expr) (i : InstrType) {a a' : ℕ}
      → a ≡ a'
      → returned (tt, append_code (code i a ∷ []) (append_code (code_of pos e) g))
        ≡ done g
            (g.elems ++ (code_of pos e ++ code i a' ∷ []))
            (g.size + (code_size (code_of pos e) + width i))
  tail_lem g e i q =
      done_eq g
        (append_assoc g.elems (code_of pos e) (code i _ ∷ [])
          ∙ ap (λ k. g.elems ++ (code_of pos e ++ code i k ∷ [])) q)
        (omega arith)

  -- The condition of a branch, with its jump.
  cond_lem :
      {l : Node} {c : Cmp} {a b : Expr}
      → IsCond l c a b
      → (g : Gen Table) → Positions g.symbols pos a
      → Positions g.symbols pos b
      → generate_helper h l g
        ≡ done g
            ((g.elems ++ cond_code pos a b) ++ code (cmp_instr c) 0 ∷ [])
            (g.size + code_size (cond_code pos a b) + 2)
  cond_lem {c} {a} {b} i g p q =
      generate_helper-cond h i pos g p q
      ∙ done_eq g (sym (append_assoc g.elems (cond_code pos a b) (code (cmp_instr c) 0 ∷ []))) (
          omega
            (arith, code_size-append (cond_code pos a b) (code (cmp_instr c) 0 ∷ []), width_cmp c))

  -- A branch, when the body compiles wherever it stands.
  if_then-Compiles :
      {l : Node} {c : Cmp} {a b : Expr} (m : Node) (s : Stmt) (v : Val)
      → IsCond l c a b
      → (g : Gen Table) → Positions g.symbols pos a
      → Positions g.symbols pos b
      → ((es : List Code) (n : ℕ) → Compiles m s (with_code g es n))
      → Compiles (node ast_branch v l m null) (if_then c a b s) g
  unfolding generate_helper is_null
  if_then-Compiles {l} {c} {a} {b} m s v i g pa pb body =
      let cs : List Code = g.elems ++ cond_code pos a b in
      let k : ℕ = g.size + code_size (cond_code pos a b) + 2 in
      let n : ℕ = k + stmt_size pos s in
      let jump : ℕ → Code = code (neg_jmp_instr (cmp_instr c)) in
      generate_branch-if (generate_helper h l) (generate_helper h m) (generate_helper h null) g cs
        (stmt_code pos k s) (cmp_instr c) k n (cond_lem i g pa pb)
        (body (cs ++ jump 0 ∷ []) k
          ∙ done_eq g (append_assoc cs (jump 0 ∷ []) (stmt_code pos k s)) refl)
      ∙ done_eq g
          (append_assoc g.elems (cond_code pos a b) (jump n ∷ stmt_code pos k s)
            ∙ ap (λ j. g.elems ++ (cond_code pos a b ++ code j n ∷ stmt_code pos k s))
                (opposite_lem h c))
          (omega arith)

  if_else-Compiles :
      {l : Node} {c : Cmp} {a b : Expr} (m r : Node) (s t : Stmt) (v : Val)
      → IsCond l c a b
      → (g : Gen Table) → Positions g.symbols pos a
      → Positions g.symbols pos b
      → is_null r ≡ false
      → ((es : List Code) (n : ℕ) → Compiles m s (with_code g es n))
      → ((es : List Code) (n : ℕ) → Compiles r t (with_code g es n))
      → Compiles (node ast_branch v l m r) (if_else c a b s t) g
  unfolding generate_helper
  if_else-Compiles {l} {c} {a} {b} m r s t v i g pa pb there body other =
      let cs : List Code = g.elems ++ cond_code pos a b in
      let k : ℕ = g.size + code_size (cond_code pos a b) + 2 in
      let n : ℕ = k + stmt_size pos s in
      let end : ℕ = n + 2 + stmt_size pos t in
      let jump : ℕ → Code = code (neg_jmp_instr (cmp_instr c)) in
      let first : List Code = stmt_code pos k s in
      let over : ℕ → Code = code instr_jmp in
      let second : List Code = stmt_code pos (n + 2) t in
      rw there (
        generate_branch-else (generate_helper h l) (generate_helper h m) (generate_helper h r) g cs
          first second (cmp_instr c) k n end (cond_lem i g pa pb)
          (body (cs ++ jump 0 ∷ []) k ∙ done_eq g (append_assoc cs (jump 0 ∷ []) first) refl)
          (other (cs ++ jump (n + 2) ∷ (first ++ over 0 ∷ [])) (n + 2)
            ∙ done_eq g
                (append_assoc cs (jump (n + 2) ∷ (first ++ over 0 ∷ [])) second
                  ∙ ap (λ es. cs ++ jump (n + 2) ∷ es) (append_assoc first (over 0 ∷ []) second))
                refl)
        ∙ done_eq g
            (append_assoc g.elems (cond_code pos a b) (jump (n + 2) ∷ (first ++ over end ∷ second))
              ∙ ap
                  (λ j.
                    g.elems ++ (cond_code pos a b ++ code j (n + 2) ∷ (first ++ over end ∷ second)))
                  (opposite_lem h c))
            (omega arith))

  while-Compiles :
      {l : Node} {c : Cmp} {a b : Expr} (m : Node) (s : Stmt) (v : Val)
      → IsCond l c a b
      → (g : Gen Table) → Positions g.symbols pos a
      → Positions g.symbols pos b
      → ((es : List Code) (n : ℕ) → Compiles m s (with_code g es n))
      → Compiles (node ast_loop v l m null) (while c a b s) g
  while-Compiles {c} {a} {b} m s v i g pa pb body =
      let k : ℕ = g.size + 2 + stmt_size pos s in
      let block : List Code = stmt_code pos (g.size + 2) s in
      let front : List Code = code instr_jmp k ∷ block in
      let cs : List Code = cond_code pos a b in
      let back : List Code = code (cmp_instr c) (g.size + 2) ∷ [] in
      generate_helper-while h i pos g v m block k pa pb (
        body (g.elems ++ code instr_jmp 0 ∷ []) (g.size + 2)
        ∙ done_eq g (append_assoc g.elems (code instr_jmp 0 ∷ []) block) refl)
      ∙ done_eq g
          (append_assoc (g.elems ++ front) cs back
            ∙ (append_assoc g.elems front (cs ++ back)
                ∙ ap (λ es. g.elems ++ es) (sym (append_assoc front cs back))))
          (omega (arith, code_size-append cs (code (cmp_instr c) 0 ∷ []), width_cmp c))

  -- A tree of a statement without calls and returns whose identifiers are variables: what
  -- generate_helper appends is the code of the statement, and it ends there.
  pub generate_helper-stmt :
      {n : Node} {s : Stmt}
      → IsStmt n s
      → (g : Gen Table) → StmtPositions g.symbols pos s
      → Compiles n s g
  unfolding generate_helper StmtPositions width loop_type
  generate_helper-stmt is_empty g p = done_eq g (sym (append-nil g.elems)) (omega arith)
  generate_helper-stmt is_declaration g p = done_eq g (sym (append-nil g.elems)) (omega arith)
  generate_helper-stmt (is_definition {e} i) g ((x, f, q), pe) = rw (IsExpr-is_null i) (
      rw (generate_helper-expr h i pos g pe) (
        rw f (
          rw (push_lem instr_store x.pos (append_code (code_of pos e) g))
            (tail_lem g e instr_store q))))
  generate_helper-stmt (is_assign {e} i) g ((x, f, q), pe) = rw (IsExpr-is_null i) (
      rw (generate_helper-expr h i pos g pe) (
        rw f (
          rw (push_lem instr_store x.pos (append_code (code_of pos e) g))
            (tail_lem g e instr_store q))))
  generate_helper-stmt (is_print {e} i) g pe =
      rw (generate_helper-expr h i pos g pe) (
        rw (push_lem instr_print 0 (append_code (code_of pos e) g)) (tail_lem g e instr_print refl))
  generate_helper-stmt (is_statement i) g p = rw (generate_helper-stmt i g p) refl
  generate_helper-stmt (is_sequence {s} {t} i j) g (p, q) =
      let g' : Gen Table =
        with_code g (g.elems ++ stmt_code pos g.size s) (g.size + stmt_size pos s) in
      rw (generate_helper-stmt i g p) (
        rw (generate_helper-stmt j g' q) (
          done_eq g
            (append_assoc g.elems (stmt_code pos g.size s)
              (stmt_code pos (g.size + stmt_size pos s) t))
            (omega arith)))
  generate_helper-stmt (is_if_then {v} {m} {s} i j) g (pa, pb, p) =
      if_then-Compiles m s v i g pa pb λ es n. generate_helper-stmt j (with_code g es n) p
  generate_helper-stmt (is_if_else {v} {m} {s} {t} {k = r} i j k) g (pa, pb, p, q) =
      if_else-Compiles m r s t v i g pa pb (IsStmt-is_null k)
        (λ es n. generate_helper-stmt j (with_code g es n) p)
        λ es n. generate_helper-stmt k (with_code g es n) q
  generate_helper-stmt (is_while {v} {m} {s} i j) g (pa, pb, p) =
      while-Compiles m s v i g pa pb λ es n. generate_helper-stmt j (with_code g es n) p
