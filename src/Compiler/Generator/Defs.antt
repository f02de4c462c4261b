-- ===== src/Compiler/Generator/Defs.antt =====
-- generate_helper and generate_code of compiler/generator.c.
use bispe.Base.{
  ℕ, zero, suc, ◌+◌, ◌-◌, Bool, true, false, not, Option, none, some, List, [], ◌∷◌, ◌++◌, ltb,
  codes, if◌then◌else◌, length, is_empty, get_elem?, modify, Result, returned, bind, Stateful, pure,
  ◌>>=◌, ◌>>◌, deref, change, crash,
}
use bispe.Compiler.Token.{TokenType, tok_plus, tok_minus, tok_star, tok_slash, tok_percent}
use bispe.Compiler.Symbols.{
  Hashed, Symbols, FuncInfo, VarInfo, VarRef, find_var, update_func, get_func,
}
use bispe.Compiler.Ast.Nodes.{
  ast_empty, ast_identifier, ast_intliteral, ast_var_def, ast_var_assign, ast_print, ast_return,
  ast_expression, ast_numop_leaf, ast_boolop_leaf, ast_condition, ast_branch, ast_for_loop_head,
  ast_loop, ast_fcall, ast_ret_fcall, ast_function, ast_head, Val, type, number, func, var, Node,
  null, node,
}
use bispe.Compiler.Ast.Register.{is_null}
use bispe.Compiler.Instr.{
  InstrType, instr_push, instr_print, instr_load, instr_store, instr_add, instr_sub, instr_mul,
  instr_div, instr_mod, instr_jmp, instr_call, instr_ret, instr_prolog, instr_epilog, instr_argload,
  instr_finish, width, boolop_to_jmp_instr, neg_jmp_instr, is_ret,
}

pub record Code : Type 0 where
  pub instr : InstrType
  pub arg : ℕ

abbrev pub code : InstrType → ℕ → Code
code i a = record { instr = i; arg = a }

-- The static variables of the generator, with the symbol table.
pub record Gen (Table : Type 0) : Type 0 where
  pub elems : List Code
  pub size : ℕ
  pub error : Bool
  pub current_func : Option ℕ
  pub symbols : Symbols Table

abbrev pub val_var : Val → Option VarRef
val_var (var r) = some r
val_var _ = none

abbrev pub val_number : Val → Option ℕ
val_number (number n) = some n
val_number _ = none

abbrev pub val_token : Val → Option TokenType
val_token (type t) = some t
val_token _ = none

abbrev pub val_func : Val → Option ℕ
val_func (func f) = some f
val_func _ = none

pub data LoopType : Type 0 where
  while_loop for_loop do_loop : LoopType

-- The type of a loop by its left child.
unfoldable pub loop_type : Node → Option LoopType
loop_type null = none
loop_type (node ast_condition v l m r) = some while_loop
loop_type (node ast_for_loop_head v l m r) = some for_loop
loop_type (node t v l m r) = some do_loop

pub data Part : Type 0 where
  left_part middle_part right_part : Part

-- The instruction of a numeric operator; any other token pushes none.
unfoldable pub numop_instr : TokenType → Option InstrType
numop_instr tok_plus = some instr_add
numop_instr tok_minus = some instr_sub
numop_instr tok_star = some instr_mul
numop_instr tok_slash = some instr_div
numop_instr tok_percent = some instr_mod
numop_instr _ = none

abbrev pub Generate : Type 0 → Type 0
Generate Table = Stateful (Gen Table) (Unit {0})

module _ {Table : Type 0} where
  abbrev pub emit : InstrType → ℕ → Gen Table → Gen Table
  emit i a g = record g { elems = g.elems ++ code i a ∷ []; size = g.size + width i }

  -- The pointer to the new element.
  unfoldable pub push_elem : InstrType → ℕ → Stateful (Gen Table) ℕ
  push_elem i a g = returned (length g.elems, emit i a g)

  unfoldable pub push : InstrType → ℕ → Generate Table
  push i a = change (emit i a)

  -- `current`, NULL before the first element.
  abbrev pub current : Stateful (Gen Table) ℕ
  current = deref λ g. if is_empty g.elems then none else some (length g.elems - 1)

  abbrev pub load_elem : ℕ → Stateful (Gen Table) Code
  load_elem e = deref λ g. get_elem? g.elems e

  abbrev pub set_instr : ℕ → InstrType → Generate Table
  set_instr e i = change λ g. record g { elems = modify (λ c. record c { instr = i }) g.elems e }

  -- `elem->arg = a`
  abbrev pub set_arg : ℕ → ℕ → Generate Table
  set_arg e a = change λ g. record g { elems = modify (λ c. record c { arg = a }) g.elems e }

  abbrev pub get_size : Stateful (Gen Table) ℕ
  get_size g = returned (g.size, g)

  abbrev pub load_func : ℕ → Stateful (Gen Table) (FuncInfo Table)
  load_func f = deref λ g. get_elem? g.symbols.funcs f

  abbrev pub load_var : VarRef → Stateful (Gen Table) VarInfo
  load_var r = deref λ g. find_var g.symbols r

  unfoldable pub push_func_prolog : FuncInfo Table → Generate Table
  unfolding push
  push_func_prolog i =
      let frame_size = i.var_count + i.max_call_size in
      if ltb 0 frame_size then push instr_prolog frame_size else pure tt

  unfoldable pub push_func_epilog : FuncInfo Table → Generate Table
  unfolding push
  push_func_epilog i =
      let frame_size = i.var_count + i.max_call_size in
      if ltb 0 frame_size then push instr_epilog frame_size else pure tt

  -- `for(i = n-1; i >= 0; i--) push_elem(INSTR_STORE, i)`
  unfoldable pub store_args : ℕ → Generate Table
  unfolding push
  store_args zero = pure tt
  store_args (suc i) = do push instr_store i; store_args i

  -- `for(i = from; i < from + n; i++) push_elem(INSTR_ARGLOAD, i)`
  unfoldable pub load_args : ℕ → ℕ → Generate Table
  unfolding push
  load_args from zero = pure tt
  load_args from (suc n) = do push instr_argload from; load_args (from + 1) n

  -- The else branch, if there is one, with the jump over it.
  unfoldable pub generate_else : Bool → ℕ → Generate Table → Generate Table
  unfolding push_elem
  generate_else has_else cmp_instr right =
      if has_else
      then (do
        jmp_instr ← push_elem instr_jmp 0
        target ← get_size
        set_arg cmp_instr target
        right
        end ← get_size
        set_arg jmp_instr end)
      else (do target ← get_size; set_arg cmp_instr target)

  -- The case AST_BRANCH, over the code of its three children.
  unfoldable pub generate_branch :
      Generate Table → Generate Table → Bool → Generate Table → Generate Table
  unfolding generate_else
  generate_branch left middle has_else right = do
    left
    cmp_instr ← current
    c ← load_elem cmp_instr
    set_instr cmp_instr (neg_jmp_instr c.instr)
    middle
    generate_else has_else cmp_instr right

  -- The jump to the condition of a while-loop or a for-loop, its body, and the condition.
  unfoldable pub generate_forward : Generate Table → Generate Table → Generate Table
  unfolding push_elem
  generate_forward body condition = do
    forward_jmp_instr ← push_elem instr_jmp 0
    back_jmp_target ← get_size
    body
    target ← get_size
    set_arg forward_jmp_instr target
    condition
    c ← current
    set_arg c back_jmp_target

  unfoldable pub generate_do : Generate Table → Generate Table → Generate Table
  generate_do body condition = do
    back_jmp_target ← get_size
    body
    condition
    c ← current
    set_arg c back_jmp_target

  -- The case AST_FCALL, behind the code of the arguments.
  unfoldable pub generate_call : Val → Generate Table
  unfolding store_args push
  generate_call v = do
    f ← deref λ g. val_func v
    i ← load_func f
    store_args i.arg_count
    push instr_call i.addr

  -- The case AST_FUNCTION, over the code of its body.
  unfoldable pub generate_function : Val → Generate Table → Generate Table
  unfolding is_ret
  generate_function v body = do
    f ← deref λ g. val_func v
    (λ g.
        change
          (λ g'. record g' {
            current_func = some f;
            symbols = update_func (λ i. record i { addr = g'.size }) f g'.symbols;
          })
          g)
    i ← load_func f
    push_func_prolog i
    body
    e ← current
    c ← load_elem e
    q ← deref λ g. g.current_func
    j ← load_func q
    if is_ret c.instr then pure tt else (do push_func_epilog j; push instr_ret 0)

  unfoldable pub generate_return : Generate Table
  unfolding push_func_epilog push
  generate_return = do
    f ← deref λ g. g.current_func
    i ← load_func f
    push_func_epilog i
    push instr_ret 0

module _ {Table : Type 0} (h : Hashed Table) where
  -- The case AST_HEAD, over the code of the program.
  unfoldable pub generate_head : Generate Table → Generate Table
  unfolding push push_elem load_args get_func
  generate_head program = do
    x ← λ g. returned (get_func h (codes "main") g.symbols, g)
    elim x [
      | none ↦ change λ g. record g { error = true }
      | some f ↦ do
        i ← load_func f
        if ltb 0 i.arg_count then push instr_prolog i.arg_count else pure tt
        load_args 0 i.arg_count
        entry_point ← push_elem instr_call 0
        push instr_finish 0
        program
        j ← load_func f
        set_arg entry_point j.addr
    ]

  unfoldable mutual
    unfolding push numop_instr loop_type is_null generate_branch generate_forward generate_do
        generate_call generate_function generate_return generate_head

    pub generate_helper : Node → Generate Table
    generate_helper null = pure tt
    generate_helper (node ast_empty v l m r) = pure tt
    generate_helper (node ast_identifier v l m r) = do
      p ← deref λ g. val_var v
      x ← load_var p
      push instr_load x.pos
    generate_helper (node ast_intliteral v l m r) = do
      n ← deref λ g. val_number v
      push instr_push n
    generate_helper (node ast_var_def v l m r) = if is_null l then pure tt else (do
      generate_helper l
      p ← deref λ g. val_var v
      x ← load_var p
      push instr_store x.pos)
    generate_helper (node ast_var_assign v l m r) = if is_null l then pure tt else (do
      generate_helper l
      p ← deref λ g. val_var v
      x ← load_var p
      push instr_store x.pos)
    generate_helper (node ast_print v l m r) = do generate_helper l; push instr_print 0
    generate_helper (node ast_return v l m r) = do generate_helper l; generate_return
    generate_helper (node ast_expression v l m r) = do
      generate_helper l
      generate_helper r
      generate_helper m
    generate_helper (node ast_numop_leaf v l m r) = do
      t ← deref λ g. val_token v
      elim (numop_instr t) [ none ↦ pure tt | some i ↦ push i 0 ]
    generate_helper (node ast_boolop_leaf v l m r) = do
      t ← deref λ g. val_token v
      push (boolop_to_jmp_instr t) 0
    generate_helper (node ast_condition v l m r) = do
      generate_helper l
      generate_helper r
      generate_helper m
    generate_helper (node ast_branch v l m r) =
        generate_branch (generate_helper l) (generate_helper m) (not (is_null r))
          (generate_helper r)
    generate_helper (node ast_loop v l m r) = do
      k ← deref λ g. loop_type l
      elim k [
        | while_loop ↦ generate_forward (generate_helper m) (generate_helper l)
        | for_loop ↦ do
          generate_part left_part l
          generate_forward (do generate_helper m; generate_part right_part l)
              (generate_part middle_part l)
        | do_loop ↦ generate_do (generate_helper l) (generate_helper m)
      ]
    generate_helper (node ast_fcall v l m r) = do generate_helper l; generate_call v
    generate_helper (node ast_ret_fcall v l m r) = do generate_helper l; generate_call v
    generate_helper (node ast_function v l m r) = generate_function v (generate_helper l)
    generate_helper (node ast_head v l m r) = generate_head (generate_helper l)
    generate_helper (node t v l m r) = do generate_helper l; generate_helper m; generate_helper r

    -- The head of a for-loop: its first assignment, its condition, and its last assignment.
    pub generate_part : Part → Node → Generate Table
    generate_part p null = crash
    generate_part left_part (node t v l m r) = generate_helper l
    generate_part middle_part (node t v l m r) = generate_helper m
    generate_part right_part (node t v l m r) = generate_helper r

  abbrev pub start_gen : Symbols Table → Gen Table
  start_gen s = record { elems = []; size = 0; error = false; current_func = none; symbols = s }

  -- `none` is a NULL result.
  unfoldable pub generate_code : Node → Symbols Table → Result (Option (List Code))
  unfolding generate_helper
  generate_code head s =
      bind (generate_helper head (start_gen s))
        λ (u, g). returned (if g.error then none else some g.elems)
