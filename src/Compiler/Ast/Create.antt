-- ===== src/Compiler/Ast/Create.antt =====
-- create_node and the semantic checks of function definitions, prototypes and calls
-- (compiler/ast.c). `none` is a NULL result. `max_arg_count` is the static variable.
use bispe.Base.{
  ℕ, ◌+◌, Bool, true, false, not, ◌&&◌, Option, none, some, List, Bytes, ltb, ◌==◌, if◌then◌else◌,
  get_elem?, returned, bind, Stateful, pure, ◌>>=◌, ◌>>◌, deref, change,
}
use bispe.Compiler.Symbols.{Dtype, Hashed, Symbols, load_func, update_func, add_func, get_func}
use bispe.Compiler.Ast.Nodes.{
  AstType, ast_empty, ast_inner, ast_fcall_arglist, ast_fcall, ast_ret_fcall, ast_function,
  ast_function_proto, unset, func, Node, null, node, leaf, val_str,
}
use bispe.Compiler.Ast.Register.{
  is_void, check_return_validity, declared_type, register_loc_vars, calculate_arg_addresses,
  register_args,
}

-- The state of the semantic checks: the symbols, and the largest number of arguments of a call in
-- the function that is being parsed.
pub record Checks (Table : Type 0) : Type 0 where
  pub max_arg_count : ℕ
  pub symbols : Symbols Table

-- A routine that works on the symbols only.
abbrev pub on_symbols : {Table A : Type 0} → Stateful (Symbols Table) A → Stateful (Checks Table) A
on_symbols m c = bind (m c.symbols) (λ (a, s). returned (a, record c { symbols = s }))

abbrev pub child : {Table : Type 0} → List Node → ℕ → Stateful (Checks Table) Node
child children i = deref λ c. get_elem? children i

-- The loop of `create_fcall` over the chain of the argument list.
unfoldable pub count_args : Node → ℕ
count_args (node ast_fcall_arglist v l m r) = count_args m + 1
count_args _ = 0

abbrev pub or_null : List Node → ℕ → Node
or_null children i = elim (get_elem? children i) [ none ↦ null | some n ↦ n ]

abbrev pub reject : {Table : Type 0} → Stateful (Checks Table) (Option Node)
reject = pure none

unfoldable pub create_empty : Node
create_empty = leaf ast_empty unset

module _ {Table : Type 0} where
  -- The type, the name and the argument list of a function.
  abbrev pub head : List Node → Stateful (Checks Table) (Dtype × Bytes × Node)
  head children = do
    ty ← child children 0
    t ← on_symbols (declared_type ty)
    id ← child children 1
    n ← deref λ c. val_str id
    args ← child children 2
    pure (t, n, args)

module _ {Table : Type 0} (h : Hashed Table) where
  unfoldable pub register_function_prototype : List Node → Stateful (Checks Table) (Option Node)
  register_function_prototype children = do
    (t, n, args) ← head children
    x ← on_symbols (add_func h n t)
    elim x [
      | none ↦ reject
      | some f ↦ do
        on_symbols (change (update_func (λ i. record i { prototyped = true }) f))
        fine ← on_symbols (register_args h f args)
        pure (if fine then some (leaf ast_inner unset) else none)
    ]

  -- The entry of the function, new or from its prototype.
  unfoldable pub find_or_add_func : Dtype → Bytes → Node → Stateful (Checks Table) (Option ℕ)
  find_or_add_func t n args = do
    x ← λ c. returned (get_func h n c.symbols, c)
    elim x [
      | none ↦ do
        y ← on_symbols (add_func h n t)
        f ← deref λ c. y
        fine ← on_symbols (register_args h f args)
        pure (if fine then some f else none)
      | some f ↦ do
        i ← on_symbols (load_func f)
        if i.prototyped
            then (do
              on_symbols (change (update_func (λ i'. record i' { prototyped = false }) f))
              pure (some f))
            else pure none
    ]

  -- The body of a function whose entry is at hand.
  unfoldable pub register_body : ℕ → Node → Node → Stateful (Checks Table) (Option Node)
  register_body f args body = do
    (λ c.
        change
          (λ c'. record c' {
            symbols = update_func (λ i. record i { max_call_size = c'.max_arg_count }) f c'.symbols;
          })
          c)
    x ← on_symbols (register_loc_vars h f body)
    elim x [
      | none ↦ reject
      | some body' ↦ do
        on_symbols (calculate_arg_addresses h f args)
        i ← on_symbols (load_func f)
        pure (
            if check_return_validity i.ret_type body'
            then some (node ast_function (func f) body' null null)
            else none)
    ]

  unfoldable pub register_function : List Node → Stateful (Checks Table) (Option Node)
  unfolding find_or_add_func register_body
  register_function children = do
    (t, n, args) ← head children
    x ← find_or_add_func t n args
    elim x [ none ↦ reject | some f ↦ do body ← child children 3; register_body f args body ]

  -- `must_return` is set for a call in an expression; `kind` is the type of the node.
  unfoldable pub create_fcall : AstType → List Node → Bool → Stateful (Checks Table) (Option Node)
  unfolding count_args is_void
  create_fcall kind children must_return = do
    id ← child children 0
    n ← deref λ c. val_str id
    x ← λ c. returned (get_func h n c.symbols, c)
    elim x [
      | none ↦ reject
      | some f ↦ do
        i ← on_symbols (load_func f)
        args ← child children 1
        let arg_count = count_args args
        if must_return && is_void i.ret_type
            then reject
            else if not (arg_count == i.arg_count)
            then reject
            else (do
              change (λ c. record c {
                max_arg_count =
                    if ltb c.max_arg_count arg_count then arg_count else c.max_arg_count;
              })
              pure (some (node kind (func f) args null null)))
    ]

  unfoldable pub create_node : AstType → List Node → Stateful (Checks Table) (Option Node)
  unfolding register_function register_function_prototype create_fcall
  create_node ast_function children = register_function children
  create_node ast_function_proto children = register_function_prototype children
  create_node ast_fcall children = create_fcall ast_fcall children false
  create_node ast_ret_fcall children = create_fcall ast_ret_fcall children true
  create_node t children =
      pure (some (node t unset (or_null children 0) (or_null children 1) (or_null children 2)))
