-- ===== src/Compiler/Ast/Register.antt =====
-- The checks of a function when it is declared: its arguments, its local variables and its
-- return statements (compiler/ast.c). They return 0, here `false` or `none`, on an error.
use bispe.Base.{
  ℕ, ◌+◌, Bool, true, false, not, ◌&&◌, Option, none, some, if◌then◌else◌, Stateful, pure, ◌>>=◌,
  ◌>>◌, deref, crash, change,
}
use bispe.Compiler.Symbols.{
  Dtype, dtype_void, dtype_int, tok_type_to_dtype, Hashed, Symbols, load_func, update_func,
  find_var, store_pos, add_var, get_var,
}
use bispe.Compiler.Ast.Nodes.{
  AstType, ast_argdef, ast_identifier, ast_var_def, ast_var_assign, Val, var, Node, null, node,
  val_str, val_type, left_of, is_return,
}

unfoldable pub is_void : Dtype → Bool
is_void dtype_void = true
is_void dtype_int = false

unfoldable pub is_null : Node → Bool
is_null null = true
is_null (node t v l m r) = false

-- `ret_type` is the return type of the function.
unfoldable pub check_return_validity : Dtype → Node → Bool
unfolding is_return is_void is_null
check_return_validity ret_type null = true
check_return_validity ret_type (node t v l m r) =
    let below =
      check_return_validity ret_type l
      && check_return_validity ret_type m
      && check_return_validity ret_type r in
    if not (is_return t)
    then below
    else if not (is_null l) && is_void ret_type
    then false
    else not (is_null l && not (is_void ret_type))

module _ {Table : Type 0} where
  -- `tok_type_to_dtype(node->left->left->val.type)` at a node whose `left` is `l`.
  abbrev pub declared_type : Node → Stateful (Symbols Table) Dtype
  declared_type l = do
    leaf ← deref λ s. left_of l
    k ← deref λ s. val_type leaf
    pure (tok_type_to_dtype k)

  -- The three children in turn, up to the first that fails.
  abbrev pub register_children :
      AstType
      → Val
      → Stateful (Symbols Table) (Option Node)
      → Stateful (Symbols Table) (Option Node)
      → Stateful (Symbols Table) (Option Node)
      → Stateful (Symbols Table) (Option Node)
  register_children t v left middle right = do
    x ← left
    elim x [
      | none ↦ pure none
      | some l ↦ do
        y ← middle
        elim y [
          | none ↦ pure none
          | some m ↦ do
            z ← right
            elim z [ none ↦ pure none | some r ↦ pure (some (node t v l m r)) ]
        ]
    ]

module _ {Table : Type 0} (h : Hashed Table) where
  -- The node that a successful call leaves in place of its argument.
  unfoldable pub register_loc_vars : ℕ → Node → Stateful (Symbols Table) (Option Node)
  register_loc_vars f null = pure (some null)
  register_loc_vars f (node ast_var_def v l m r) = do
    t ← declared_type l
    n ← deref λ s. val_str m
    x ← add_var h n t (some f)
    elim x [
      | none ↦ pure none
      | some p ↦ do
        i ← load_func f
        store_pos p (i.max_call_size + i.var_count)
        change (update_func (λ i'. record i' { var_count = i'.var_count + 1 }) f)
        e ← register_loc_vars f r
        elim e [ none ↦ pure none | some r' ↦ pure (some (node ast_var_def (var p) r' null null)) ]
    ]
  register_loc_vars f (node ast_var_assign v l m r) = do
    n ← deref λ s. val_str l
    x ← get_var h n f
    elim x [
      | none ↦ pure none
      | some p ↦ do
        e ← register_loc_vars f m
        elim e [ none ↦ pure none | some m' ↦ pure (some (node ast_var_assign (var p) m' null r)) ]
    ]
  register_loc_vars f (node ast_identifier v l m r) = do
    n ← deref λ s. val_str (node ast_identifier v l m r)
    x ← get_var h n f
    elim x [ none ↦ pure none | some p ↦ pure (some (node ast_identifier (var p) l m r)) ]
  register_loc_vars f (node t v l m r) =
      register_children t v (register_loc_vars f l) (register_loc_vars f m) (register_loc_vars f r)

  -- A missing variable is a null dereference.
  unfoldable pub calculate_arg_addresses : ℕ → Node → Stateful (Symbols Table) (Unit {0})
  calculate_arg_addresses f null = pure tt
  calculate_arg_addresses f (node ast_argdef v l m r) = do
    n ← deref λ s. val_str m
    x ← get_var h n f
    elim x [
      | none ↦ crash
      | some p ↦ do
        i ← load_func f
        w ← deref λ s. find_var s p
        store_pos p (w.pos + i.var_count + i.max_call_size)
    ]
  calculate_arg_addresses f (node t v l m r) = do
    calculate_arg_addresses f l
    calculate_arg_addresses f m

  unfoldable pub register_args : ℕ → Node → Stateful (Symbols Table) Bool
  register_args f null = pure true
  register_args f (node ast_argdef v l m r) = do
    t ← declared_type l
    n ← deref λ s. val_str m
    x ← add_var h n t (some f)
    elim x [
      | none ↦ pure false
      | some p ↦ do
        i ← load_func f
        store_pos p (i.arg_count + 1)
        change (update_func (λ i'. record i' { arg_count = i'.arg_count + 1 }) f)
        pure true
    ]
  register_args f (node t v l m r) = do
    done ← register_args f l
    elim done [ false ↦ pure false | true ↦ register_args f m ]
