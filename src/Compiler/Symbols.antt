-- ===== src/Compiler/Symbols.antt =====
-- compiler/symbols.c: the function table and the variable tables. The hashed containers of sglib
-- are a parameter; a pointer to an entry is its position among the entries allocated so far.
pub mod Refines
pub mod Variables
use bispe.Base.{
  ℕ, ◌+◌, ◌*◌, ◌%◌, ◌^◌, ◌≡◌, Bool, true, false, Option, none, some, List, [], ◌∷◌, ◌++◌, Bytes,
  if◌then◌else◌, length, get_elem?, modify, str_eq, Stateful, pure, ◌>>=◌, deref, change, returned,
  bind, from_option,
}
use bispe.Compiler.Token.{TokenType, tok_void, tok_int}

pub data Dtype : Type 0 where
  dtype_void dtype_int : Dtype

unfoldable pub tok_type_to_dtype : TokenType → Dtype
tok_type_to_dtype tok_void = dtype_void
tok_type_to_dtype tok_int = dtype_int
tok_type_to_dtype _ = dtype_void

-- `unsigned long` arithmetic; the characters are ASCII.
unfoldable pub djb2_from : ℕ → Bytes → ℕ
djb2_from hash [] = hash
djb2_from hash (c ∷ str) = djb2_from ((hash * 33 + c) % 2 ^ 64) str

unfoldable pub djb2_hash : Bytes → ℕ
unfolding djb2_from
djb2_hash str = djb2_from 5381 str

-- The results are `unsigned int`.
unfoldable pub var_info_hash : Bytes → ℕ
unfolding djb2_hash
var_info_hash name = djb2_hash name % 2 ^ 32

unfoldable pub func_info_hash : Bytes → ℕ
unfolding djb2_hash
func_info_hash name = djb2_hash name % 2 ^ 32

-- What SGLIB_DEFINE_HASHED_CONTAINER_FUNCTIONS makes, over entries compared by name.
pub record Hashed (Table : Type 0) : Type 0 where
  pub init : Table
  pub find_member : (Bytes → ℕ) → Table → Bytes → Option ℕ
  pub add : (Bytes → ℕ) → Table → Bytes → ℕ → Table

-- What sglib documents of them: a table holds what was added under the name it was added by.
pub record HashedLaws {Table : Type 0} (h : Hashed Table) : Type 0 where
  pub find-init : (hash : Bytes → ℕ) (j : Bytes) → h.find_member hash h.init j ≡ none
  pub find-add :
      (hash : Bytes → ℕ) (t : Table) (k : Bytes) (p : ℕ) (j : Bytes)
      → h.find_member hash t k ≡ none
      → h.find_member hash (h.add hash t k p) j
        ≡ (if str_eq k j then some p else h.find_member hash t j)

pub record VarInfo : Type 0 where
  pub name : Bytes
  pub type : Dtype
  pub pos : ℕ

-- `vars` are the entries allocated for the variables of `var_table`.
pub record FuncInfo (Table : Type 0) : Type 0 where
  pub name : Bytes
  pub ret_type : Dtype
  pub prototyped : Bool
  pub addr : ℕ
  pub arg_count : ℕ
  pub var_count : ℕ
  pub max_call_size : ℕ
  pub var_table : Table
  pub vars : List VarInfo

-- The static variables, and the entries allocated so far. `junk` is what `malloc` leaves in a
-- field that is never set, `addr`.
pub record Symbols (Table : Type 0) : Type 0 where
  pub func_table_init : Bool
  pub func_table : Table
  pub funcs : List (FuncInfo Table)
  pub junk : ℕ

-- A pointer to a variable: the function that it belongs to, and its position there.
pub record VarRef : Type 0 where
  pub func : ℕ
  pub var : ℕ

abbrev pub set_pos : ℕ → VarInfo → VarInfo
set_pos p v = record v { pos = p }

module _ {Table : Type 0} where
  -- `*func`
  abbrev pub load_func : ℕ → Stateful (Symbols Table) (FuncInfo Table)
  load_func f = deref λ s. get_elem? s.funcs f

  abbrev pub update_func : (FuncInfo Table → FuncInfo Table) → ℕ → Symbols Table → Symbols Table
  update_func g f s = record s { funcs = modify g s.funcs f }

  -- `*var`
  abbrev pub find_var : Symbols Table → VarRef → Option VarInfo
  find_var s r = elim (get_elem? s.funcs r.func) [ none ↦ none | some i ↦ get_elem? i.vars r.var ]

  -- `var->pos = pos`
  abbrev pub store_pos : VarRef → ℕ → Stateful (Symbols Table) (Unit {0})
  store_pos r p =
      change (update_func (λ i. record i { vars = modify (set_pos p) i.vars r.var }) r.func)

module _ {Table : Type 0} (h : Hashed Table) where
  abbrev pub new_func : Symbols Table → Bytes → Dtype → FuncInfo Table
  new_func s n t = record {
    name = n;
    ret_type = t;
    prototyped = false;
    addr = s.junk;
    arg_count = 0;
    var_count = 0;
    max_call_size = 0;
    var_table = h.init;
    vars = [];
  }

  -- The first half of `add_func`.
  abbrev pub init_func_table : Symbols Table → Symbols Table
  init_func_table s =
      if s.func_table_init then s else record s { func_table = h.init; func_table_init = true }

  abbrev pub insert_func : Symbols Table → Bytes → Dtype → Symbols Table
  insert_func s n t = record s {
    func_table = h.add func_info_hash s.func_table n (length s.funcs);
    funcs = s.funcs ++ new_func s n t ∷ [];
  }

  -- The second half, behind the search for the name.
  abbrev pub add_entry : Option ℕ → Bytes → Dtype → Stateful (Symbols Table) (Option ℕ)
  add_entry (some p) n t s = returned (none, s)
  add_entry none n t s = returned (some (length s.funcs), insert_func s n t)

  -- `none` is a NULL result: the name is taken.
  unfoldable pub add_func : Bytes → Dtype → Stateful (Symbols Table) (Option ℕ)
  add_func n t s =
      let s' = init_func_table s in add_entry (h.find_member func_info_hash s'.func_table n) n t s'

  abbrev pub insert_var : Bytes → Dtype → FuncInfo Table → FuncInfo Table
  insert_var n t i = record i {
    var_table = h.add var_info_hash i.var_table n (length i.vars);
    vars = i.vars ++ (record { name = n; type = t; pos = 0 }) ∷ [];
  }

  -- The same two halves, for the entry `i` of the function `f`.
  abbrev pub add_var_entry :
      ℕ → Bytes → Dtype → FuncInfo Table → Option ℕ → Stateful (Symbols Table) (Option VarRef)
  add_var_entry f n t i (some p) s = returned (none, s)
  add_var_entry f n t i none s =
      returned (some (record { func = f; var = length i.vars }), update_func (insert_var n t) f s)

  unfoldable pub add_var : Bytes → Dtype → Option ℕ → Stateful (Symbols Table) (Option VarRef)
  add_var n t none = pure none
  add_var n t (some f) = do
    i ← load_func f
    add_var_entry f n t i (h.find_member var_info_hash i.var_table n)

  unfoldable pub get_func : Bytes → Symbols Table → Option ℕ
  get_func n s = h.find_member func_info_hash s.func_table n

  -- The pointer that a search for a variable of `f` returns.
  abbrev pub var_at : ℕ → Option ℕ → Option VarRef
  var_at f none = none
  var_at f (some p) = some (record { func = f; var = p })

  unfoldable pub get_var : Bytes → ℕ → Stateful (Symbols Table) (Option VarRef)
  get_var n f = do i ← load_func f; pure (var_at f (h.find_member var_info_hash i.var_table n))
