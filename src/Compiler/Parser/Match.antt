-- ===== src/Compiler/Parser/Match.antt =====
-- match_prod, the check_* routines and parse_tokenlist of compiler/parser.c. A routine returns
-- `none` for NULL. The calls between the routines take fuel.
use bispe.Base.{
  ℕ, zero, suc, ◌+◌, ◌*◌, Option, none, some, List, [], ◌∷◌, ◌++◌, if◌then◌else◌, length, Outcome,
  ok, out_of_fuel, then_run, Result, returned, bind, from_result, Stateful,
}
use bispe.Compiler.Token.{tok_eof, Token, token_eq}
use bispe.Compiler.Symbols.{Hashed}
use bispe.Compiler.Ast.Nodes.{AstType, ast_head, Node}
use bispe.Compiler.Ast.Literals.{
  create_identifier, create_intliteral, create_neg_intliteral, create_numop, create_boolop,
  create_type,
}
use bispe.Compiler.Ast.Create.{Checks, create_node, create_empty}
use bispe.Compiler.Parser.Grammar.{
  Check, program, func, Creator, identifier, intliteral, neg_intliteral, numop, boolop, type,
  Symbol, terminal, check, Production, prod, productions, accepts_empty,
}

-- `token` is the list from the token pointer on, and `[]` where that is NULL.
pub record State (Table : Type 0) : Type 0 where
  pub token : List Token
  pub checks : Checks Table

unfoldable pub create : Creator → Token → Result Node
unfolding create_identifier create_intliteral create_neg_intliteral create_numop create_boolop
    create_type
create identifier t = create_identifier t
create intliteral t = create_intliteral t
create neg_intliteral t = create_neg_intliteral t
create numop t = create_numop t
create boolop t = create_boolop t
create type t = create_type t

-- The children, with the node of a terminal that has one.
unfoldable pub create_child : Option Creator → Token → List Node → Result (List Node)
unfolding create
create_child none t children = returned children
create_child (some c) t children = bind (create c t) λ n. returned (children ++ n ∷ [])

abbrev pub Parse : Type 0 → Type 0 → Type 0
Parse Table A = State Table → Outcome (A × State Table)

module _ {Table : Type 0} where
  abbrev pub accept : {A : Type 0} → A → Parse Table A
  accept a s = ok (a, s)

  infixl 5 ◌>>=◌ ◌>>◌
  abbrev pub ◌>>=◌ : {A B : Type 0} → Parse Table A → (A → Parse Table B) → Parse Table B
  ◌>>=◌ m f s = then_run (m s) λ (a, s'). f a s'

  abbrev pub ◌>>◌ : {B : Type 0} → Parse Table (Unit {0}) → Parse Table B → Parse Table B
  ◌>>◌ m k s = then_run (m s) λ (a, s'). k s'

  abbrev pub on_checks : {A : Type 0} → Stateful (Checks Table) A → Parse Table A
  on_checks m s = then_run (from_result (m s.checks)) λ (a, c). ok (a, record s { checks = c })

  abbrev pub lift : {A : Type 0} → Result A → Parse Table A
  lift r s = then_run (from_result r) λ a. ok (a, s)

  -- `token = ts`
  abbrev pub move_to : List Token → Parse Table (Unit {0})
  move_to ts s = ok (tt, record s { token = ts })

  -- One turn of the loop of `match_prod` behind a call that has returned `n`.
  abbrev pub go_on :
      (List Node → List Token → Parse Table (Option (List Node)))
      → List Node
      → Option Node
      → Parse Table (Option (List Node))
  go_on loop children none s = accept none s
  go_on loop children (some n) s = loop (children ++ n ∷ []) s.token s

  -- The loop of `match_prod`: the children, or `none` where the production does not match. The
  -- token pointer moves on past a terminal that does not match, too.
  unfoldable pub match_symbols :
      (Check → Parse Table (Option Node))
      → List Symbol
      → List Node
      → List Token
      → Parse Table (Option (List Node))
  match_symbols call [] children ts = accept (some children)
  match_symbols call (terminal k c ∷ syms) children [] = accept none
  match_symbols call (terminal k c ∷ syms) children (t ∷ ts) =
      if token_eq t.type k
      then (do
        children' ← lift (create_child c t children)
        move_to ts
        match_symbols call syms children' ts)
      else (do move_to ts; accept none)
  match_symbols call (check c ∷ syms) children [] = accept none
  match_symbols call (check c ∷ syms) children (t ∷ ts) = do
    n ← call c
    go_on (match_symbols call syms) children n

  -- The token pointer is read at each turn of the loop.
  abbrev pub match_from :
      (Check → Parse Table (Option Node)) → List Symbol → Parse Table (Option (List Node))
  match_from call syms s = match_symbols call syms [] s.token s

  -- A node is returned, and else the next production is tried.
  abbrev pub or_else : Parse Table (Option Node) → Option Node → Parse Table (Option Node)
  or_else next none s = next s
  or_else next (some n) s = accept (some n) s

module _ {Table : Type 0} (h : Hashed Table) where
  -- The end of `match_prod`.
  abbrev pub build : AstType → Option (List Node) → Parse Table (Option Node)
  build ty none s = accept none s
  build ty (some ns) s = on_checks (create_node h ty ns) s

  unfoldable pub match_prod :
      (Check → Parse Table (Option Node)) → Production → Parse Table (Option Node)
  unfolding match_symbols
  match_prod call (prod ty symbols) = do children ← match_from call symbols; build ty children

  -- TRY_MATCHING, for each production in turn; `saved` is `token_saved`.
  unfoldable pub try_matching :
      (Check → Parse Table (Option Node)) → List Token → List Production → Parse Table (Option Node)
  unfolding match_prod
  try_matching call saved [] = accept none
  try_matching call saved (p ∷ ps) = do
    n ← match_prod call p
    or_else (do move_to saved; try_matching call saved ps) n

  -- `check_func` begins with `set_max_arg_count(0)`.
  unfoldable pub reset : Check → Checks Table → Checks Table
  reset func c = record c { max_arg_count = 0 }
  reset _ c = c

  unfoldable pub leave : Check → Option Node → Option Node
  unfolding accepts_empty
  leave c none = if accepts_empty c then some create_empty else none
  leave c (some n) = some n

  unfoldable pub check_prods : ℕ → Check → Parse Table (Option Node)
  unfolding try_matching reset leave
  check_prods zero c = λ s. out_of_fuel
  check_prods (suc f) c = do
    (λ s. ok (tt, record s { checks = reset c s.checks }))
    n ← λ s. try_matching (check_prods f) s.token (productions c) s
    accept (leave c n)

  unfoldable pub check_start : ℕ → Parse Table (Option Node)
  unfolding match_prod check_prods
  check_start f =
      match_prod (check_prods f) (prod ast_head (check program ∷ terminal tok_eof none ∷ []))

  -- Enough fuel for every token list.
  abbrev pub fuel_for : List Token → ℕ
  fuel_for ts = 4 * length ts + 4

  unfoldable pub parse_tokenlist : List Token → Checks Table → Outcome (Option Node × State Table)
  unfolding check_start
  parse_tokenlist first c = check_start (fuel_for first) (record { token = first; checks = c })
