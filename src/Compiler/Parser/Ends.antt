-- ===== src/Compiler/Parser/Ends.antt =====
-- The fuel that the model of compiler/parser.c hands out is enough for every token list.
use bispe.Base.{
  ℕ, zero, suc, ◌+◌, ◌*◌, ◌≤◌, ◌<◌, ◌≢◌, ◌≡◌, refl, Bool, true, false, not, le_refl, inr, Option,
  none, some, List, [], ◌∷◌, arith, length, out_of_fuel, Ensures, returns, Ensures-then,
  Ensures-result, Ensures-ne-out_of_fuel, if◌then◌else◌,
}
use mathlib.Core.Bool.{and-eq-true_iff}
use bispe.Compiler.Token.{Token, tok_eof}
use bispe.Compiler.Symbols.{Hashed}
use bispe.Compiler.Ast.Nodes.{Node, AstType, ast_head}
use bispe.Compiler.Ast.Create.{Checks, create_node, create_empty}
use bispe.Compiler.Parser.Grammar.{
  Check, program, Symbol, terminal, check, Production, prod, productions, accepts_empty,
}
use bispe.Compiler.Parser.Match.{
  State, Parse, match_prod, try_matching, reset, leave, check_prods, check_start, parse_tokenlist,
  build, or_else,
}
use bispe.Compiler.Parser.Total.{
  rank, descends, all_descend, productions_descend, consumes, all_consume, productions_consume,
  rank-le, Shortens, loosens, Fits, Serves, at, match_symbols-Fits,
}

another_value :
    {A B : Type 0} (n : ℕ) (e : Bool) (a : A) (x : Option B) (ts : List Token)
    → Shortens n e (some a) ts
    → Shortens n e x ts
another_value n true a none ts h = h
another_value n true a (some b) ts h = h
another_value n false a none ts h = omega arith
another_value n false a (some b) ts h = h

-- A node found by a production that consumes, or by one of a routine that accepts the empty word.
as_empty :
    {A : Type 0} (n : ℕ) (e used : Bool) (x : Option A) (ts : List Token)
    → (e ≡ false → used ≡ true)
    → Shortens n (not used) x ts
    → Shortens n e x ts
as_empty n true used x ts c h = loosens n (not used) x ts h
as_empty n false used none ts c h = h
as_empty n false true (some a) ts c h = h
as_empty n false false (some a) ts c h = absurd (cc (c refl))

leave-Shortens :
    {Table : Type 0} (h : Hashed Table) (c : Check) (n : ℕ) (x : Option Node) (ts : List Token)
    → Shortens n (accepts_empty c) x ts
    → Shortens n (accepts_empty c) (leave h c x) ts
unfolding leave
leave-Shortens h c n (some a) ts f = f
leave-Shortens h c n none ts f = or_empty (accepts_empty c) f
  where
    or_empty :
        (e : Bool)
        → Shortens {A = Node} n e none ts
        → Shortens n e (if e then some create_empty else none) ts
    or_empty true g = g
    or_empty false g = g

module _ {Table : Type 0} (h : Hashed Table) where
  build-Fits :
      (ty : AstType) (n : ℕ) (e : Bool) (x : Option (List Node)) (s : State Table)
      → Fits n e (x, s)
      → Ensures (Fits n e) (build h ty x s)
  build-Fits ty n e none s f = returns f
  build-Fits ty n e (some ns) s f =
      Ensures-then (Ensures-result {P = λ _. Unit {0}} (create_node h ty ns s.checks) (λ _. tt))
        λ (x, k) _. returns (another_value n e ns x s.token f)

  module _ (bound r : ℕ) (call : Check → Parse Table (Option Node))
      (serves : Serves bound call) where
    match_prod-Fits :
        (ty : AstType) (syms : List Symbol) (ts : List Token) (k : Checks Table)
        → 4 * length ts + r ≤ bound
        → descends r syms ≡ true
        → Ensures
            (Fits (length ts) (not (consumes syms)))
            (match_prod h call (prod ty syms) (at ts k))
    unfolding match_prod
    match_prod-Fits ty syms ts k room d =
        Ensures-then
          (match_symbols-Fits bound (length ts) r room call serves syms [] ts k
            (inr (le_refl (length ts), d)))
          λ (x, s) f. build-Fits ty (length ts) (not (consumes syms)) x s f

    or_else-Fits :
        (n : ℕ) (e used : Bool) (next : Parse Table (Option Node)) (x : Option Node)
        (s : State Table)
        → (e ≡ false → used ≡ true)
        → Ensures (Fits n e) (next s)
        → Fits n (not used) (x, s)
        → Ensures (Fits n e) (or_else next x s)
    or_else-Fits n e used next none s c later f = later
    or_else-Fits n e used next (some a) s c later f =
        returns (as_empty n e used (some a) s.token c f)

    try_matching-Fits :
        (e : Bool) (ps : List Production) (ts : List Token) (k : Checks Table)
        → 4 * length ts + r ≤ bound
        → all_descend r ps ≡ true
        → (e ≡ false → all_consume ps ≡ true)
        → Ensures (Fits (length ts) e) (try_matching h call ts ps (at ts k))
    unfolding try_matching all_descend all_consume
    try_matching-Fits e [] ts k room d c = returns (le_refl (length ts))
    try_matching-Fits e (prod ty syms ∷ ps) ts k room d c =
        let (here, there) = (and-eq-true_iff _ _).0 d in
        Ensures-then (match_prod-Fits ty syms ts k room here) λ (x, s) f.
          or_else-Fits (length ts) e (consumes syms) _ x s (λ q. ((and-eq-true_iff _ _).0 (c q)).0)
            (try_matching-Fits e ps ts s.checks room there (λ q. ((and-eq-true_iff _ _).0 (c q)).1))
            f

  -- A routine on `f` units of fuel keeps within them at few enough tokens.
  check_prods-Serves : (f : ℕ) → Serves f (check_prods h f)
  unfolding check_prods
  check_prods-Serves zero c s lt = absurd (omega arith)
  check_prods-Serves (suc f) c s lt =
      Ensures-then
        (try_matching-Fits f (rank c) (check_prods h f) (check_prods-Serves f) (accepts_empty c)
          (productions c) s.token (reset h c s.checks) (omega arith) (productions_descend c)
          (productions_consume c))
        λ (x, t) g. returns (leave-Shortens h c (length s.token) x t.token g)

  -- With this much fuel, or more, every routine of the parser ends: it returns, exits or faults.
  pub check_prods-ne-out_of_fuel :
      (f : ℕ) (c : Check) (s : State Table)
      → 4 * length s.token + 3 < f
      → check_prods h f c s ≢ out_of_fuel
  check_prods-ne-out_of_fuel f c s lt =
      Ensures-ne-out_of_fuel (check_prods-Serves f c s (omega (arith, rank-le c)))

  -- The parser ends on every token list and from every state of the symbol table: it returns a
  -- tree or NULL, exits, or faults, within the fuel that it is given.
  pub parse_tokenlist-ne-out_of_fuel :
      (ts : List Token) (k : Checks Table) → parse_tokenlist h ts k ≢ out_of_fuel
  unfolding parse_tokenlist check_start
  parse_tokenlist-ne-out_of_fuel ts k = Ensures-ne-out_of_fuel (
      match_prod-Fits (4 * length ts + 4) 3 (check_prods h (4 * length ts + 4))
        (check_prods-Serves (4 * length ts + 4)) ast_head
        (check program ∷ terminal tok_eof none ∷ []) ts k (omega arith) (unfold descends in refl))
