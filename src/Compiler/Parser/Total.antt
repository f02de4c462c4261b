-- ===== src/Compiler/Parser/Total.antt =====
-- The parser of compiler/parser.c ends on every token list: no routine reaches itself again
-- without a token having been consumed, so the depth of the calls is bounded.
use bispe.Base.{
  ℕ, suc, ◌+◌, ◌*◌, ◌≤◌, ◌<◌, ◌≡◌, refl, Bool, true, false, not, le_refl, ◌⊎◌, if_holds, inl, inr,
  ◌&&◌, Option, none, some, List, [], ◌∷◌, ◌++◌, ltb, arith, length, if◌then◌else◌, Ensures,
  returns, Ensures-then, Ensures-map, Ensures-result,
}
use bispe.Compiler.Token.{Token, token_eq}
use bispe.Compiler.Ast.Nodes.{Node}
use bispe.Compiler.Ast.Create.{Checks}
use bispe.Compiler.Parser.Grammar.{
  Check, program, func, Symbol, terminal, check, Production, prod, productions, accepts_empty,
  argdef, argdeflist, var_def, expr, expr1, cond, fcall_arglist, statement, for_loop_head, sequence,
}
use bispe.Compiler.Parser.Match.{State, Parse, create_child, go_on, match_symbols, lift}

-- A routine calls only routines of a lower rank before it has consumed a token.
abbrev pub rank : Check → ℕ
rank var_def = 1
rank argdef = 1
rank expr1 = 1
rank func = 1
rank argdeflist = 2
rank expr = 2
rank statement = 2
rank for_loop_head = 2
rank program = 2
rank cond = 3
rank fcall_arglist = 3
rank sequence = 3
rank _ = 0

-- The calls of a production while no token is consumed have a rank below `r`.
unfoldable pub descends : ℕ → List Symbol → Bool
descends r [] = true
descends r (terminal k c ∷ syms) = true
descends r (check c ∷ syms) = ltb (rank c) r && (if accepts_empty c then descends r syms else true)

unfoldable pub all_descend : ℕ → List Production → Bool
all_descend r [] = true
all_descend r (prod ty syms ∷ ps) = descends r syms && all_descend r ps

pub productions_descend : (c : Check) → all_descend (rank c) (productions c) ≡ true
unfolding all_descend descends accepts_empty productions
productions_descend program = refl
productions_descend _ = refl

-- A production that matches has consumed a token.
unfoldable pub consumes : List Symbol → Bool
consumes [] = false
consumes (terminal k c ∷ syms) = true
consumes (check c ∷ syms) = if accepts_empty c then consumes syms else true

unfoldable pub all_consume : List Production → Bool
all_consume [] = true
all_consume (prod ty syms ∷ ps) = consumes syms && all_consume ps

pub productions_consume : (c : Check) → accepts_empty c ≡ false → all_consume (productions c) ≡ true
unfolding all_consume consumes accepts_empty productions
productions_consume sequence e = cc
productions_consume fcall_arglist e = cc
productions_consume program e = cc
productions_consume _ e = refl

pub rank-le : (c : Check) → rank c ≤ 3
rank-le var_def = omega arith
rank-le _ = omega arith

-- What is left of `n` tokens is no longer, and shorter where something was found that is not the
-- empty word.
abbrev pub Shortens : {A : Type 0} → ℕ → Bool → Option A → List Token → Type 0
Shortens n empty none ts = length ts ≤ n
Shortens n true (some a) ts = length ts ≤ n
Shortens n false (some a) ts = length ts < n

pub keeps :
    {A : Type 0} (m n : ℕ) (e : Bool) (x : Option A) (ts : List Token)
    → Shortens m e x ts
    → m ≤ n
    → Shortens n e x ts
keeps m n e none ts h le = omega arith
keeps m n true (some a) ts h le = omega arith
keeps m n false (some a) ts h le = omega arith

pub loosens :
    {A : Type 0} (n : ℕ) (e : Bool) (x : Option A) (ts : List Token)
    → Shortens n e x ts
    → Shortens n true x ts
loosens n e none ts h = h
loosens n true (some a) ts h = h
loosens n false (some a) ts h = omega arith

tightens :
    {A : Type 0} (m n : ℕ) (e d : Bool) (x : Option A) (ts : List Token)
    → Shortens m e x ts
    → m < n
    → Shortens n d x ts
tightens m n e d none ts h lt = omega arith
tightens m n true true (some a) ts h lt = omega arith
tightens m n true false (some a) ts h lt = omega arith
tightens m n false true (some a) ts h lt = omega arith
tightens m n false false (some a) ts h lt = omega arith

-- Either a token of `n` has been consumed, or the symbols to come descend.
abbrev pub MayCall : ℕ → ℕ → List Symbol → List Token → Type 0
MayCall n r syms ts = (length ts < n) ⊎ ((length ts ≤ n) × (descends r syms ≡ true))

may_call :
    (n r : ℕ) (c : Check) (syms : List Symbol) (ts : List Token) {bound : ℕ}
    → 4 * n + r ≤ bound
    → MayCall n r (check c ∷ syms) ts
    → 4 * length ts + rank c < bound
unfolding descends
may_call n r c syms ts le h = ground (arith, rank-le c)

still_may :
    (n r : ℕ) (e : Bool) (syms : List Symbol) (ts us : List Token) (x : Node)
    → length ts ≤ n
    → (if e then descends r syms else true) ≡ true
    → Shortens (length ts) e (some x) us
    → MayCall n r syms us
still_may n r true syms ts us x le h k = inr (omega arith, h)
still_may n r false syms ts us x le h k = inl (omega arith)

after_call :
    (n r : ℕ) (c : Check) (syms : List Symbol) (ts us : List Token) (x : Node)
    → MayCall n r (check c ∷ syms) ts
    → Shortens (length ts) (accepts_empty c) (some x) us
    → MayCall n r syms us
unfolding descends
after_call n r c syms ts us x (inl h) sh =
    inl (omega (arith, loosens (length ts) (accepts_empty c) (some x) us sh))
after_call n r c syms ts us x (inr (le, d)) sh =
    still_may n r (accepts_empty c) syms ts us x le (ground arith) sh

-- A production behind a call of `c`.
behind_call :
    {A : Type 0} (n : ℕ) (e : Bool) (rest : Bool) (y : Node) (us : List Token) (x : Option A)
    (ts : List Token)
    → Shortens n e (some y) us
    → Shortens (length us) (not rest) x ts
    → Shortens n (not (if e then rest else true)) x ts
behind_call n true rest y us x ts h k = keeps (length us) n (not rest) x ts k h
behind_call n false rest y us x ts h k = tightens (length us) n (not rest) false x ts k h

module _ {Table : Type 0} where
  abbrev pub Fits : {A : Type 0} → ℕ → Bool → Option A × State Table → Type 0
  Fits n empty (x, s) = Shortens n empty x s.token

  -- `call` keeps within its fuel where the tokens left and the rank stay below a bound.
  abbrev pub Serves : ℕ → (Check → Parse Table (Option Node)) → Type 0
  Serves bound call =
      (c : Check) (s : State Table)
      → 4 * length s.token + rank c < bound
      → Ensures (Fits (length s.token) (accepts_empty c)) (call c s)

  abbrev pub at : List Token → Checks Table → State Table
  at ts c = record { token = ts; checks = c }

  module _ (bound n r : ℕ) (room : 4 * n + r ≤ bound) (call : Check → Parse Table (Option Node))
      (serves : Serves bound call) where
    abbrev pub MatchFits : List Symbol → Type 0
    MatchFits syms =
        (children : List Node) (ts : List Token) (k : Checks Table)
        → MayCall n r syms ts
        → Ensures (Fits (length ts) (not (consumes syms)))
            (match_symbols call syms children ts (at ts k))

    -- The rest of the loop behind a call of `c` at `ts`.
    after_check :
        (c : Check) (syms : List Symbol) (children : List Node) (ts : List Token) (x : Option Node)
        (s : State Table)
        → MatchFits syms
        → MayCall n r (check c ∷ syms) ts
        → Fits (length ts) (accepts_empty c) (x, s)
        → Ensures
            (Fits (length ts) (not (if accepts_empty c then consumes syms else true)))
            (go_on (match_symbols call syms) children x s)
    after_check c syms children ts none s rec h f = returns f
    after_check c syms children ts (some y) s rec h f =
        Ensures-map
          (λ (x, s') g.
            behind_call (length ts) (accepts_empty c) (consumes syms) y s.token x s'.token f g)
          (rec (children ++ y ∷ []) s.token s.checks (after_call n r c syms ts s.token y h f))

    pub match_symbols-Fits : (syms : List Symbol) → MatchFits syms
    unfolding match_symbols consumes
    match_symbols-Fits [] children ts k h = returns (le_refl (length ts))
    match_symbols-Fits (terminal t c ∷ syms) children [] k h = returns (omega arith)
    match_symbols-Fits (terminal t c ∷ syms) children (u ∷ ts) k h =
        let P = λ (m : Parse Table (Option (List Node))).
          Ensures (Fits (suc (length ts)) false) (m (at (u ∷ ts) k)) in
        let made : Ensures (λ r. Unit {0}) (lift (create_child c u children) (at (u ∷ ts) k)) =
          Ensures-then (Ensures-result {P = λ _. Unit {0}} (create_child c u children) (λ _. tt))
            λ a _. returns tt in
        if_holds P (token_eq u.type t)
          (Ensures-then made λ (a, s) e.
            Ensures-map
              (λ (x, s') g.
                tightens (length ts) (suc (length ts)) (not (consumes syms)) false x s'.token g
                  (omega arith))
              (match_symbols-Fits syms a ts s.checks (inl (omega arith))))
          (returns (omega arith))
    match_symbols-Fits (check c ∷ syms) children [] k h = returns (omega arith)
    match_symbols-Fits (check c ∷ syms) children (u ∷ ts) k h =
        Ensures-then (serves c (at (u ∷ ts) k) (may_call n r c syms (u ∷ ts) room h))
          λ (x, s) f. after_check c syms children (u ∷ ts) x s (match_symbols-Fits syms) h f
