-- ===== src/Correct/Semantics.antt =====
-- What statements do: variables by position, and the words that are printed.
use bispe.Base.{
  ℕ, ◌+◌, ◌*◌, ◌<◌, ◌≡◌, Bool, true, false, Option, some, List, [], ◌∷◌, ◌++◌, ◌==◌, if◌then◌else◌,
}
use bispe.Compiler.Symbols.{VarRef}
use bispe.Compiler.Generator.Exprs.{Expr, identifier}
use bispe.Compiler.Generator.Jumps.{Cmp}
use bispe.Compiler.Generator.Stmts.{Stmt, skip, assign, print, seq, if_then, if_else, while}
use bispe.Correct.Exprs.{InFrame, both, depth, eval}
use bispe.Correct.Jumps.{holds}

-- The values of the variables.
abbrev pub Vars : Type 0
Vars = ℕ → ℕ

abbrev pub write : Vars → ℕ → ℕ → Vars
write vars p v q = if p == q then v else vars q

module _ (pos : VarRef → ℕ) where
  abbrev pub value_of : Vars → Expr → Option ℕ
  value_of vars e = eval (λ r. vars (pos r)) e

  abbrev pub test_of : Vars → Cmp → Expr → Expr → Option Bool
  test_of vars c a b = both (value_of vars a) (value_of vars b) λ x y. some (holds c x y)

  -- A statement, begun with the variables `vars`, ends with `vars'` and has printed `ws`.
  pub data Executes : Stmt → Vars → List ℕ → Vars → Type 0 where
    of_skip :
        {vars vars' : Vars} {ws : List ℕ} → ws ≡ [] → vars' ≡ vars → Executes skip vars ws vars'
    of_assign :
        {r : VarRef} {e : Expr} {vars vars' : Vars} {ws : List ℕ} {v : ℕ}
        → value_of vars e ≡ some v
        → ws ≡ []
        → vars' ≡ write vars (pos r) v
        → Executes (assign r e) vars ws vars'
    of_print :
        {e : Expr} {vars vars' : Vars} {ws : List ℕ} {v : ℕ}
        → value_of vars e ≡ some v
        → ws ≡ v ∷ []
        → vars' ≡ vars
        → Executes (print e) vars ws vars'
    of_seq :
        {s t : Stmt} {vars vars' vars'' : Vars} {ws us vs : List ℕ}
        → Executes s vars us vars'
        → Executes t vars' vs vars''
        → ws ≡ us ++ vs
        → Executes (seq s t) vars ws vars''
    of_if_then :
        {c : Cmp} {a b : Expr} {s : Stmt} {vars vars' : Vars} {ws : List ℕ}
        → test_of vars c a b ≡ some true
        → Executes s vars ws vars'
        → Executes (if_then c a b s) vars ws vars'
    of_if_not :
        {c : Cmp} {a b : Expr} {s : Stmt} {vars vars' : Vars} {ws : List ℕ}
        → test_of vars c a b ≡ some false
        → ws ≡ []
        → vars' ≡ vars
        → Executes (if_then c a b s) vars ws vars'
    of_if_first :
        {c : Cmp} {a b : Expr} {s t : Stmt} {vars vars' : Vars} {ws : List ℕ}
        → test_of vars c a b ≡ some true
        → Executes s vars ws vars'
        → Executes (if_else c a b s t) vars ws vars'
    of_if_second :
        {c : Cmp} {a b : Expr} {s t : Stmt} {vars vars' : Vars} {ws : List ℕ}
        → test_of vars c a b ≡ some false
        → Executes t vars ws vars'
        → Executes (if_else c a b s t) vars ws vars'
    of_while_end :
        {c : Cmp} {a b : Expr} {s : Stmt} {vars vars' : Vars} {ws : List ℕ}
        → test_of vars c a b ≡ some false
        → ws ≡ []
        → vars' ≡ vars
        → Executes (while c a b s) vars ws vars'
    of_while_turn :
        {c : Cmp} {a b : Expr} {s : Stmt} {vars vars' vars'' : Vars} {ws us vs : List ℕ}
        → test_of vars c a b ≡ some true
        → Executes s vars us vars'
        → Executes (while c a b s) vars' vs vars''
        → ws ≡ us ++ vs
        → Executes (while c a b s) vars ws vars''

  -- All variables of a statement are in the frame.
  abbrev pub StmtInFrame : ℕ → Stmt → Type 0
  StmtInFrame k skip = Unit
  StmtInFrame k (assign r e) = InFrame pos k (identifier r) × InFrame pos k e
  StmtInFrame k (print e) = InFrame pos k e
  StmtInFrame k (seq s t) = StmtInFrame k s × StmtInFrame k t
  StmtInFrame k (if_then c a b s) = InFrame pos k a × InFrame pos k b × StmtInFrame k s
  StmtInFrame k (if_else c a b s t) =
      InFrame pos k a × InFrame pos k b × StmtInFrame k s × StmtInFrame k t
  StmtInFrame k (while c a b s) = InFrame pos k a × InFrame pos k b × StmtInFrame k s

-- A stack with `size` bytes has room for a statement at the word `p`.
abbrev pub StmtFits : ℕ → ℕ → Stmt → Type 0
StmtFits size p skip = Unit
StmtFits size p (assign r e) = 4 * (p + depth e) < size
StmtFits size p (print e) = 4 * (p + depth e) < size
StmtFits size p (seq s t) = StmtFits size p s × StmtFits size p t
StmtFits size p (if_then c a b s) =
    (4 * (p + depth a) < size) × (4 * (p + 1 + depth b) < size) × StmtFits size p s
StmtFits size p (if_else c a b s t) =
    (4 * (p + depth a) < size)
    × (4 * (p + 1 + depth b) < size)
    × StmtFits size p s
    × StmtFits size p t
StmtFits size p (while c a b s) =
    (4 * (p + depth a) < size) × (4 * (p + 1 + depth b) < size) × StmtFits size p s
