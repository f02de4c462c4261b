-- ===== src/Compiler/Driver/Main/Converse.antt =====
-- Where all phases succeed, compiler/compiler.c's main writes the file.
use bispe.Base.{ℕ, ◌≡◌, refl, sym, ap, inl, inr, none, some, Option, List, [], ◌∷◌, Bytes, ok}
use bispe.Compiler.Token.{Token}
use bispe.Compiler.Symbols.{Hashed}
use bispe.Compiler.Ast.Create.{Checks}
use bispe.Compiler.Generator.Defs.{Code}
use bispe.Compiler.Driver.Main.{
  Opt, Options, System, Exit, name_and_write, send_and_write, build_and_write, generate_and_write,
  parse_and_write, tokenize_and_write, read_and_write, main,
}
use bispe.Compiler.Driver.Main.Stages.{Writes, Sends, Builds, Parses, Compiles}

module _ (sys : System) (infile : Bytes) where
  Writes-written :
      (f : Option Bytes) (words : List ℕ) (e : Exit)
      → Writes sys infile f words e
      → name_and_write sys infile words f ≡ ok e
  unfolding name_and_write
  Writes-written (some f) words e (name, n, w, is) = rw is (rw (sym n) (rw w refl))
  Writes-written none words e (name, (block, b, n), w, is) = rw b (rw is (rw (sym n) (rw w refl)))

  module _ (o : Options) where
    Sends-written :
        (words : List ℕ) (e : Exit)
        → Sends sys infile o words e
        → send_and_write sys o infile (some words) ≡ ok e
    unfolding send_and_write
    Sends-written words e (inl (p, w)) = rw p (Writes-written o.out words e w)
    Sends-written words e (inr (encrypted, p, c, w)) =
        rw p (rw c (Writes-written o.out encrypted e w))

    Builds-written :
        (code : List Code) (e : Exit)
        → Builds sys infile o code e
        → build_and_write sys o infile (some code) ≡ ok e
    unfolding build_and_write
    Builds-written [] e (words, ne, quiet, b, w) = absurd (ne refl)
    Builds-written (c ∷ code) e (words, ne, quiet, b, w) = rw quiet (rw b (Sends-written words e w))

    module _ {Table : Type 0} (h : Hashed Table) (checks : Checks Table) where
      Parses-written :
          (tokens : List Token) (e : Exit)
          → Parses sys infile o h checks tokens e
          → parse_and_write h checks sys o infile (some tokens) ≡ ok e
      unfolding parse_and_write generate_and_write
      Parses-written tokens e (ast, st, p, (code, g, b)) = rw p (rw g (Builds-written code e b))

pub Compiles-written :
    {Table : Type 0} (h : Hashed Table) (checks : Checks Table) (sys : System) (opts : List Opt)
    (operands : List Bytes) (e : Exit)
    → Compiles h checks sys opts operands e
    → main h checks sys opts operands ≡ ok e
unfolding main read_and_write tokenize_and_write
Compiles-written h checks sys opts operands e
      (o, infile, rest, fails, file, text, tokens, p, is, f, r, t, w) =
    rw p (rw is (rw f (rw r (rw t (Parses-written sys infile o h checks tokens e w)))))

pub Compiles-status :
    {Table : Type 0} (h : Hashed Table) (checks : Checks Table) (sys : System) (opts : List Opt)
    (operands : List Bytes) (e : Exit)
    → Compiles h checks sys opts operands e
    → e.status ≡ 0
Compiles-status h checks sys opts operands e
      (
        o,
        infile,
        rest,
        fails,
        file,
        text,
        tokens,
        p,
        is,
        f,
        r,
        t,
        (ast, st, q, (code, g, (words, ne, quiet, b, inl (p', (name, n, w, same))))),
      ) =
    ap (λ e. e.status) same
Compiles-status h checks sys opts operands e
      (
        o,
        infile,
        rest,
        fails,
        file,
        text,
        tokens,
        p,
        is,
        f,
        r,
        t,
        (ast, st, q, (code, g, (words, ne, quiet, b, inr (enc, p', c, (name, n, w, same))))),
      ) =
    ap (λ e. e.status) same
