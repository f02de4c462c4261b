-- ===== src/Compiler/Driver/Main/Phases.antt =====
-- How a run of compiler/compiler.c's main ends.
use bispe.Base.{
  ℕ, ◌≡◌, refl, sym, ap, ◌∙◌, ◌⊎◌, inl, inr, Bool, Option, none, some, List, [], ◌∷◌, Bytes,
  Outcome, ok, returned, from_result, arith,
}
use bispe.Compiler.Token.{Token}
use bispe.Compiler.Lexer.{tokenize_string}
use bispe.Compiler.Lexer.Total.{tokenize_string_total}
use bispe.Compiler.Symbols.{Hashed}
use bispe.Compiler.Ast.Nodes.{Node}
use bispe.Compiler.Ast.Create.{Checks}
use bispe.Compiler.Parser.Match.{State, parse_tokenlist}
use bispe.Compiler.Parser.Ends.{parse_tokenlist-ne-out_of_fuel}
use bispe.Compiler.Generator.Defs.{Code, generate_code}
use bispe.Compiler.Codebuf.Layout.{IsMalloc, IsRandom}
use bispe.Compiler.Driver.{read_file}
use bispe.Compiler.Driver.Reads.{IsRealloc, read_file-IsRead}
use bispe.Compiler.Driver.Main.{
  Opt, Options, no_options, parse_options, System, Exit, c_string, build_and_write,
  generate_and_write, parse_and_write, tokenize_and_write, read_and_write, with_operands, main,
}
use bispe.Compiler.Driver.Main.Stages.{
  Ends, Ends-then, Ends-map, FailsOr, Builds, Generates, Parses, Unfinished, Compiles, BreaksOff,
  Refuses,
}
use bispe.Compiler.Driver.Main.Converse.{Compiles-written, Compiles-status}
use bispe.Compiler.Driver.Main.Building.{
  no_file, from_result-ne-out_of_fuel, from_result-returned, FailsOr-map, build_and_write-Builds,
}

ok-injective : {e e' : Exit} → ok e ≡ ok e' → e ≡ e'
ok-injective p = cc

-- `C` is what holds of a run that is broken off.
module _ (C : Outcome Exit → Type 0) (sys : System) (hm : IsMalloc sys.malloc)
    (hd : IsRandom sys.random) (infile : Bytes) (o : Options) where
  module _ {Table : Type 0} (h : Hashed Table) (checks : Checks Table) where
    generated :
        (ast : Node) (st : State Table) (c : Option (List Code))
        → generate_code h ast st.checks.symbols ≡ returned c
        → Ends C (FailsOr (Generates sys infile o h checks ast st)) (build_and_write sys o infile c)
    unfolding build_and_write
    generated ast st none e = (inl no_file)
    generated ast st (some code) e =
        FailsOr-map C (Builds sys infile o code) (Generates sys infile o h checks ast st)
          (build_and_write sys o infile (some code)) (λ x w. (code, e, w))
          (build_and_write-Builds C sys hm hd infile o code)

    -- A run that is broken off in the parser or in the generator satisfies `C`.
    module _ (tokens : List Token)
        (broken : (out : Outcome Exit) → Unfinished h checks tokens out → C out) where
      parsed :
          (r : Option Node × State Table)
          → parse_tokenlist h tokens checks ≡ ok r
          → Ends C
              (FailsOr (Parses sys infile o h checks tokens))
              (generate_and_write h checks sys o infile r)
      unfolding generate_and_write
      parsed (none, st) e = (inl no_file)
      parsed (some ast, st) e =
          let generator = generate_code h ast st.checks.symbols in
          Ends-then C (FailsOr (Parses sys infile o h checks tokens)) (from_result generator)
            (build_and_write sys o infile) (from_result-ne-out_of_fuel generator)
            (λ out b. broken out (inr (ast, st, e, b)))
            λ c g.
              FailsOr-map C (Generates sys infile o h checks ast st)
                (Parses sys infile o h checks tokens) (build_and_write sys o infile c)
                (λ x w. (ast, st, e, w)) (generated ast st c (from_result-returned generator c g))

      tokenized :
          Ends C
            (FailsOr (Parses sys infile o h checks tokens))
            (parse_and_write h checks sys o infile (some tokens))
      unfolding parse_and_write
      tokenized =
          Ends-then C (FailsOr (Parses sys infile o h checks tokens))
            (parse_tokenlist h tokens checks) (generate_and_write h checks sys o infile)
            (parse_tokenlist-ne-out_of_fuel h tokens checks) (λ out b. broken out (inl b)) parsed

module _ {Table : Type 0} (h : Hashed Table) (checks : Checks Table) (sys : System)
    (hm : IsMalloc sys.malloc) (hr : IsRealloc sys.realloc) (hd : IsRandom sys.random)
    (opts : List Opt) (operands : List Bytes) where
  -- How the run ends behind the text of the file, if what comes next leads to these.
  EndsAs : Outcome Exit → Type 0
  EndsAs =
      Ends (BreaksOff h checks sys opts operands) (FailsOr (Compiles h checks sys opts operands))

  tokenized_as :
      (o : Options) (infile : Bytes) (rest : List Bytes) (fails : Bool) (file : Bytes)
      (text : List ℕ) (t : Option (List Token))
      → parse_options opts no_options ≡ some o
      → operands ≡ infile ∷ rest
      → sys.files infile ≡ some (fails, file)
      → read_file sys.malloc sys.realloc fails file ≡ returned (some text)
      → tokenize_string (c_string text) ≡ ok t
      → EndsAs (parse_and_write h checks sys o infile t)
  unfolding parse_and_write EndsAs
  tokenized_as o infile rest fails file text none p is f r t = inl no_file
  tokenized_as o infile rest fails file text (some tokens) p is f r t =
      FailsOr-map (BreaksOff h checks sys opts operands) (Parses sys infile o h checks tokens)
        (Compiles h checks sys opts operands) (parse_and_write h checks sys o infile (some tokens))
        (λ x w. (o, infile, rest, fails, file, text, tokens, p, is, f, r, t, w))
        (tokenized (BreaksOff h checks sys opts operands) sys hm hd infile o h checks tokens
          λ out b. (o, infile, rest, fails, file, text, tokens, p, is, f, r, t, b))

  read_as :
      (o : Options) (infile : Bytes) (rest : List Bytes) (fails : Bool) (file : Bytes)
      (q : Option (List ℕ))
      → parse_options opts no_options ≡ some o
      → operands ≡ infile ∷ rest
      → sys.files infile ≡ some (fails, file)
      → read_file sys.malloc sys.realloc fails file ≡ returned q
      → EndsAs (tokenize_and_write h checks sys o infile q)
  unfolding tokenize_and_write EndsAs
  read_as o infile rest fails file none p is f r = inl no_file
  read_as o infile rest fails file (some text) p is f r =
      let (t, e) = tokenize_string_total (c_string text) in
      rw e (tokenized_as o infile rest fails file text t p is f r e)

  opened_as :
      (o : Options) (infile : Bytes) (rest : List Bytes) (found : Option (Bool × Bytes))
      → parse_options opts no_options ≡ some o
      → operands ≡ infile ∷ rest
      → sys.files infile ≡ found
      → EndsAs (read_and_write h checks sys o infile found)
  unfolding read_and_write EndsAs
  opened_as o infile rest none p is f = inl no_file
  opened_as o infile rest (some (fails, file)) p is f =
      let (q, e, r) = read_file-IsRead sys.malloc sys.realloc fails file hm hr in
      rw e (read_as o infile rest fails file q p is f e)

  with_operands_as :
      (names : List Bytes) (r : Option Options)
      → operands ≡ names
      → parse_options opts no_options ≡ r
      → EndsAs (with_operands h checks sys names r)
  unfolding EndsAs
  with_operands_as names none is p = inl no_file
  with_operands_as [] (some o) is p = inl no_file
  with_operands_as (infile ∷ rest) (some o) is p =
      opened_as o infile rest (sys.files infile) p is refl

  main_as : EndsAs (main h checks sys opts operands)
  unfolding main
  main_as = with_operands_as operands (parse_options opts no_options) refl refl

  -- A failure rules out that all phases succeed.
  Refuses-Compiles :
      (e : Exit)
      → main h checks sys opts operands ≡ ok e
      → FailsOr (Compiles h checks sys opts operands) e
      → Refuses h checks sys opts operands e ⊎ Compiles h checks sys opts operands e
  Refuses-Compiles e is (inl (status, written)) = inl (
    (status, written),
    λ e' compiles.
        let same : e ≡ e' =
          ok-injective (sym is ∙ Compiles-written h checks sys opts operands e' compiles) in
        omega (
          arith,
          status,
          ap (λ e. e.status) same,
          Compiles-status h checks sys opts operands e' compiles,
        ),
  )
  Refuses-Compiles e is (inr compiles) = inr compiles

  -- If malloc, realloc and the random device deliver as many words as they are asked for, every run of
  -- the compiler, whatever its input is, ends in one of three ways. It returns the status 0, and all
  -- phases have succeeded, each on what the one before has returned: the options are understood, the
  -- file is read, the text up to its first zero is tokenized, the tokens are parsed, the tree is
  -- generated to code with the symbols that the parser leaves, and the code, which is not only to
  -- be shown, is built to words; these are written, encrypted by the kernel module unless the option
  -- `-u` is given, to one file, under the name of the option or the one built of the input's name. Or
  -- it returns the status 1 and has written no file, and not all phases can succeed. Or, behind the
  -- reading of tokens, the parser, or the generator on the parser's tree, exits or dereferences NULL,
  -- and the run is broken off in the same way; no other phase does that.
  pub main-Compiles :
      Ends
        (BreaksOff h checks sys opts operands)
        (λ e. Refuses h checks sys opts operands e ⊎ Compiles h checks sys opts operands e)
        (main h checks sys opts operands)
  unfolding EndsAs
  main-Compiles =
      Ends-map (BreaksOff h checks sys opts operands)
        (FailsOr (Compiles h checks sys opts operands))
        (λ e. Refuses h checks sys opts operands e ⊎ Compiles h checks sys opts operands e)
        (main h checks sys opts operands) Refuses-Compiles main_as
