-- ===== src/Compiler/Driver/Main/Stages.antt =====
-- What stands behind a run of compiler/compiler.c's main: the results of its phases, one on the
-- other.
use bispe.Base.{
  ℕ, ◌≡◌, ◌≢◌, refl, ◌⊎◌, Bool, true, false, ◌||◌, Option, none, some, List, [], ◌∷◌, Bytes,
  Outcome, ok, exits, faults, out_of_fuel, then_run, returned, from_result,
}
use bispe.Compiler.Token.{Token}
use bispe.Compiler.Lexer.{tokenize_string}
use bispe.Compiler.Symbols.{Hashed}
use bispe.Compiler.Ast.Nodes.{Node}
use bispe.Compiler.Ast.Create.{Checks}
use bispe.Compiler.Parser.Match.{State, parse_tokenlist}
use bispe.Compiler.Generator.Defs.{Code, generate_code}
use bispe.Compiler.Codebuf.{build_codebuf}
use bispe.Compiler.Driver.{read_file, build_outfile_name}
use bispe.Compiler.Driver.Main.{
  Opt, Options, no_options, parse_options, encrypts, System, Exit, c_string,
}

-- The run ends: it returns an exit status for which `P` holds, or it is broken off, and `C` holds.
abbrev pub Ends : (Outcome Exit → Type 0) → (Exit → Type 0) → Outcome Exit → Type 0
Ends C P (ok e) = P e
Ends C P exits = C exits
Ends C P faults = C faults
Ends C P out_of_fuel = ⊥

-- A routine is broken off, and the run with it, in the same way.
abbrev pub Breaks {ℓ} : {A : Type ℓ} → Outcome A → Outcome Exit → Type 0
Breaks exits exits = Unit
Breaks faults faults = Unit
Breaks r o = ⊥

pub Ends-then {ℓ} :
    {A : Type ℓ} (C : Outcome Exit → Type 0) (P : Exit → Type 0) (r : Outcome A)
    (f : A → Outcome Exit)
    → r ≢ out_of_fuel
    → ((o : Outcome Exit) → Breaks r o → C o)
    → ((a : A) → r ≡ ok a → Ends C P (f a))
    → Ends C P (then_run r f)
Ends-then C P (ok a) f ne b k = k a refl
Ends-then C P exits f ne b k = b exits tt
Ends-then C P faults f ne b k = b faults tt
Ends-then C P out_of_fuel f ne b k = absurd (ne refl)

pub Ends-map :
    (C : Outcome Exit → Type 0) (P Q : Exit → Type 0) (o : Outcome Exit)
    → ((e : Exit) → o ≡ ok e → P e → Q e)
    → Ends C P o
    → Ends C Q o
Ends-map C P Q (ok e) f h = f e refl h
Ends-map C P Q exits f h = h
Ends-map C P Q faults f h = h
Ends-map C P Q out_of_fuel f h = h

-- The compiler has failed and has written nothing.
abbrev pub Fails : Exit → Type 0
Fails e = (e.status ≡ 1) × (e.written ≡ none)

abbrev pub FailsOr : (Exit → Type 0) → Exit → Type 0
FailsOr P e = Fails e ⊎ P e

module _ (sys : System) (infile : Bytes) where
  -- The name that the file gets.
  abbrev pub Named : Option Bytes → Bytes → Type 0
  Named (some f) name = name ≡ f
  Named none name =
      (block : List ℕ) × (build_outfile_name sys.malloc infile ≡ returned (some block))
      × (name ≡ c_string block)

  -- The words are written to the file, which can be opened.
  abbrev pub Writes : Option Bytes → List ℕ → Exit → Type 0
  Writes f words e =
      (name : Bytes) × Named f name
      × (sys.writable name ≡ true)
      × (e ≡ record { status = 0; written = some (name, words) })

  module _ (o : Options) where
    -- The words of the buffer, as they are or encrypted.
    abbrev pub Sends : List ℕ → Exit → Type 0
    Sends words e =
        ((o.plain ≡ true) × Writes o.out words e)
        ⊎ ((encrypted : List ℕ) × (o.plain ≡ false)
            × (sys.crypto words ≡ encrypts encrypted)
            × Writes o.out encrypted e)

    -- There is code, which is not only to be shown; it is built to words, and these are sent.
    abbrev pub Builds : List Code → Exit → Type 0
    Builds code e =
        (words : List ℕ) × (code ≢ [])
        × ((o.show_mnemonics || o.show_opcodes) ≡ false)
        × (build_codebuf sys.malloc sys.random code o.plain ≡ returned (some words))
        × Sends words e

    module _ {Table : Type 0} (h : Hashed Table) (checks : Checks Table) where
      -- The tree and the symbols that the parser leaves are generated to code, and this is built.
      abbrev pub Generates : Node → State Table → Exit → Type 0
      Generates ast st e =
          (code : List Code) × (generate_code h ast st.checks.symbols ≡ returned (some code))
          × Builds code e

      -- The tokens are parsed to a tree.
      abbrev pub Parses : List Token → Exit → Type 0
      Parses tokens e =
          (ast : Node) × (st : State Table) × (parse_tokenlist h tokens checks ≡ ok (some ast, st))
          × Generates ast st e

module _ {Table : Type 0} (h : Hashed Table) (checks : Checks Table) where
  -- The parser is broken off, or the generator on what the parser has left.
  abbrev pub Unfinished : List Token → Outcome Exit → Type 0
  Unfinished tokens o =
      Breaks (parse_tokenlist h tokens checks) o
      ⊎ ((ast : Node) × (st : State Table) × (parse_tokenlist h tokens checks ≡ ok (some ast, st))
          × Breaks (from_result (generate_code h ast st.checks.symbols)) o)

  module _ (sys : System) where
    -- The options are understood, the first operand is a file that is opened and read, and its text
    -- has tokens, for which `K` holds.
    abbrev pub Reads : List Opt → List Bytes → (Options → Bytes → List Token → Type 0) → Type 0
    Reads opts operands K =
        (o : Options) × (infile : Bytes) × (rest : List Bytes) × (fails : Bool) × (file : Bytes)
        × (text : List ℕ) × (tokens : List Token) × (parse_options opts no_options ≡ some o)
        × (operands ≡ infile ∷ rest)
        × (sys.files infile ≡ some (fails, file))
        × (read_file sys.malloc sys.realloc fails file ≡ returned (some text))
        × (tokenize_string (c_string text) ≡ ok (some tokens))
        × K o infile tokens

    -- All phases succeed.
    abbrev pub Compiles : List Opt → List Bytes → Exit → Type 0
    Compiles opts operands e =
        Reads opts operands λ o infile tokens. Parses sys infile o h checks tokens e

    -- The run is broken off in the parser or in the generator, and in none of the other phases.
    abbrev pub BreaksOff : List Opt → List Bytes → Outcome Exit → Type 0
    BreaksOff opts operands out = Reads opts operands λ o infile tokens. Unfinished tokens out

    -- The compiler fails, and not all phases can succeed.
    abbrev pub Refuses : List Opt → List Bytes → Exit → Type 0
    Refuses opts operands e = Fails e × ((e' : Exit) → Compiles opts operands e' → ⊥)
