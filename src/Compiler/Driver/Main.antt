-- ===== src/Compiler/Driver/Main.antt =====
-- main of compiler/compiler.c: the options, the phases in their order, and what each failure leaves.
-- What the system answers is a parameter; getopt's results are a list, and behind them stand the
-- operands.
pub mod Stages
pub mod Converse
pub mod Building
pub mod Phases
use bispe.Base.{
  ℕ, zero, suc, Bool, true, false, ◌||◌, Option, none, some, List, [], ◌∷◌, Bytes, codes, str_eq,
  ◌==◌, if◌then◌else◌, Outcome, ok, then_run, from_result,
}
use bispe.Compiler.Token.{Token}
use bispe.Compiler.Lexer.{tokenize_string}
use bispe.Compiler.Symbols.{Hashed}
use bispe.Compiler.Ast.Nodes.{Node}
use bispe.Compiler.Ast.Create.{Checks}
use bispe.Compiler.Parser.Match.{State, parse_tokenlist}
use bispe.Compiler.Generator.Defs.{Code, generate_code}
use bispe.Compiler.Codebuf.{Malloc, Random, build_codebuf}
use bispe.Compiler.Driver.{Realloc, read_file, build_outfile_name}

-- What getopt finds; `other` is an option that it does not know.
pub data Opt : Type 0 where
  outfile : Bytes → Opt
  show : Option Bytes → Opt
  unencrypted : Opt
  other : Opt

pub record Options : Type 0 where
  pub out : Option Bytes
  pub show_mnemonics : Bool
  pub show_opcodes : Bool
  pub plain : Bool

-- The options at the beginning of main.
abbrev pub no_options : Options
no_options = record { out = none; show_mnemonics = false; show_opcodes = false; plain = false }

-- The argument of `-s`.
abbrev pub showing : Option Bytes → Options → Options
showing none o = record o { show_mnemonics = true }
showing (some a) o =
    if str_eq a (codes "op") || str_eq a (codes "opcodes")
    then record o { show_opcodes = true }
    else record o { show_mnemonics = true }

-- The loop over the options; `none` prints the usage.
unfoldable pub parse_options : List Opt → Options → Option Options
parse_options [] o = some o
parse_options (outfile f ∷ opts) o = parse_options opts (record o { out = some f })
parse_options (show a ∷ opts) o = parse_options opts (showing a o)
parse_options (unencrypted ∷ opts) o = parse_options opts (record o { plain = true })
parse_options (other ∷ opts) o = none

-- What the kernel module answers to a buffer: it is not there, it fails, or it encrypts in place.
pub data Crypto : Type 0 where
  unreachable refuses : Crypto
  encrypts : List ℕ → Crypto

-- The files by name, each with whether reading it fails, and which files can be written.
pub record System : Type 0 where
  pub files : Bytes → Option (Bool × Bytes)
  pub malloc : Malloc
  pub realloc : Realloc
  pub random : Random
  pub crypto : List ℕ → Crypto
  pub writable : Bytes → Bool

-- The exit status, and the file that was written, if one was.
pub record Exit : Type 0 where
  pub status : ℕ
  pub written : Option (Bytes × List ℕ)

abbrev pub failure : Exit
failure = record { status = 1; written = none }

-- A string is read up to its terminating zero.
unfoldable pub c_string : List ℕ → Bytes
c_string [] = []
c_string (c ∷ s) = if c == 0 then [] else c ∷ c_string s

-- write_outfile; the result of fwrite is not looked at.
abbrev pub write_outfile : System → Bytes → List ℕ → Exit
write_outfile sys name words =
    if sys.writable name then record { status = 0; written = some (name, words) } else failure

-- Behind build_outfile_name.
abbrev pub write_named : System → List ℕ → Option (List ℕ) → Exit
write_named sys words none = failure
write_named sys words (some name) = write_outfile sys (c_string name) words

-- With the words of the file: its name is that of the option, or is built.
unfoldable pub name_and_write : System → Bytes → List ℕ → Option Bytes → Outcome Exit
unfolding build_outfile_name c_string
name_and_write sys infile words (some name) = ok (write_outfile sys name words)
name_and_write sys infile words none =
    then_run (from_result (build_outfile_name sys.malloc infile)) λ r. ok (write_named sys words r)

-- Behind write_sys.
abbrev pub behind_crypto : System → Options → Bytes → Crypto → Outcome Exit
behind_crypto sys o infile unreachable = ok failure
behind_crypto sys o infile refuses = ok failure
behind_crypto sys o infile (encrypts words) = name_and_write sys infile words o.out

-- Behind build_codebuf.
unfoldable pub send_and_write : System → Options → Bytes → Option (List ℕ) → Outcome Exit
unfolding name_and_write
send_and_write sys o infile none = ok failure
send_and_write sys o infile (some words) =
    if o.plain
    then name_and_write sys infile words o.out
    else behind_crypto sys o infile (sys.crypto words)

-- Behind generate_code. An empty list is NULL. After the code is printed, the status is still 1.
unfoldable pub build_and_write : System → Options → Bytes → Option (List Code) → Outcome Exit
unfolding send_and_write build_codebuf
build_and_write sys o infile none = ok failure
build_and_write sys o infile (some []) = ok failure
build_and_write sys o infile (some (c ∷ code)) =
    if o.show_mnemonics || o.show_opcodes
    then ok failure
    else then_run (from_result (build_codebuf sys.malloc sys.random (c ∷ code) o.plain))
        (send_and_write sys o infile)

module _ {Table : Type 0} (h : Hashed Table) (checks : Checks Table) where
  -- Behind parse_tokenlist.
  unfoldable pub generate_and_write :
      System → Options → Bytes → Option Node × State Table → Outcome Exit
  unfolding build_and_write generate_code
  generate_and_write sys o infile (none, st) = ok failure
  generate_and_write sys o infile (some ast, st) =
      then_run (from_result (generate_code h ast st.checks.symbols)) (build_and_write sys o infile)

  -- Behind tokenize_string.
  unfoldable pub parse_and_write : System → Options → Bytes → Option (List Token) → Outcome Exit
  unfolding generate_and_write parse_tokenlist
  parse_and_write sys o infile none = ok failure
  parse_and_write sys o infile (some tokens) =
      then_run (parse_tokenlist h tokens checks) (generate_and_write sys o infile)

  -- Behind read_file.
  unfoldable pub tokenize_and_write : System → Options → Bytes → Option (List ℕ) → Outcome Exit
  unfolding parse_and_write tokenize_string c_string
  tokenize_and_write sys o infile none = ok failure
  tokenize_and_write sys o infile (some text) =
      then_run (tokenize_string (c_string text)) (parse_and_write sys o infile)

  -- Behind fopen.
  unfoldable pub read_and_write : System → Options → Bytes → Option (Bool × Bytes) → Outcome Exit
  unfolding tokenize_and_write read_file
  read_and_write sys o infile none = ok failure
  read_and_write sys o infile (some (fails, file)) =
      then_run (from_result (read_file sys.malloc sys.realloc fails file))
        (tokenize_and_write sys o infile)

  -- Behind the options.
  abbrev pub with_operands : System → List Bytes → Option Options → Outcome Exit
  with_operands sys operands none = ok failure
  with_operands sys [] (some o) = ok failure
  with_operands sys (infile ∷ operands) (some o) = read_and_write sys o infile (sys.files infile)

  unfoldable pub main : System → List Opt → List Bytes → Outcome Exit
  unfolding read_and_write parse_options
  main sys opts operands = with_operands sys operands (parse_options opts no_options)
