-- ===== src/Frontend/Arguments.antt =====
-- The options and arguments of frontend/bispe.c, and the password that it reads. getopt's results
-- are a list, and behind them stand the operands.
use bispe.Base.{ℕ, Bool, true, false, Option, none, some, List, [], ◌∷◌, Bytes, ◌==◌, if◌then◌else◌}
use bispe.Frontend.Numbers.{parse_arg, parse_size}

-- What getopt_long finds; `other` is an option that it does not know.
pub data Opt : Type 0 where
  password : Opt
  stack_size call_size print_size instr_per_cycle : Bytes → Opt
  other : Opt

pub record Settings : Type 0 where
  pub set_password : Bool
  pub stack : ℕ
  pub call : ℕ
  pub print : ℕ
  pub ipc : ℕ

-- The settings at the beginning of main; zero stands for the default value.
abbrev pub defaults : Settings
defaults = record { set_password = false; stack = 0; call = 0; print = 40; ipc = 0 }

-- A number, if the whole argument is one.
abbrev pub with_size : Bytes → (ℕ → Settings) → Option Settings
with_size arg f = elim (parse_size arg) [ none ↦ none | some n ↦ some (f n) ]

abbrev pub set_option : Opt → Settings → Option Settings
set_option password s = some (record s { set_password = true })
set_option (stack_size a) s = with_size a λ n. record s { stack = n }
set_option (call_size a) s = with_size a λ n. record s { call = n }
set_option (print_size a) s = with_size a λ n. record s { print = n }
set_option (instr_per_cycle a) s = with_size a λ n. record s { ipc = n }
set_option other s = none

-- The loop over the options; `none` exits.
unfoldable pub parse_options : List Opt → Settings → Option Settings
unfolding parse_size
parse_options [] s = some s
parse_options (o ∷ opts) s = elim (set_option o s) [ none ↦ none | some s' ↦ parse_options opts s' ]

abbrev pub cons_word : ℕ → Option (List ℕ) → Option (List ℕ)
cons_word w none = none
cons_word w (some ws) = some (w ∷ ws)

-- The arguments of the program; `none` exits.
unfoldable pub parse_args : List Bytes → Option (List ℕ)
unfolding parse_arg
parse_args [] = some []
parse_args (a ∷ args) = elim (parse_arg a) [ none ↦ none | some w ↦ cons_word w (parse_args args) ]

-- The loop of read_password over the characters of a line, in a buffer that is not full yet. The
-- byte 255 is taken for EOF, as `char` is signed. Nothing terminates what is read.
unfoldable pub read_password : Bytes → List ℕ → List ℕ
read_password [] buf = buf
read_password (ch ∷ line) [] = []
read_password (ch ∷ line) (b ∷ buf) =
    let rest = read_password line buf in
    if ch == 255 then b ∷ buf else if ch == 10 then b ∷ buf else ch ∷ rest

-- The buffer that read_password leaves, and with `failed` the zeros that replace it.
abbrev pub zeroed : List ℕ → List ℕ
zeroed [] = []
zeroed (b ∷ buf) = 0 ∷ zeroed buf

abbrev pub password_buf : Bool → Bytes → List ℕ → List ℕ
password_buf failed line junk = if failed then zeroed junk else read_password line junk
