-- ===== src/Frontend/Main.antt =====
-- main of frontend/bispe.c, with what it shows. What the system answers is a parameter.
pub mod Shows
use bispe.Base.{
  ℕ, zero, suc, ◌+◌, ◌*◌, ◌/◌, ◌%◌, ◌^◌, Bool, true, false, ◌&&◌, not, Option, none, some, List, [],
  ◌∷◌, Bytes, codes, ltb, ◌==◌, if◌then◌else◌, get_elem?, is_empty, Result, returned, faulted, bind,
  ℤ, pos, negsuc,
}
use bispe.Compiler.Codebuf.{Buf, Malloc}
use bispe.Compiler.Driver.{Realloc, file_bufsize, read_loop, take}
use bispe.Frontend.Arguments.{
  Opt, Settings, defaults, parse_options, parse_args, read_password, password_buf,
}

-- What goes to the kernel module with `struct invoke_ctx`: the numbers, and what its pointers point
-- to, the bytes of the code and the words of the arguments; `out_size` is that of the output buffer.
pub record Request : Type 0 where
  pub stack_size : ℕ
  pub call_size : ℕ
  pub ipc : ℕ
  pub code : Bytes
  pub args : List ℕ
  pub out_size : ℕ

-- What comes back: the result of `write`, the words at the beginning of the output buffer, and the
-- number at `result`, if one was put there.
pub record Reply : Type 0 where
  pub written : ℕ
  pub output : List ℕ
  pub result : Option ℤ

-- Files by name, each with whether reading it fails; memory, that of the output buffer in words; the
-- lines that are typed, of which the second may fail; the bytes of the buffer for a password
-- before it is written to; whether a password is stored; and the kernel module, if it is there.
pub record System : Type 0 where
  pub files : Bytes → Option (Bool × Bytes)
  pub malloc : Malloc
  pub realloc : Realloc
  pub print_block : ℕ → Option (List ℕ)
  pub answer : Option Bytes
  pub password : Bytes
  pub password_fails : Bool
  pub junk : List ℕ
  pub store : List ℕ → Bool
  pub invoke : Request → Option Reply

-- The error that is shown: its code, its name, and a help message; `unknown` has no name.
pub data Message : Type 0 where
  quiet : Message
  known : ℕ → Bytes → Option Bytes → Message
  unknown : ℕ → Message

pub record Report : Type 0 where
  pub status : ℕ
  pub stored : Option (List ℕ)
  pub message : Message
  pub words : List ℕ

abbrev pub error_code_strings : List Bytes
error_code_strings =
    []
    ∷ codes "illegal opcode"
    ∷ codes "invalid jump target"
    ∷ codes "stack overflow"
    ∷ codes "stack underflow"
    ∷ codes "call stack overflow"
    ∷ codes "call stack underflow"
    ∷ codes "division by zero"
    ∷ codes "argument out of range"
    ∷ []

abbrev pub error_help_strings : List (Option Bytes)
error_help_strings =
    none
    ∷ some (codes "Check if the correct password is set.")
    ∷ none
    ∷ some (codes "Try to increase the stack size with --stack-size.")
    ∷ none
    ∷ some (codes "Try to increase the call stack size with --call-size.")
    ∷ none
    ∷ none
    ∷ some (codes "Try to supply more command line arguments.")
    ∷ []

abbrev pub message_at : ℕ → Option Bytes → Option (Option Bytes) → Result Message
message_at n none help = returned (unknown n)
message_at n (some name) none = faulted
message_at n (some name) (some help) = returned (known n name help)

-- The message for a result that is greater than zero.
unfoldable pub message_of : ℤ → Result Message
message_of (negsuc n) = returned quiet
message_of (pos zero) = returned quiet
message_of (pos (suc n)) =
    message_at (suc n) (get_elem? error_code_strings (suc n)) (get_elem? error_help_strings (suc n))

-- The output buffer behind the copy.
unfoldable pub overlay : List ℕ → List ℕ → List ℕ
overlay [] block = block
overlay (w ∷ ws) [] = []
overlay (w ∷ ws) (b ∷ block) = w ∷ overlay ws block

-- The loop that prints words; to read behind the buffer is a fault.
unfoldable pub show_words : ℕ → List ℕ → Result (List ℕ)
show_words zero buf = returned []
show_words (suc n) [] = faulted
show_words (suc n) (w ∷ buf) = bind (show_words n buf) λ ws. returned (w ∷ ws)

abbrev pub failing : Option (List ℕ) → Result Report
failing stored = returned (record { status = 1; stored = stored; message = quiet; words = [] })

-- With a result that was put.
unfoldable pub show_result : Option (List ℕ) → Reply → List ℕ → ℤ → Result Report
unfolding message_of show_words overlay
show_result stored reply block result = bind (message_of result) λ message.
    bind (show_words (reply.written / 4) (overlay reply.output block))
      λ words. returned (record { status = 0; stored = stored; message = message; words = words })

-- The result is -1 beforehand.
unfoldable pub show_put : Option (List ℕ) → Reply → List ℕ → Option ℤ → Result Report
unfolding show_result
show_put stored reply block none = failing stored
show_put stored reply block (some (negsuc zero)) = failing stored
show_put stored reply block (some (negsuc (suc n))) =
    show_result stored reply block (negsuc (suc n))
show_put stored reply block (some (pos n)) = show_result stored reply block (pos n)

-- Behind write_sys.
abbrev pub show_reply : Option (List ℕ) → List ℕ → Option Reply → Result Report
show_reply stored block none = failing stored
show_reply stored block (some reply) = show_put stored reply block reply.result

-- The structure for the kernel module. The options are cut to `unsigned int`.
abbrev pub request_of : Settings → Bytes → List ℕ → Request
request_of s code args = record {
  stack_size = s.stack % 2 ^ 32;
  call_size = s.call % 2 ^ 32;
  ipc = s.ipc % 2 ^ 32;
  code = code;
  args = args;
  out_size = s.print * 4 % 2 ^ 64;
}

-- Behind the second malloc.
abbrev pub invoke_with :
    System → Settings → Option (List ℕ) → Bytes → List ℕ → Option (List ℕ) → Result Report
invoke_with sys s stored code args none = failing stored
invoke_with sys s stored code args (some block) =
    show_reply stored block (sys.invoke (request_of s code args))

-- Behind the loop of read_file: the bytes that were read.
abbrev pub execute_read :
    System → Settings → Option (List ℕ) → List ℕ → Bool → Option Buf → Result Report
execute_read sys s stored args fails none = failing stored
execute_read sys s stored args fails (some buf) =
    if fails
    then failing stored
    else invoke_with sys s stored (take buf.pos buf.words) args
        (sys.print_block (s.print * 4 % 2 ^ 64))

-- Behind the first malloc.
abbrev pub execute_into :
    System → Settings → Option (List ℕ) → List ℕ → Bool → Bytes → Option (List ℕ) → Result Report
execute_into sys s stored args fails file none = failing stored
execute_into sys s stored args fails file (some block) =
    bind (read_loop sys.realloc file (file_bufsize + 1) (record { words = block; pos = 0 }))
      (execute_read sys s stored args fails)

-- Behind fopen.
unfoldable pub execute :
    System → Settings → Option (List ℕ) → List ℕ → Option (Bool × Bytes) → Result Report
unfolding read_loop show_put
execute sys s stored args none = failing stored
execute sys s stored args (some (fails, file)) =
    execute_into sys s stored args fails file (sys.malloc (file_bufsize + 1))

-- The file is the first operand. With a password and without operands the program ends.
abbrev pub execute_operand :
    System → Settings → Option (List ℕ) → List ℕ → List Bytes → Result Report
execute_operand sys s stored args [] =
    returned (record { status = 0; stored = stored; message = quiet; words = [] })
execute_operand sys s stored args (infile ∷ operands) = execute sys s stored args (sys.files infile)

abbrev pub begins_with_y : Option Bytes → Bool
begins_with_y none = false
begins_with_y (some []) = false
begins_with_y (some (c ∷ line)) = c == b'y'

-- The password is asked for, and stored. Where reading it fails, this is only said.
unfoldable pub set_password : System → Settings → List ℕ → List Bytes → Result Report
unfolding read_password execute
set_password sys s args operands =
    let pw = password_buf sys.password_fails sys.password sys.junk in
    if not (begins_with_y sys.answer)
    then failing none
    else if sys.store pw
    then execute_operand sys s (some pw) args operands
    else failing none

-- Behind the arguments.
abbrev pub with_args : System → Settings → List Bytes → Option (List ℕ) → Result Report
with_args sys s operands none = failing none
with_args sys s operands (some args) =
    if s.set_password
    then set_password sys s args operands
    else execute_operand sys s none args operands

-- The operands behind the file.
abbrev pub behind_file : List Bytes → List Bytes
behind_file [] = []
behind_file (infile ∷ args) = args

-- Behind the options.
abbrev pub with_settings : System → List Bytes → Option Settings → Result Report
with_settings sys operands none = failing none
with_settings sys operands (some s) =
    if is_empty operands && not s.set_password
    then failing none
    else with_args sys s operands (parse_args (behind_file operands))

unfoldable pub main : System → List Opt → List Bytes → Result Report
unfolding set_password execute parse_args parse_options
main sys opts operands = with_settings sys operands (parse_options opts defaults)
