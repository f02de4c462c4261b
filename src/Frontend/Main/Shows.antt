-- ===== src/Frontend/Main/Shows.antt =====
-- What the frontend shows of a program.
use bispe.Base.{
  if_holds', ℕ, zero, suc, ◌+◌, ◌*◌, ◌/◌, ◌%◌, ◌^◌, ◌≤◌, ◌≡◌, refl, ◌⊎◌, inl, inr, Bool, true,
  false, Option, none, some, List, [], ◌∷◌, Bytes, codes, get_elem?, get_elem?-some, get_elem?-lt,
  length, Result, returned, bind, ℤ, pos, negsuc, arith,
}
use bispe.Backend.Vm.Defs.{
  Error, inv_opcode, jmp_bounds, stack_overflow, stack_underflow, call_overflow, call_underflow,
  div_zero, arg_range, error_code,
}
use bispe.Compiler.Codebuf.{Buf}
use bispe.Compiler.Codebuf.Layout.{IsMalloc, filled}
use bispe.Compiler.Driver.{file_bufsize, read_loop}
use bispe.Compiler.Driver.Names.{take-append}
use bispe.Compiler.Driver.Reads.{IsRealloc, Fails, Loads, read_loop-Loads}
use bispe.Frontend.Arguments.{Opt, Settings, defaults, parse_options, parse_args}
use bispe.Frontend.Main.{
  Request, Reply, System, Message, quiet, known, unknown, Report, error_code_strings,
  error_help_strings, message_at, message_of, overlay, show_words, failing, show_result, show_put,
  show_reply, request_of, invoke_with, execute_read, execute_into, execute, main,
}

-- The names of the interpreter's errors.
abbrev pub name_of : Error → Bytes
name_of inv_opcode = codes "illegal opcode"
name_of jmp_bounds = codes "invalid jump target"
name_of stack_overflow = codes "stack overflow"
name_of stack_underflow = codes "stack underflow"
name_of call_overflow = codes "call stack overflow"
name_of call_underflow = codes "call stack underflow"
name_of div_zero = codes "division by zero"
name_of arg_range = codes "argument out of range"

-- For the code of each error that the interpreter ends with, the message has that code and the
-- error's name, from the tables of the frontend, and none of them is unknown to it.
pub message_of-error_code :
    (e : Error)
    → (help : Option Bytes) × (message_of (pos (error_code e))
        ≡ returned (known (error_code e) (name_of e) help))
unfolding message_of error_code
message_of-error_code inv_opcode = (some (codes "Check if the correct password is set."), refl)
message_of-error_code jmp_bounds = (none, refl)
message_of-error_code stack_overflow =
    (some (codes "Try to increase the stack size with --stack-size."), refl)
message_of-error_code stack_underflow = (none, refl)
message_of-error_code call_overflow =
    (some (codes "Try to increase the call stack size with --call-size."), refl)
message_of-error_code call_underflow = (none, refl)
message_of-error_code div_zero = (none, refl)
message_of-error_code arg_range = (some (codes "Try to supply more command line arguments."), refl)

-- The words at the beginning of the output buffer are shown.
show_words-overlay :
    (ws block : List ℕ)
    → length ws ≤ length block
    → show_words (length ws) (overlay ws block) ≡ returned ws
unfolding show_words overlay
show_words-overlay [] block h = refl
show_words-overlay (w ∷ ws) [] h = absurd (omega (arith, h))
show_words-overlay (w ∷ ws) (b ∷ block) h = rw (show_words-overlay ws block (omega (arith, h))) refl

-- There are as many help messages as names.
message_at_total :
    (n : ℕ) (name : Option Bytes) (help : Option (Option Bytes))
    → ((x : Bytes) → name ≡ some x → (y : Option Bytes) × (help ≡ some y))
    → (m : Message) × (message_at n name help ≡ returned m)
message_at_total n none help h = (unknown n, refl)
message_at_total n (some name) help h = let (y, e) = h name refl in rw e (known n name y, refl)

message_of_total : (r : ℤ) → (m : Message) × (message_of r ≡ returned m)
unfolding message_of
message_of_total (negsuc n) = (quiet, refl)
message_of_total (pos zero) = (quiet, refl)
message_of_total (pos (suc n)) =
    message_at_total (suc n) (get_elem? error_code_strings (suc n))
      (get_elem? error_help_strings (suc n))
      λ x e. get_elem?-some error_help_strings (suc n) (get_elem?-lt error_code_strings (suc n) e)

-- What the kernel module promises: it writes whole words, and no more than there is room for.
abbrev pub IsBackend : (Request → Option Reply) → Type 0
IsBackend invoke =
    (r : Request) (reply : Reply)
    → invoke r ≡ some reply
    → (4 * length reply.output ≡ reply.written) × (reply.written ≤ r.out_size)

-- An output buffer of `n` bytes has a fourth as many words.
abbrev pub IsPrintBlock : (ℕ → Option (List ℕ)) → Type 0
IsPrintBlock print_block =
    (n : ℕ) (block : List ℕ) → print_block n ≡ some block → length block ≡ n / 4

-- Why the frontend fails behind its options: the file, memory, or the kernel module, which does not
-- answer, or has put no number or -1.
pub data Obstacle (sys : System) (s : Settings) (file : Bytes) (args : List ℕ) (fails : Bool)
    : Type 0 where
  not_read : fails ≡ true → Obstacle sys s file args fails
  no_buffer : sys.malloc (file_bufsize + 1) ≡ none → Obstacle sys s file args fails
  no_growth : Fails sys.realloc → Obstacle sys s file args fails
  no_print_block : sys.print_block (s.print * 4 % 2 ^ 64) ≡ none → Obstacle sys s file args fails
  no_answer : sys.invoke (request_of s file args) ≡ none → Obstacle sys s file args fails
  not_put :
      {reply : Reply}
      → sys.invoke (request_of s file args) ≡ some reply
      → (reply.result ≡ none) ⊎ (reply.result ≡ some (negsuc 0))
      → Obstacle sys s file args fails

-- The frontend has failed for such a reason, and shows neither words nor an error of the interpreter.
abbrev pub Refused : System → Settings → Bytes → List ℕ → Bool → Report → Type 0
Refused sys s file args fails r =
    (r.status ≡ 1) × (r.words ≡ []) × (r.message ≡ quiet) × Obstacle sys s file args fails

-- The kernel module has run the program in `file` with the arguments, and what it has put and
-- written is shown.
abbrev pub Executed : System → Settings → Bytes → List ℕ → Bool → Report → Type 0
Executed sys s file args fails r =
    (reply : Reply) × (result : ℤ) × (sys.invoke (request_of s file args) ≡ some reply)
    × (reply.result ≡ some result)
    × (fails ≡ false)
    × (r.status ≡ 0)
    × (message_of result ≡ returned r.message)
    × (r.words ≡ reply.output)

abbrev pub Reports :
    System → Settings → Option (List ℕ) → Bytes → List ℕ → Bool → Result Report → Type 0
Reports sys s stored file args fails o =
    (r : Report) × (o ≡ returned r)
    × (r.stored ≡ stored)
    × (Refused sys s file args fails r ⊎ Executed sys s file args fails r)

module _ (sys : System) (s : Settings) (stored : Option (List ℕ)) (args : List ℕ) (file : Bytes)
    (fails : Bool) where
  refusal : Obstacle sys s file args fails → Reports sys s stored file args fails (failing stored)
  refusal why = (
    record { status = 1; stored = stored; message = quiet; words = [] },
    refl,
    refl,
    inl (refl, refl, refl, why),
  )

  show_result-Reports :
      (block : List ℕ) (reply : Reply) (result : ℤ)
      → sys.invoke (request_of s file args) ≡ some reply
      → reply.result ≡ some result
      → 4 * length reply.output ≡ reply.written
      → length reply.output ≤ length block
      → fails ≡ false
      → Reports sys s stored file args fails (show_result stored reply block result)
  unfolding show_result
  show_result-Reports block reply result invoked put words room whole =
      let (m, e) = message_of_total result in
      let count : reply.written / 4 ≡ length reply.output = omega (arith, words) in
      rw e (
        rw count (
          rw (show_words-overlay reply.output block room) (
            record { status = 0; stored = stored; message = m; words = reply.output },
            refl,
            refl,
            inr (reply, result, invoked, put, whole, refl, e, refl),
          )))

  show_put-Reports :
      (block : List ℕ) (reply : Reply) (put : Option ℤ)
      → sys.invoke (request_of s file args) ≡ some reply
      → reply.result ≡ put
      → 4 * length reply.output ≡ reply.written
      → length reply.output ≤ length block
      → fails ≡ false
      → Reports sys s stored file args fails (show_put stored reply block put)
  unfolding show_put
  show_put-Reports block reply none e p words room whole = refusal (Obstacle.not_put e (inl p))
  show_put-Reports block reply (some (negsuc zero)) e p words room whole =
      refusal (Obstacle.not_put e (inr p))
  show_put-Reports block reply (some (negsuc (suc n))) e p words room whole =
      show_result-Reports block reply (negsuc (suc n)) e p words room whole
  show_put-Reports block reply (some (pos n)) e p words room whole =
      show_result-Reports block reply (pos n) e p words room whole

  -- The kernel module, and the memory, keep their promises.
  module _ (backend : IsBackend sys.invoke) (blocks : IsPrintBlock sys.print_block) where
    show_reply-Reports :
        (block : List ℕ) (o : Option Reply)
        → fails ≡ false
        → length block ≡ s.print * 4 % 2 ^ 64 / 4
        → sys.invoke (request_of s file args) ≡ o
        → Reports sys s stored file args fails (show_reply stored block o)
    show_reply-Reports block none whole len e = refusal (Obstacle.no_answer e)
    show_reply-Reports block (some reply) whole len e =
        let (words, fits) = backend (request_of s file args) reply e in
        show_put-Reports block reply reply.result e refl words (omega (arith, len, words, fits))
          whole

    invoke_with-Reports :
        (o : Option (List ℕ))
        → fails ≡ false
        → sys.print_block (s.print * 4 % 2 ^ 64) ≡ o
        → Reports sys s stored file args fails (invoke_with sys s stored file args o)
    invoke_with-Reports none whole e = refusal (Obstacle.no_print_block e)
    invoke_with-Reports (some block) whole e =
        show_reply-Reports block (sys.invoke (request_of s file args)) whole
          (blocks (s.print * 4 % 2 ^ 64) block e) refl

    loaded-Reports :
        (b : Bool) (r : Result (Option Buf))
        → fails ≡ b
        → Loads sys.realloc file r
        → Reports sys s stored file args fails (bind r (execute_read sys s stored args b))
    loaded-Reports b r is (inl (e, f)) = rw e (refusal (Obstacle.no_growth f))
    loaded-Reports true r is (inr (rest, room, e)) = rw e (refusal (Obstacle.not_read is))
    loaded-Reports false r is (inr (rest, room, e)) = rw e (
        rw (take-append file rest)
          (invoke_with-Reports (sys.print_block (s.print * 4 % 2 ^ 64)) is refl))

    execute_into-Reports :
        (m : Option (List ℕ))
        → IsRealloc sys.realloc
        → sys.malloc (file_bufsize + 1) ≡ m
        → ((block : List ℕ) → m ≡ some block → length block ≡ file_bufsize + 1)
        → Reports sys s stored file args fails (execute_into sys s stored args fails file m)
    execute_into-Reports none law e len = refusal (Obstacle.no_buffer e)
    execute_into-Reports (some block) law e len =
        loaded-Reports fails (read_loop sys.realloc file (file_bufsize + 1) (filled [] block)) refl
          (read_loop-Loads sys.realloc file [] block (file_bufsize + 1) law
            (omega (arith, len block refl)) (omega (arith, len block refl)))

-- Let the frontend be called without `-p`, with options that it understands, with a file that can be
-- opened and arguments that are numbers; let memory be as it is asked for, and let the kernel module
-- write whole words and no more than the output buffer has room for. Then the frontend reads nothing
-- from outside its buffers and stores no password. Either it fails with the status 1 and shows no
-- words and no error of the interpreter; then the file could not be read, there was no memory, or the
-- kernel module has not answered or has put no number or -1. Or the kernel module has run exactly the
-- bytes of the file with the words of the arguments, and the status is 0, the words that are shown
-- are those that the kernel module has written, and the message is that of its result.
pub main-Reports :
    (sys : System) (opts : List Opt) (infile : Bytes) (operands : List Bytes) (s : Settings)
    (args : List ℕ) (fails : Bool) (file : Bytes)
    → IsBackend sys.invoke
    → IsPrintBlock sys.print_block
    → IsMalloc sys.malloc
    → IsRealloc sys.realloc
    → parse_options opts defaults ≡ some s
    → s.set_password ≡ false
    → parse_args operands ≡ some args
    → sys.files infile ≡ some (fails, file)
    → Reports sys s none file args fails (main sys opts (infile ∷ operands))
unfolding main execute
main-Reports sys opts infile operands s args fails file backend blocks hm hr options no_password
      numbers opened =
    rw options (
      rw numbers (
        if_holds' (Reports sys s none file args fails) s.set_password (λ asked. cc)
          (λ h. rw opened (
            execute_into-Reports sys s none args file fails backend blocks
              (sys.malloc (file_bufsize + 1)) hr refl (hm (file_bufsize + 1))))))
