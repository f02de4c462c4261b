-- ===== src/Compiler/Codebuf.antt =====
-- build_codebuf of compiler/generator.c: the words of the bytecode file. The buffer is written
-- with bounds; the allocator and the random device are parameters. Sizes, `int` in C, do not
-- overflow.
pub mod Layout
pub mod Size
use bispe.Base.{
  ℕ, ◌+◌, ◌-◌, ◌*◌, ◌%◌, Bool, Option, none, some, List, [], ◌∷◌, ◌++◌, if◌then◌else◌, ltb, length,
  modify, Result, returned, faulted, bind,
}
use bispe.Compiler.Instr.{instr_info, instr_finish, width}
use bispe.Compiler.Generator.Defs.{Code}

-- The buffer, and the position of the next word.
pub record Buf : Type 0 where
  pub words : List ℕ
  pub pos : ℕ

-- `malloc` of a number of words: the words that the block holds, or NULL.
abbrev pub Malloc : Type 0
Malloc = ℕ → Option (List ℕ)

-- The random device at its `n`th use: `none` where it cannot be read.
abbrev pub Random : Type 0
Random = ℕ → ℕ → Option (List ℕ)

-- The first loop.
unfoldable pub bytecode_size : List Code → ℕ
unfolding instr_info
bytecode_size [] = 0
bytecode_size (c ∷ cs) =
    if (instr_info c.instr).has_arg then 2 + bytecode_size cs else 1 + bytecode_size cs

-- `buf[pos++] = w`
unfoldable pub put : ℕ → Buf → Result Buf
put w b =
    if ltb b.pos (length b.words)
    then returned (record { words = modify (λ x. w) b.words b.pos; pos = b.pos + 1 })
    else faulted

-- Several words at the position, as `read` stores them.
unfoldable pub put_all : List ℕ → Buf → Result Buf
unfolding put
put_all [] b = returned b
put_all (w ∷ ws) b = bind (put w b) (put_all ws)

-- The second loop.
unfoldable pub copy_opcodes : List Code → Buf → Result Buf
unfolding put instr_info
copy_opcodes [] b = returned b
copy_opcodes (c ∷ cs) b = bind (put (instr_info c.instr).opcode b) λ b.
    if (instr_info c.instr).has_arg then bind (put c.arg b) (copy_opcodes cs) else copy_opcodes cs b

-- The number of words of the buffer.
unfoldable pub buf_size : List Code → Bool → ℕ
unfolding bytecode_size
buf_size head unencrypted =
    let size = bytecode_size head in
    let rounded = size + (4 - size % 4) in if unencrypted then rounded else rounded + 4

-- The words that the device has delivered, at the end.
abbrev pub pad_with : Option (List ℕ) → Buf → Result (Option (List ℕ))
pad_with none b = returned none
pad_with (some ws) b = bind (put_all ws b) λ b. returned (some b.words)

-- The instructions, the last one, and random words up to the end.
unfoldable pub finish_buf : Random → List Code → Buf → Result (Option (List ℕ))
unfolding copy_opcodes put put_all instr_info
finish_buf random head b = bind (copy_opcodes head b) λ b.
    bind (put (instr_info instr_finish).opcode b)
      λ b. pad_with (random 1 (length b.words - b.pos)) b

-- The initialisation vector goes first.
abbrev pub start_with : Random → List Code → Option (List ℕ) → Buf → Result (Option (List ℕ))
start_with random head none b = returned none
start_with random head (some ws) b = bind (put_all ws b) (finish_buf random head)

-- The work behind `malloc`.
unfoldable pub fill_block : Random → List Code → Bool → Option (List ℕ) → Result (Option (List ℕ))
unfolding finish_buf put_all
fill_block random head unencrypted none = returned none
fill_block random head unencrypted (some block) =
    let b : Buf = record { words = block; pos = 0 } in
    if unencrypted then finish_buf random head b else start_with random head (random 0 4) b

-- `none` is a NULL result.
unfoldable pub build_codebuf : Malloc → Random → List Code → Bool → Result (Option (List ℕ))
unfolding buf_size fill_block
build_codebuf malloc random head unencrypted =
    fill_block random head unencrypted (malloc (buf_size head unencrypted))
