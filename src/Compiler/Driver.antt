-- ===== src/Compiler/Driver.antt =====
-- read_file and build_outfile_name of compiler/compiler.c: a source file in a buffer that grows,
-- and the name of the output file. Allocation is a parameter, and so is what the stream delivers:
-- its bytes, and whether it failed behind them.
pub mod Reads
pub mod Names
pub mod Main
use bispe.Base.{
  zero, suc, ◌++◌, codes, length, ℕ, ◌+◌, ◌*◌, Bool, Option, none, some, List, [], ◌∷◌, Bytes, ◌==◌,
  if◌then◌else◌, Result, returned, bind,
}
use bispe.Compiler.Codebuf.{Buf, Malloc, put, put_all}

-- `realloc` of a block to a number of bytes: the new block, or NULL.
abbrev pub Realloc : Type 0
Realloc = ℕ → List ℕ → Option (List ℕ)

-- FILE_BUFSIZE
abbrev pub file_bufsize : ℕ
file_bufsize = 256

-- The loop goes on in the new block, unless there is none.
abbrev pub grown : Option (List ℕ) → (Buf → Result (Option Buf)) → Buf → Result (Option Buf)
grown none k b = returned none
grown (some block) k b = k (record b { words = block })

-- The loop of `read_file`.
unfoldable pub read_loop : Realloc → Bytes → ℕ → Buf → Result (Option Buf)
unfolding put
read_loop realloc [] size b = returned (some b)
read_loop realloc (ch ∷ s) size b = bind (put ch b) λ b.
    let larger = grown (realloc (size * 2) b.words) (read_loop realloc s (size * 2)) b in
    let same = read_loop realloc s size b in if b.pos == size then larger else same

-- The end of `read_file`.
abbrev pub terminated : Bool → Option Buf → Result (Option (List ℕ))
terminated failed none = returned none
terminated failed (some b) =
    if failed then returned none else bind (put 0 b) λ b. returned (some b.words)

-- The rest of `read_file` behind the first `malloc`.
abbrev pub read_into : Realloc → Bool → Bytes → Option (List ℕ) → Result (Option (List ℕ))
read_into realloc failed file none = returned none
read_into realloc failed file (some block) =
    bind (read_loop realloc file (file_bufsize + 1) (record { words = block; pos = 0 }))
      (terminated failed)

-- `none` is a NULL result.
unfoldable pub read_file : Malloc → Realloc → Bool → Bytes → Result (Option (List ℕ))
unfolding read_loop put
read_file malloc realloc failed file = read_into realloc failed file (malloc (file_bufsize + 1))

-- The loop of `build_outfile_name`: the position of the last dot.
unfoldable pub find_dot : Bytes → ℕ → Option ℕ → Option ℕ
find_dot [] pos last_dot = last_dot
find_dot (c ∷ infile) pos last_dot =
    find_dot infile (pos + 1) (if c == b'.' then some pos else last_dot)

-- Where the extension begins, or the end of the name.
abbrev pub stem_length : Bytes → ℕ
stem_length infile = elim (find_dot infile 0 none) [ none ↦ length infile | some d ↦ d ]

abbrev pub take : ℕ → List ℕ → List ℕ
take zero xs = []
take (suc n) [] = []
take (suc n) (x ∷ xs) = x ∷ take n xs

-- The two copies, behind `malloc`.
abbrev pub copy_name : ℕ → Bytes → Option (List ℕ) → Result (Option (List ℕ))
copy_name last_dot infile none = returned none
copy_name last_dot infile (some block) =
    bind (put_all (take last_dot infile) (record { words = block; pos = 0 }))
      λ b. bind (put_all (codes ".scle" ++ 0 ∷ []) b) λ b. returned (some b.words)

-- `none` is a NULL result.
unfoldable pub build_outfile_name : Malloc → Bytes → Result (Option (List ℕ))
unfolding find_dot put_all
build_outfile_name malloc infile =
    copy_name (stem_length infile) infile (malloc (stem_length infile + 6))
