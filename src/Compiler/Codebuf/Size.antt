-- ===== src/Compiler/Codebuf/Size.antt =====
-- The number of words that build_codebuf returns.
use bispe.Base.{
  ℕ, ◌+◌, ◌-◌, ◌%◌, ◌≤◌, ◌≡◌, refl, ap, Bool, true, false, Option, none, some, List, [], ◌∷◌, ◌++◌,
  if◌then◌else◌, length, length-append, returned, arith,
}
use bispe.Compiler.Generator.Defs.{Code}
use bispe.Compiler.Codebuf.{Malloc, Random, bytecode_size, buf_size, build_codebuf}
use bispe.Compiler.Codebuf.Layout.{
  encode, length-encode, behind, file_from, encrypted_file, code_file, IsMalloc, IsRandom,
  build_codebuf_lem,
}

buf_size-bounds :
    (head : List Code) (unencrypted : Bool)
    → (buf_size head unencrypted % 4 ≡ 0)
      × (((if unencrypted then 1 else 5) + bytecode_size head) ≤ buf_size head unencrypted)
unfolding buf_size
buf_size-bounds head true = (omega arith, omega arith)
buf_size-bounds head false = (omega arith, omega arith)

behind-length :
    (xs : List ℕ) (r : Option (List ℕ)) (n : ℕ) (ws : List ℕ)
    → ((pad : List ℕ) → r ≡ some pad → length pad ≡ n)
    → behind xs r ≡ some ws
    → length ws ≡ length xs + n
behind-length xs none n ws law e = absurd (cc)
behind-length xs (some pad) n ws law e =
    let e' : xs ++ pad ≡ ws = cc in omega (arith, ap length e', length-append xs pad, law pad refl)

file_from-length :
    (random : Random) (head : List Code) (iv ws : List ℕ)
    → IsRandom random
    → file_from random head iv ≡ some ws
    → length ws ≡ length iv + bytecode_size head + (4 - bytecode_size head % 4)
file_from-length random head iv ws law e =
    let xs : List ℕ = iv ++ encode head ++ 1 ∷ [] in
    omega (
      arith,
      behind-length xs (random 1 (3 - bytecode_size head % 4)) (3 - bytecode_size head % 4) ws
          (law 1 (3 - bytecode_size head % 4)) e,
      length-append (iv ++ encode head) (1 ∷ []),
      length-append iv (encode head),
      length-encode head,
    )

encrypted_file-length :
    (random : Random) (head : List Code) (r : Option (List ℕ)) (ws : List ℕ)
    → IsRandom random
    → ((iv : List ℕ) → r ≡ some iv → length iv ≡ 4)
    → encrypted_file random head r ≡ some ws
    → length ws ≡ bytecode_size head + (4 - bytecode_size head % 4) + 4
encrypted_file-length random head none ws law four e = absurd (cc)
encrypted_file-length random head (some iv) ws law four e =
    omega (arith, file_from-length random head iv ws law e, four iv refl)

code_file-length :
    (random : Random) (head : List Code) (unencrypted : Bool) (m : Option (List ℕ)) (ws : List ℕ)
    → IsRandom random
    → code_file random head unencrypted m ≡ some ws
    → length ws ≡ buf_size head unencrypted
unfolding buf_size
code_file-length random head unencrypted none ws law e = absurd (cc)
code_file-length random head true (some block) ws law e =
    omega (arith, file_from-length random head [] ws law e)
code_file-length random head false (some block) ws law e =
    encrypted_file-length random head (random 0 4) ws law (law 0 4) e

-- If `malloc` and the random device deliver as many words as they are asked for, the words that
-- build_codebuf returns are as many as the length that it reports, which is a multiple of four
-- (a whole number of encrypted lines), at least one word more than the bytecode, and four more
-- than that where there is an initialisation vector.
pub build_codebuf-length :
    (malloc : Malloc) (random : Random) (head : List Code) (unencrypted : Bool) (ws : List ℕ)
    → IsMalloc malloc
    → IsRandom random
    → build_codebuf malloc random head unencrypted ≡ returned (some ws)
    → (length ws ≡ buf_size head unencrypted)
      × (length ws % 4 ≡ 0)
      × (((if unencrypted then 1 else 5) + bytecode_size head) ≤ length ws)
build_codebuf-length malloc random head unencrypted ws hm hr e =
    let f : code_file random head unencrypted (malloc (buf_size head unencrypted)) ≡ some ws =
      cc (build_codebuf_lem malloc random head unencrypted hm hr) in
    let l = code_file-length random head unencrypted (malloc (buf_size head unencrypted)) ws hr f in
    let (aligned, room) = buf_size-bounds head unencrypted in
    (l, omega (arith, l, aligned), omega (arith, l, room))
