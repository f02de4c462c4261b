-- ===== src/Compiler/Codebuf/Layout.antt =====
-- What build_codebuf writes, word by word.
use mathlib.Core.Path.{fun_ext}
use bispe.Base.{
  ℕ, zero, suc, ◌+◌, ◌-◌, ◌%◌, ◌≤◌, ◌≡◌, refl, sym, ap, ◌∙◌, Bool, true, false, Option, none, some,
  List, [], ◌∷◌, ◌++◌, if◌then◌else◌, length, length-append, modify-append, append-nil,
  append_assoc, Result, returned, faulted, bind, arith,
}
use bispe.Compiler.Instr.{instr_info}
use bispe.Compiler.Generator.Defs.{Code}
use bispe.Compiler.Codebuf.{
  Buf, Malloc, Random, bytecode_size, put, put_all, copy_opcodes, buf_size, pad_with, finish_buf,
  start_with, fill_block, build_codebuf,
}

-- The words of an instruction stream.
unfoldable pub encode : List Code → List ℕ
unfolding instr_info
encode [] = []
encode (c ∷ cs) =
    (instr_info c.instr).opcode
    ∷ (if (instr_info c.instr).has_arg then c.arg ∷ encode cs else encode cs)

pub length-encode : (cs : List Code) → length (encode cs) ≡ bytecode_size cs
unfolding encode bytecode_size
length-encode [] = refl
length-encode (c ∷ cs) = ground (arith, length-encode cs)

-- The buffer with the words `xs` written and room for those of `ys`.
abbrev pub filled : List ℕ → List ℕ → Buf
filled xs ys = record { words = xs ++ ys; pos = length xs }

pub put-filled :
    (w : ℕ) (xs : List ℕ) (y : ℕ) (ys : List ℕ)
    → put w (filled xs (y ∷ ys)) ≡ returned (filled (xs ++ w ∷ []) ys)
unfolding put
put-filled w xs y ys = ground (
  arith,
  length-append xs (y ∷ ys),
  length-append xs (w ∷ []),
  modify-append (λ (x : ℕ). w) xs y ys,
  append_assoc xs (w ∷ []) ys,
)

pub put_all-filled :
    (ws xs zs ys : List ℕ)
    → length zs ≡ length ws
    → put_all ws (filled xs (zs ++ ys)) ≡ returned (filled (xs ++ ws) ys)
unfolding put_all
put_all-filled [] xs [] ys h = rw (append-nil xs) refl
put_all-filled [] xs (z ∷ zs) ys h = absurd (omega (arith, h))
put_all-filled (w ∷ ws) xs [] ys h = absurd (omega (arith, h))
put_all-filled (w ∷ ws) xs (z ∷ zs) ys h = rw (put-filled w xs z (zs ++ ys)) (
    put_all-filled ws (xs ++ w ∷ []) zs ys (omega (arith, h))
    ∙ rw (append_assoc xs (w ∷ []) ws) refl)

put_all-append :
    (ws vs : List ℕ) (b : Buf) → put_all (ws ++ vs) b ≡ bind (put_all ws b) (put_all vs)
unfolding put_all
put_all-append [] vs b = refl
put_all-append (w ∷ ws) vs b =
    elim (put w b) as (λ r. bind r (put_all (ws ++ vs)) ≡ bind (bind r (put_all ws)) (put_all vs)) [
      | returned b' ↦ put_all-append ws vs b'
      | Result.exited ↦ refl
      | faulted ↦ refl
    ]

copy_if :
    (a : Bool) (w : ℕ) (cs : List Code) (b : Buf)
    → ((b' : Buf) → copy_opcodes cs b' ≡ put_all (encode cs) b')
    → (if a then bind (put w b) (copy_opcodes cs) else copy_opcodes cs b)
      ≡ put_all (if a then w ∷ encode cs else encode cs) b
unfolding put_all
copy_if true w cs b ih = ap (bind (put w b)) (fun_ext ih)
copy_if false w cs b ih = ih b

-- The second loop of build_codebuf writes the words of the stream in order.
copy_opcodes-lem : (cs : List Code) (b : Buf) → copy_opcodes cs b ≡ put_all (encode cs) b
unfolding copy_opcodes encode put_all
copy_opcodes-lem [] b = refl
copy_opcodes-lem (c ∷ cs) b =
    ap (bind (put (instr_info c.instr).opcode b))
      (fun_ext λ b'. copy_if (instr_info c.instr).has_arg c.arg cs b' (copy_opcodes-lem cs))

-- A list with a prefix of a length that it reaches.
pub split_at :
    (n : ℕ) (ys : List ℕ)
    → n ≤ length ys
    → (zs : List ℕ) × (rest : List ℕ) × (ys ≡ zs ++ rest) × (length zs ≡ n)
split_at zero ys h = ([], ys, refl, refl)
split_at (suc n) [] h = absurd (omega (arith, h))
split_at (suc n) (y ∷ ys) h =
    let (zs, rest, e, l) = split_at n ys (omega (arith, h)) in
    (y ∷ zs, rest, ap (◌∷◌ y) e, ap suc l)

-- A list with words in front, if there is one.
abbrev pub behind : List ℕ → Option (List ℕ) → Option (List ℕ)
behind xs none = none
behind xs (some ws) = some (xs ++ ws)

-- The words behind the initialisation vector `iv`.
abbrev pub file_from : Random → List Code → List ℕ → Option (List ℕ)
file_from random head iv =
    behind (iv ++ encode head ++ 1 ∷ []) (random 1 (3 - bytecode_size head % 4))

abbrev pub encrypted_file : Random → List Code → Option (List ℕ) → Option (List ℕ)
encrypted_file random head none = none
encrypted_file random head (some iv) = file_from random head iv

-- The file's words: the vector unless it is unencrypted, the instructions, the instruction
-- `finish`, and padding up to a multiple of four words.
abbrev pub code_file : Random → List Code → Bool → Option (List ℕ) → Option (List ℕ)
code_file random head unencrypted none = none
code_file random head true (some block) = file_from random head []
code_file random head false (some block) = encrypted_file random head (random 0 4)

-- The allocator and the device deliver as many words as they are asked for.
abbrev pub IsMalloc : Malloc → Type 0
IsMalloc malloc = (n : ℕ) (block : List ℕ) → malloc n ≡ some block → length block ≡ n

abbrev pub IsRandom : Random → Type 0
IsRandom random = (k n : ℕ) (ws : List ℕ) → random k n ≡ some ws → length ws ≡ n

pad_with-filled :
    (r : Option (List ℕ)) (xs ys : List ℕ)
    → ((ws : List ℕ) → r ≡ some ws → length ws ≡ length ys)
    → pad_with r (filled xs ys) ≡ returned (behind xs r)
pad_with-filled none xs ys h = refl
pad_with-filled (some ws) xs ys h =
    let e : put_all ws (filled xs (ys ++ [])) ≡ returned (filled (xs ++ ws) []) =
      put_all-filled ws xs ys [] (sym (h ws refl)) in
    let e' : put_all ws (filled xs ys) ≡ returned (filled (xs ++ ws) []) =
      rw (append-nil ys) at (e) in
    rw e' (rw (append-nil (xs ++ ws)) refl)

-- The last instruction and the padding.
last-filled :
    (random : Random) (n : ℕ) (xs ys : List ℕ)
    → IsRandom random
    → length ys ≡ 4 - n % 4
    → bind (put 1 (filled xs ys)) (λ b. pad_with (random 1 (length b.words - b.pos)) b)
      ≡ returned (behind (xs ++ 1 ∷ []) (random 1 (3 - n % 4)))
last-filled random n xs [] law h = absurd (omega (arith, h))
last-filled random n xs (y ∷ ys) law h =
    let l : length ys ≡ 3 - n % 4 = omega (arith, h) in
    let e : length ((xs ++ 1 ∷ []) ++ ys) - length (xs ++ 1 ∷ []) ≡ 3 - n % 4 =
      omega (arith, l, length-append (xs ++ 1 ∷ []) ys) in
    rw (put-filled 1 xs y ys) (
      rw e (
        pad_with-filled (random 1 (3 - n % 4)) (xs ++ 1 ∷ []) ys
          λ ws p. law 1 (3 - n % 4) ws p ∙ sym l))

finish_buf-filled :
    (random : Random) (head : List Code) (iv rest : List ℕ)
    → IsRandom random
    → length rest ≡ bytecode_size head + (4 - bytecode_size head % 4)
    → finish_buf random head (filled iv rest) ≡ returned (file_from random head iv)
unfolding finish_buf instr_info
finish_buf-filled random head iv rest law h =
    let (zs, ys, e, l) = split_at (bytecode_size head) rest (omega (arith, h)) in
    rw e (
      rw (copy_opcodes-lem head (filled iv (zs ++ ys))) (
        rw (put_all-filled (encode head) iv zs ys (l ∙ sym (length-encode head))) (
          last-filled random (bytecode_size head) (iv ++ encode head) ys law
            (omega (arith, h, l, ap length e, length-append zs ys)))))

start_with-filled :
    (random : Random) (head : List Code) (r : Option (List ℕ)) (block : List ℕ)
    → IsRandom random
    → ((ws : List ℕ) → r ≡ some ws → length ws ≡ 4)
    → length block ≡ bytecode_size head + (4 - bytecode_size head % 4) + 4
    → start_with random head r (filled [] block) ≡ returned (encrypted_file random head r)
start_with-filled random head none block law four h = refl
start_with-filled random head (some iv) block law four h =
    let (zs, ys, e, l) = split_at 4 block (omega (arith, h)) in
    rw e (
      rw (put_all-filled iv [] zs ys (l ∙ sym (four iv refl))) (
        finish_buf-filled random head iv ys law
          (omega (arith, h, l, ap length e, length-append zs ys))))

fill_block_lem :
    (random : Random) (head : List Code) (unencrypted : Bool) (m : Option (List ℕ))
    → IsRandom random
    → ((block : List ℕ) → m ≡ some block → length block ≡ buf_size head unencrypted)
    → fill_block random head unencrypted m ≡ returned (code_file random head unencrypted m)
unfolding fill_block buf_size
fill_block_lem random head unencrypted none law h = refl
fill_block_lem random head true (some block) law h =
    finish_buf-filled random head [] block law (h block refl)
fill_block_lem random head false (some block) law h =
    start_with-filled random head (random 0 4) block law (law 0 4) (h block refl)

-- If `malloc` and the random device deliver as many words as they are asked for, build_codebuf
-- writes nothing outside its buffer and reads nothing that is not there, and it returns exactly
-- the words of the file: unless it is unencrypted four words of initialisation vector, then the
-- instructions, each opcode followed by its argument if it has one, then the instruction
-- `finish`, then the padding; or NULL, where `malloc` or the device has failed.
pub build_codebuf_lem :
    (malloc : Malloc) (random : Random) (head : List Code) (unencrypted : Bool)
    → IsMalloc malloc
    → IsRandom random
    → build_codebuf malloc random head unencrypted
      ≡ returned (code_file random head unencrypted (malloc (buf_size head unencrypted)))
unfolding build_codebuf
build_codebuf_lem malloc random head unencrypted hm hr =
    fill_block_lem random head unencrypted (malloc (buf_size head unencrypted)) hr
      (hm (buf_size head unencrypted))
