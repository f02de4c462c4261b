-- ===== src/Compiler/Driver/Reads.antt =====
-- What read_file reads.
use mathlib.Core.Path.{subst}
use bispe.Base.{
  ℕ, ◌+◌, ◌*◌, ◌<◌, ◌≤◌, ◌≡◌, refl, sym, ap, ◌∙◌, ◌⊎◌, inl, inr, Bool, true, false, Option, none,
  some, List, [], ◌∷◌, ◌++◌, append-nil, append_assoc, Bytes, ◌==◌, length, length-append, Result,
  returned, bind, arith,
}
use bispe.Compiler.Codebuf.{Buf, Malloc}
use bispe.Compiler.Codebuf.Layout.{IsMalloc, filled, put-filled}
use bispe.Compiler.Driver.{
  Realloc, file_bufsize, grown, read_loop, terminated, read_into, read_file,
}

-- A block that is not smaller begins with the old one, and has the size that was asked for.
abbrev pub IsRealloc : Realloc → Type 0
IsRealloc realloc =
    (n : ℕ) (old block : List ℕ)
    → length old ≤ n
    → realloc n old ≡ some block
    → (rest : List ℕ) × (block ≡ old ++ rest) × (length block ≡ n)

-- Some `realloc` has failed.
abbrev pub Fails : Realloc → Type 0
Fails realloc = (n : ℕ) × (old : List ℕ) × (realloc n old ≡ none)

-- The loop ended without memory, or with all bytes and room behind them.
abbrev pub Loads : Realloc → Bytes → Result (Option Buf) → Type 0
Loads realloc s r =
    ((r ≡ returned none) × Fails realloc)
    ⊎ ((rest : List ℕ) × (0 < length rest) × (r ≡ returned (some (filled s rest))))

-- A full buffer grows.
grown-Loads :
    (realloc : Realloc) (old : List ℕ) (o : Option (List ℕ)) (k : Buf → Result (Option Buf))
    (xs t : Bytes) (n : ℕ)
    → realloc n old ≡ o
    → length xs < n
    → ((block : List ℕ)
        → o ≡ some block
        → (rest : List ℕ) × (block ≡ (xs ++ []) ++ rest) × (length block ≡ n))
    → ((rest : List ℕ)
        → length xs + length rest ≡ n
        → 0 < length rest
        → Loads realloc t (k (filled xs rest)))
    → Loads realloc t (grown o k (filled xs []))
grown-Loads realloc old none k xs t n e more law next = inl (refl, (n, old, e))
grown-Loads realloc old (some block) k xs t n q more law next =
    let (rest, e, l) = law block refl in
    let e' : block ≡ xs ++ rest = e ∙ ap (λ zs. zs ++ rest) (append-nil xs) in
    let len : length xs + length rest ≡ n = omega (arith, l, ap length e', length-append xs rest) in
    subst (λ zs. Loads realloc t (k (record { words = zs; pos = length xs }))) (sym e')
      (next rest len (omega (arith, len, more)))

pub read_loop-Loads :
    (realloc : Realloc) (s xs ys : List ℕ) (size : ℕ)
    → IsRealloc realloc
    → length xs + length ys ≡ size
    → 0 < length ys
    → Loads realloc (xs ++ s) (read_loop realloc s size (filled xs ys))
unfolding read_loop
read_loop-Loads realloc [] xs ys size law len room =
    inr (ys, room, ap (λ zs. returned (some (filled zs ys))) (sym (append-nil xs)))
read_loop-Loads realloc (ch ∷ s) xs [] size law len room = absurd (omega (arith, room))
read_loop-Loads realloc (ch ∷ s) xs (y ∷ []) size law len room =
    let xs' : Bytes = xs ++ ch ∷ [] in
    let l : length xs' ≡ size = omega (arith, length-append xs (ch ∷ []), len) in
    let full : (length xs' == size) ≡ true = ground (arith, l) in
    rw (put-filled ch xs y []) (
      rw full (
        subst
          (λ t. Loads realloc t (
            grown (realloc (size * 2) (xs' ++ [])) (read_loop realloc s (size * 2))
              (filled xs' [])))
          (append_assoc xs (ch ∷ []) s)
          (grown-Loads realloc (xs' ++ []) (realloc (size * 2) (xs' ++ []))
            (read_loop realloc s (size * 2)) xs' (xs' ++ s) (size * 2) refl (omega (arith, l, len))
            (λ block e.
              law (size * 2) (xs' ++ []) block (omega (arith, l, ap length (append-nil xs'))) e)
            λ rest len' room'. read_loop-Loads realloc s xs' rest (size * 2) law len' room')))
read_loop-Loads realloc (ch ∷ s) xs (y ∷ (y' ∷ ys)) size law len room =
    let xs' : Bytes = xs ++ ch ∷ [] in
    let l : length xs' + length (y' ∷ ys) ≡ size = omega (arith, length-append xs (ch ∷ []), len) in
    let space : (length xs' == size) ≡ false = ground (arith, l) in
    rw (put-filled ch xs y (y' ∷ ys)) (
      rw space (
        subst (λ t. Loads realloc t (read_loop realloc s size (filled xs' (y' ∷ ys))))
          (append_assoc xs (ch ∷ []) s)
          (read_loop-Loads realloc s xs' (y' ∷ ys) size law l (omega arith))))

-- NULL where the stream or an allocation has failed, or a buffer that holds the file and a zero
-- behind it.
abbrev pub IsRead : Malloc → Realloc → Bool → Bytes → Option (List ℕ) → Type 0
IsRead malloc realloc failed file none =
    (failed ≡ true) ⊎ ((malloc (file_bufsize + 1) ≡ none) ⊎ Fails realloc)
IsRead malloc realloc failed file (some buf) =
    (failed ≡ false) × (rest : List ℕ) × (buf ≡ file ++ 0 ∷ rest)

terminated-IsRead :
    (malloc : Malloc) (realloc : Realloc) (failed : Bool) (file : Bytes) (r : Result (Option Buf))
    → Loads realloc file r
    → (q : Option (List ℕ)) × (bind r (terminated failed) ≡ returned q)
      × IsRead malloc realloc failed file q
terminated-IsRead malloc realloc failed file r (inl (e, f)) = rw e (none, refl, inr (inr f))
terminated-IsRead malloc realloc true file r (inr (rest, room, e)) = rw e (none, refl, inl refl)
terminated-IsRead malloc realloc false file r (inr ([], room, e)) = absurd (omega (arith, room))
terminated-IsRead malloc realloc false file r (inr (z ∷ rest, room, e)) = rw e (
    rw (put-filled 0 file z rest)
      (some ((file ++ 0 ∷ []) ++ rest), refl, (refl, rest, append_assoc file (0 ∷ []) rest)))

read_into-IsRead :
    (malloc : Malloc) (realloc : Realloc) (failed : Bool) (file : Bytes) (m : Option (List ℕ))
    → malloc (file_bufsize + 1) ≡ m
    → IsRealloc realloc
    → ((block : List ℕ) → m ≡ some block → length block ≡ file_bufsize + 1)
    → (q : Option (List ℕ)) × (read_into realloc failed file m ≡ returned q)
      × IsRead malloc realloc failed file q
read_into-IsRead malloc realloc failed file none e law len = (none, refl, inr (inl e))
read_into-IsRead malloc realloc failed file (some block) e law len =
    terminated-IsRead malloc realloc failed file
      (read_loop realloc file (file_bufsize + 1) (filled [] block))
      (read_loop-Loads realloc file [] block (file_bufsize + 1) law (omega (arith, len block refl))
        (omega (arith, len block refl)))

-- If `malloc` and `realloc` deliver as many bytes as they are asked for, and `realloc` keeps
-- those of the old block, read_file writes nothing outside its buffer, whatever the length of the
-- file. It returns a buffer that begins with the file and a terminating zero, if the stream has
-- not failed; it returns NULL only where the stream has failed, `malloc` has no memory for the
-- first buffer, or `realloc` fails for some block.
pub read_file-IsRead :
    (malloc : Malloc) (realloc : Realloc) (failed : Bool) (file : Bytes)
    → IsMalloc malloc
    → IsRealloc realloc
    → (q : Option (List ℕ)) × (read_file malloc realloc failed file ≡ returned q)
      × IsRead malloc realloc failed file q
unfolding read_file
read_file-IsRead malloc realloc failed file hm hr =
    read_into-IsRead malloc realloc failed file (malloc (file_bufsize + 1)) refl hr
      (hm (file_bufsize + 1))
