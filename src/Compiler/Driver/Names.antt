-- ===== src/Compiler/Driver/Names.antt =====
-- The name that build_outfile_name builds.
use mathlib.Core.Path.{subst}
use bispe.Base.{
  Bool-cases, ℕ, ◌+◌, ◌≡◌, refl, sym, ap, ◌∙◌, ◌⊎◌, inl, inr, false, Option, none, some, List, [],
  ◌∷◌, ◌++◌, append-nil, Bytes, codes, ◌==◌, if◌then◌else◌, length, length-append, Result, returned,
  bind, arith,
}
use bispe.Compiler.Codebuf.{Malloc, put_all}
use bispe.Compiler.Codebuf.Layout.{IsMalloc, filled, put_all-filled, split_at}
use bispe.Compiler.Driver.{find_dot, stem_length, take, copy_name, build_outfile_name}

-- A text with no dot.
pub data IsDotless : Bytes → Type 0 where
  nil : IsDotless []
  cons : {c : ℕ} {s : Bytes} → (c == b'.') ≡ false → IsDotless s → IsDotless (c ∷ s)

-- The part of a name in front of its last dot, or all of it.
abbrev pub IsStem : Bytes → Bytes → Type 0
IsStem stem infile =
    ((ext : Bytes) × (infile ≡ stem ++ b'.' ∷ ext) × IsDotless ext)
    ⊎ ((infile ≡ stem) × IsDotless stem)

-- Every name has such a part.
pub IsStem-total : (infile : Bytes) → (stem : Bytes) × IsStem stem infile
IsStem-total [] = ([], inr (refl, IsDotless.nil))
IsStem-total (c ∷ s) =
    let (stem, is) = IsStem-total s in
    elim is [
      | inl found ↦ (let (ext, e, d) = found in (c ∷ stem, inl (ext, ap (λ t. c ∷ t) e, d)))
      | inr whole ↦
          (let (e, d) = whole in
            elim (Bool-cases (c == b'.')) [
              | inl dot ↦
                  (let same : c ≡ b'.' = ground (arith, dot) in
                    ([], inl (s, ap (λ b. b ∷ s) same, subst IsDotless (sym e) d)))
              | inr other ↦ (c ∷ stem, inr (ap (λ t. c ∷ t) e, IsDotless.cons other d))
            ])
    ]

find_dot-IsDotless :
    {s : Bytes} → IsDotless s → (p : ℕ) (last : Option ℕ) → find_dot s p last ≡ last
unfolding find_dot
find_dot-IsDotless nil p last = refl
find_dot-IsDotless (cons e d) p last = rw e (find_dot-IsDotless d (p + 1) last)

find_dot-append :
    (s : Bytes) {ext : Bytes}
    → IsDotless ext
    → (p : ℕ) (last : Option ℕ) → find_dot (s ++ b'.' ∷ ext) p last ≡ some (p + length s)
unfolding find_dot
find_dot-append [] d p last = find_dot-IsDotless d (p + 1) (some p) ∙ ap some (omega arith)
find_dot-append (c ∷ s) d p last =
    find_dot-append s d (p + 1) (if c == b'.' then some p else last) ∙ ap some (omega arith)

pub take-append : (xs ys : List ℕ) → take (length xs) (xs ++ ys) ≡ xs
take-append [] ys = refl
take-append (x ∷ xs) ys = ap (◌∷◌ x) (take-append xs ys)

dot_or : ℕ → Option ℕ → ℕ
dot_or n o = elim o [ none ↦ n | some d ↦ d ]

stem_length_lem :
    (stem infile : Bytes)
    → IsStem stem infile
    → (stem_length infile ≡ length stem) × (take (length stem) infile ≡ stem)
unfolding dot_or
stem_length_lem stem infile (inl (ext, e, d)) = rw e (
    (
      ap (dot_or (length (stem ++ b'.' ∷ ext))) (find_dot-append stem d 0 none) ∙ omega arith,
      take-append stem (b'.' ∷ ext),
    ))
stem_length_lem stem infile (inr (e, d)) = rw e (
    (
      ap (dot_or (length stem)) (find_dot-IsDotless d 0 none),
      ap (take (length stem)) (sym (append-nil stem)) ∙ take-append stem [],
    ))

copy_name_lem :
    (stem : Bytes) (block : List ℕ)
    → length block ≡ length stem + 6
    → bind
        (put_all stem (filled [] block))
        (λ b. bind (put_all (codes ".scle" ++ 0 ∷ []) b) λ b. returned (some b.words))
      ≡ returned (some (stem ++ (codes ".scle" ++ 0 ∷ [])))
copy_name_lem stem block len =
    let (zs, rest, e, l) = split_at (length stem) block (omega (arith, len)) in
    let total : length zs + length rest ≡ length stem + 6 =
      sym (length-append zs rest) ∙ ap length (sym e) ∙ len in
    let h : length rest ≡ 6 = omega (arith, total, l) in
    let tail : put_all (codes ".scle" ++ 0 ∷ []) (filled stem rest)
        ≡ returned (filled (stem ++ (codes ".scle" ++ 0 ∷ [])) []) =
      ap (λ r. put_all (codes ".scle" ++ 0 ∷ []) (filled stem r)) (sym (append-nil rest))
      ∙ put_all-filled (codes ".scle" ++ 0 ∷ []) stem rest [] h in
    rw e (
      rw (put_all-filled stem [] zs rest l)
        (rw tail (ap (λ w. returned (some w)) (append-nil (stem ++ (codes ".scle" ++ 0 ∷ []))))))

-- The name, in the block that was allocated for it.
abbrev pub IsBuilt : Bytes → Bytes → Option (List ℕ) → Result (Option (List ℕ)) → Type 0
IsBuilt stem extension none r = r ≡ returned none
IsBuilt stem extension (some block) r = r ≡ returned (some (stem ++ (extension ++ 0 ∷ [])))

copy_name-IsBuilt :
    (stem infile : Bytes) (o : Option (List ℕ))
    → take (length stem) infile ≡ stem
    → ((block : List ℕ) → o ≡ some block → length block ≡ length stem + 6)
    → IsBuilt stem (codes ".scle") o (copy_name (length stem) infile o)
copy_name-IsBuilt stem infile none front h = refl
copy_name-IsBuilt stem infile (some block) front h =
    rw front (copy_name_lem stem block (h block refl))

-- The name of the output file: NULL exactly where malloc has no block of six bytes more than the part
-- of the input file's name in front of its last dot, or the whole name where it has none; and
-- otherwise that part, followed by `.scle` and the terminating zero, which fill the block to its last
-- byte.
pub build_outfile_name_lem :
    (malloc : Malloc)
    → IsMalloc malloc
    → (stem infile : Bytes) → IsStem stem infile
    → IsBuilt stem (codes ".scle") (malloc (length stem + 6)) (build_outfile_name malloc infile)
unfolding build_outfile_name
build_outfile_name_lem malloc ok stem infile is =
    let (len, front) = stem_length_lem stem infile is in
    rw len (
      copy_name-IsBuilt stem infile (malloc (length stem + 6)) front
        λ block e. ok (length stem + 6) block e)
