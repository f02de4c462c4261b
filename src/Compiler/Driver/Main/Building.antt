-- ===== src/Compiler/Driver/Main/Building.antt =====
-- How compiler/compiler.c's main writes the file, from the code on.
use bispe.Base.{
  ℕ, ◌+◌, ◌≡◌, ◌≢◌, refl, inl, inr, false, ◌||◌, Option, none, some, List, [], ◌∷◌, Bytes, codes,
  length, if_holds', Outcome, ok, out_of_fuel, Result, returned, exited, faulted, from_result,
}
use bispe.Compiler.Generator.Defs.{Code}
use bispe.Compiler.Codebuf.{build_codebuf, buf_size}
use bispe.Compiler.Codebuf.Layout.{IsMalloc, IsRandom, code_file, build_codebuf_lem}
use bispe.Compiler.Driver.{build_outfile_name}
use bispe.Compiler.Driver.Names.{IsBuilt, build_outfile_name_lem, IsStem-total}
use bispe.Compiler.Driver.Main.{
  Options, Crypto, unreachable, refuses, encrypts, System, Exit, failure, c_string, write_outfile,
  write_named, name_and_write, behind_crypto, send_and_write, build_and_write,
}
use bispe.Compiler.Driver.Main.Stages.{Ends, Ends-map, Fails, FailsOr, Named, Writes, Sends, Builds}

-- The exit of a failure.
abbrev pub no_file : Fails failure
no_file = (refl, refl)

pub from_result-ne-out_of_fuel {ℓ} : {A : Type ℓ} (r : Result A) → from_result r ≢ out_of_fuel
from_result-ne-out_of_fuel (returned a) = cc
from_result-ne-out_of_fuel exited = cc
from_result-ne-out_of_fuel faulted = cc

pub from_result-returned {ℓ} :
    {A : Type ℓ} (r : Result A) (a : A) → from_result r ≡ ok a → r ≡ returned a
from_result-returned (returned b) a e = cc
from_result-returned exited a e = cc
from_result-returned faulted a e = cc

built-returned :
    (stem : Bytes) (o : Option (List ℕ)) (r : Result (Option (List ℕ)))
    → IsBuilt stem (codes ".scle") o r
    → (q : Option (List ℕ)) × (r ≡ returned q)
built-returned stem none r h = (none, h)
built-returned stem (some block) r h = (some _, h)

-- `C` is what holds of a run that is broken off.
module _ (C : Outcome Exit → Type 0) where
  pub FailsOr-map :
      (P Q : Exit → Type 0) (o : Outcome Exit)
      → ((e : Exit) → P e → Q e)
      → Ends C (FailsOr P) o
      → Ends C (FailsOr Q) o
  FailsOr-map P Q o f =
      Ends-map C (FailsOr P) (FailsOr Q) o
        λ e same h. elim h [ inl w ↦ inl w | inr p ↦ inr (f e p) ]

  module _ (sys : System) (hm : IsMalloc sys.malloc) (hd : IsRandom sys.random)
      (infile : Bytes) where
    write_outfile-Writes :
        (f : Option Bytes) (name : Bytes) (words : List ℕ)
        → Named sys infile f name
        → FailsOr (Writes sys infile f words) (write_outfile sys name words)
    write_outfile-Writes f name words n =
        if_holds' (FailsOr (Writes sys infile f words)) (sys.writable name)
          (λ h. inr (name, n, h, refl)) (λ h. (inl no_file))

    write_named-Writes :
        (words : List ℕ) (r : Option (List ℕ))
        → build_outfile_name sys.malloc infile ≡ returned r
        → FailsOr (Writes sys infile none words) (write_named sys words r)
    write_named-Writes words none e = (inl no_file)
    write_named-Writes words (some block) e =
        write_outfile-Writes none (c_string block) words (block, e, refl)

    name_and_write-Writes :
        (f : Option Bytes) (words : List ℕ)
        → Ends C (FailsOr (Writes sys infile f words)) (name_and_write sys infile words f)
    unfolding name_and_write
    name_and_write-Writes (some name) words = write_outfile-Writes (some name) name words refl
    name_and_write-Writes none words =
        let (stem, is) = IsStem-total infile in
        let (q, e) =
          built-returned stem (sys.malloc (length stem + 6)) (build_outfile_name sys.malloc infile)
            (build_outfile_name_lem sys.malloc hm stem infile is) in
        rw e (write_named-Writes words q e)

    module _ (o : Options) where
      behind_crypto-Sends :
          (words : List ℕ) (c : Crypto)
          → o.plain ≡ false
          → sys.crypto words ≡ c
          → Ends C (FailsOr (Sends sys infile o words)) (behind_crypto sys o infile c)
      behind_crypto-Sends words unreachable p e = (inl no_file)
      behind_crypto-Sends words refuses p e = (inl no_file)
      behind_crypto-Sends words (encrypts encrypted) p e =
          FailsOr-map (Writes sys infile o.out encrypted) (Sends sys infile o words)
            (name_and_write sys infile encrypted o.out) (λ x w. inr (encrypted, p, e, w))
            (name_and_write-Writes o.out encrypted)

      send_and_write-Sends :
          (words : List ℕ)
          → Ends C (FailsOr (Sends sys infile o words)) (send_and_write sys o infile (some words))
      unfolding send_and_write
      send_and_write-Sends words =
          if_holds' (Ends C (FailsOr (Sends sys infile o words))) o.plain
            (λ p.
              FailsOr-map (Writes sys infile o.out words) (Sends sys infile o words)
                (name_and_write sys infile words o.out) (λ x w. inl (p, w))
                (name_and_write-Writes o.out words))
            (λ p. behind_crypto-Sends words (sys.crypto words) p refl)

      send_and_write-Builds :
          (c : Code) (code : List Code) (r : Option (List ℕ))
          → (o.show_mnemonics || o.show_opcodes) ≡ false
          → build_codebuf sys.malloc sys.random (c ∷ code) o.plain ≡ returned r
          → Ends C (FailsOr (Builds sys infile o (c ∷ code))) (send_and_write sys o infile r)
      unfolding send_and_write
      send_and_write-Builds c code none quiet e = (inl no_file)
      send_and_write-Builds c code (some words) quiet e =
          FailsOr-map (Sends sys infile o words) (Builds sys infile o (c ∷ code))
            (send_and_write sys o infile (some words)) (λ x w. (words, cc, quiet, e, w))
            (send_and_write-Sends words)

      pub build_and_write-Builds :
          (code : List Code)
          → Ends C (FailsOr (Builds sys infile o code)) (build_and_write sys o infile (some code))
      unfolding build_and_write
      build_and_write-Builds [] = (inl no_file)
      build_and_write-Builds (c ∷ code) =
          if_holds' (Ends C (FailsOr (Builds sys infile o (c ∷ code))))
            (o.show_mnemonics || o.show_opcodes) (λ p. (inl no_file))
            (λ quiet.
              let e = build_codebuf_lem sys.malloc sys.random (c ∷ code) o.plain hm hd in
              rw e (
                send_and_write-Builds c code
                  (code_file sys.random (c ∷ code) o.plain
                    (sys.malloc (buf_size (c ∷ code) o.plain)))
                  quiet e))
