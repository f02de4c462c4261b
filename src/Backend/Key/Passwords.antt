-- ===== src/Backend/Key/Passwords.antt =====
-- The key that a written password gives, backend/bispe_key.c.
use bispe.Base.{
  map, ◌/◌, ◌%◌, ◌^◌, ℕ, zero, suc, ◌-◌, ◌*◌, ◌≤◌, ◌≡◌, refl, sym, ap, ◌∙◌, List, [], ◌∷◌, ◌++◌,
  Bytes, length, modify, arith,
}
use bispe.Backend.Key.Sha.{
  copy_message, zeros, restricted, build_chunk, first_words, extend, rounds, constants, initial,
  digest_of, bispe_sha256,
}
use bispe.Backend.Key.Store.{
  Keys, Stored, kdf_iter, strlen, copied_password, derive, on_each_cpu, reset, password_store,
}

-- The first `n` bytes before the first zero.
abbrev pub password_in : ℕ → Bytes → Bytes
password_in zero buf = []
password_in (suc n) [] = []
password_in (suc n) (zero ∷ buf) = []
password_in (suc n) (suc c ∷ buf) = suc c ∷ password_in n buf

-- The digest of a whole array, and the key after so many digests of digests.
abbrev pub digest : Bytes → Bytes
digest m = bispe_sha256 m (length m)

abbrev pub digested : ℕ → Bytes → Bytes
digested zero key = key
digested (suc n) key = bispe_sha256 (digested n key) 32

on_each_cpu-map : (key : Bytes) (cpus : List Bytes) → on_each_cpu key cpus ≡ map (λ _. key) cpus
unfolding on_each_cpu
on_each_cpu-map key [] = refl
on_each_cpu-map key (k ∷ cpus) = ap (λ s. key ∷ s) (on_each_cpu-map key cpus)

digested-first :
    (n : ℕ) (key : Bytes) → digested n (bispe_sha256 key 32) ≡ bispe_sha256 (digested n key) 32
digested-first zero key = refl
digested-first (suc n) key = ap (λ k. bispe_sha256 k 32) (digested-first n key)

derive-digested : (n : ℕ) (key : Bytes) → derive n key ≡ digested (n * 2) key
unfolding derive
derive-digested zero key = refl
derive-digested (suc n) key =
    let twice : suc n * 2 ≡ suc (suc (n * 2)) = omega arith in
    derive-digested n (bispe_sha256 (bispe_sha256 key 32) 32)
    ∙ (digested-first (n * 2) (bispe_sha256 key 32)
        ∙ (ap (λ k. bispe_sha256 k 32) (digested-first (n * 2) key)
            ∙ ap (λ k. digested k key) (sym twice)))

-- What is copied is a string: its characters are those before the first zero.
copied :
    (n : ℕ) (buf : Bytes)
    → (rest : Bytes) × (modify (λ _. 0) (copy_message (suc n) buf) n
        ≡ password_in n buf ++ 0 ∷ rest)
unfolding copy_message
copied zero [] = ([], refl)
copied zero (c ∷ buf) = ([], refl)
copied (suc n) [] = (modify (λ _. 0) (copy_message (suc n) []) n, refl)
copied (suc n) (zero ∷ buf) = (modify (λ _. 0) (copy_message (suc n) buf) n, refl)
copied (suc n) (suc c ∷ buf) = let (rest, e) = copied n buf in (rest, ap (λ s. suc c ∷ s) e)

strlen-password_in :
    (n : ℕ) (buf rest : Bytes) → strlen (password_in n buf ++ 0 ∷ rest) ≡ length (password_in n buf)
unfolding strlen
strlen-password_in zero buf rest = refl
strlen-password_in (suc n) [] rest = refl
strlen-password_in (suc n) (zero ∷ buf) rest = refl
strlen-password_in (suc n) (suc c ∷ buf) rest = ap suc (strlen-password_in n buf rest)

password_in-length : (n : ℕ) (buf : Bytes) → length (password_in n buf) ≤ n
password_in-length zero buf = omega arith
password_in-length (suc n) [] = omega arith
password_in-length (suc n) (zero ∷ buf) = omega arith
password_in-length (suc n) (suc c ∷ buf) = omega (arith, password_in-length n buf)

copy_message_self :
    (m rest : Bytes) → copy_message (length m) (m ++ rest) ≡ copy_message (length m) m
unfolding copy_message
copy_message_self [] rest = refl
copy_message_self (c ∷ m) rest = ap (λ s. c ∷ s) (copy_message_self m rest)

-- The digest of a string is that of its characters.
build_chunk-prefix :
    (m rest : Bytes) → build_chunk (m ++ rest) (length m) ≡ build_chunk m (length m)
unfolding build_chunk
build_chunk-prefix m rest =
    let n : ℕ = length m in
    let behind : Bytes =
      0x80
      ∷ (zeros (61 - n)
          ++ (n * 8 / 2 ^ ((63 - 62) * 8) % 2 ^ 8 ∷ (n * 8 / 2 ^ ((63 - 63) * 8) % 2 ^ 8 ∷ []))) in
    ap (λ s. s ++ behind) (copy_message_self m rest)

bispe_sha256-prefix :
    (m rest : Bytes) → length m ≤ 53 → bispe_sha256 (m ++ rest) (length m) ≡ digest m
unfolding bispe_sha256
bispe_sha256-prefix m rest h =
    let e : restricted (length m) ≡ length m = ground arith in
    let chunks : build_chunk (m ++ rest) (restricted (length m))
        ≡ build_chunk m (restricted (length m)) =
      ap (build_chunk (m ++ rest)) e ∙ (build_chunk-prefix m rest ∙ ap (build_chunk m) (sym e)) in
    ap (λ b. digest_of initial (rounds constants (extend 48 (first_words b)) initial)) chunks

-- The digest that starts the derivation.
first_digest :
    (buf : Bytes)
    → bispe_sha256 (copied_password buf) (strlen (copied_password buf))
      ≡ digest (password_in 53 buf)
unfolding copied_password
first_digest buf =
    let (rest, e) = copied 53 buf in
    ap (λ s. bispe_sha256 s (strlen s)) e
    ∙ (ap (bispe_sha256 (password_in 53 buf ++ 0 ∷ rest)) (strlen-password_in 53 buf rest)
        ∙ bispe_sha256-prefix (password_in 53 buf) (0 ∷ rest) (password_in-length 53 buf))

-- The key of a password: its digest, and the digest of that 4000 times.
unfoldable pub key_of : Bytes → Bytes
key_of password = digested 4000 (digest password)

iterations : kdf_iter * 2 ≡ 4000
unfolding kdf_iter
iterations = refl

derived :
    (buf : Bytes)
    → derive kdf_iter (bispe_sha256 (copied_password buf) (strlen (copied_password buf)))
      ≡ key_of (password_in 53 buf)
unfolding key_of
derived buf =
    let key : Bytes = bispe_sha256 (copied_password buf) (strlen (copied_password buf)) in
    derive-digested kdf_iter key
    ∙ (ap (λ n. digested n key) iterations ∙ ap (digested 4000) (first_digest buf))

reset-append :
    (front rest : Bytes) → reset (length front) (front ++ rest) ≡ map (λ _. 0) front ++ rest
unfolding reset
reset-append [] rest = refl
reset-append (c ∷ front) rest = ap (λ s. 0 ∷ s) (reset-append front rest)

-- Let `front` be the bytes of the buffer that are counted as written, and `rest` those behind them.
-- Whatever keys were set, a write leaves every processor with the key of the characters of the buffer
-- before the first zero, 53 at most: the digest of them, of which the digest is taken 4000 times more.
-- `key_hash` is that key's digest, all bytes of `front` are zero, and their whole count is reported
-- as written.
pub password_store_lem :
    (s : Keys) (front rest : Bytes)
    → password_store s (front ++ rest) (length front) ≡ record {
      keys = record {
        cpus = map (λ _. key_of (password_in 53 (front ++ rest))) s.cpus;
        key_hash = bispe_sha256 (key_of (password_in 53 (front ++ rest))) 32;
      };
      buf = map (λ _. 0) front ++ rest;
      result = length front;
    }
unfolding password_store
password_store_lem s front rest =
    let left : Bytes → List Bytes → Bytes → Stored = λ key cpus buf. record {
      keys = record { cpus = cpus; key_hash = bispe_sha256 key 32 };
      buf = buf;
      result = length front;
    } in
    let buf : Bytes = front ++ rest in
    let key : Bytes = key_of (password_in 53 buf) in
    ap (λ k. left k (on_each_cpu k s.cpus) (reset (length front) buf)) (derived buf)
    ∙ (ap (λ cpus. left key cpus (reset (length front) buf)) (on_each_cpu-map key s.cpus)
        ∙ ap (left key (map (λ _. key) s.cpus)) (reset-append front rest))
