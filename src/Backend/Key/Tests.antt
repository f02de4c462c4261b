-- ===== src/Backend/Key/Tests.antt =====
-- The digest and the key of small inputs.
use bispe.Base.{ℕ, ◌≡◌, refl, List, [], ◌∷◌, ◌++◌, Bytes, arith}
use bispe.Backend.Key.Sha.{bispe_sha256}
use bispe.Backend.Key.Sha.Fips.{round_constants, initial_hash, compress_all}
use bispe.Backend.Key.Sha.Order.{output}
use bispe.Backend.Key.Sha.Standard.{Schedules, bispe_sha256_lem}
use bispe.Backend.Key.Store.{Keys, password_store}
use bispe.Backend.Key.Passwords.{key_of, password_store_lem}

abbrev abc : Bytes
abc = 97 ∷ 98 ∷ 99 ∷ []

-- The first example of the standard.
digest-abc :
    bispe_sha256 abc 3
    ≡ 0xba ∷ 0x78 ∷ 0x16 ∷ 0xbf ∷ 0x8f ∷ 0x01 ∷ 0xcf ∷ 0xea ∷ 0x41 ∷ 0x41 ∷ 0x40 ∷ 0xde ∷ 0x5d
      ∷ 0xae ∷ 0x22 ∷ 0x23 ∷ 0xb0 ∷ 0x03 ∷ 0x61 ∷ 0xa3 ∷ 0x96 ∷ 0x17 ∷ 0x7a ∷ 0x9c ∷ 0xb4 ∷ 0x10
      ∷ 0xff ∷ 0x61 ∷ 0xf2 ∷ 0x00 ∷ 0x15 ∷ 0xad ∷ []
unfolding bispe_sha256
digest-abc = refl

bispe_sha256_lem_example :
    (w : List ℕ) × (Schedules abc w
      × (bispe_sha256 (abc ++ 0 ∷ []) 3
          ≡ output initial_hash (compress_all round_constants w initial_hash)))
bispe_sha256_lem_example =
    bispe_sha256_lem abc (0 ∷ []) 3 (omega arith, (omega arith, (omega arith, tt))) refl

-- Two processors, and a password with a line feed that counts.
abbrev two_cpus : Keys
two_cpus = record { cpus = [] ∷ [] ∷ []; key_hash = [] }

password_store_lem_example : password_store two_cpus (97 ∷ 10 ∷ 0 ∷ 99 ∷ []) 3 ≡ record {
  keys = record {
    cpus = key_of (97 ∷ 10 ∷ []) ∷ key_of (97 ∷ 10 ∷ []) ∷ [];
    key_hash = bispe_sha256 (key_of (97 ∷ 10 ∷ [])) 32;
  };
  buf = 0 ∷ 0 ∷ 0 ∷ 99 ∷ [];
  result = 3;
}
password_store_lem_example = password_store_lem two_cpus (97 ∷ 10 ∷ 0 ∷ []) (99 ∷ [])
