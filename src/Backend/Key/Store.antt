-- ===== src/Backend/Key/Store.antt =====
-- password_store and hash_show of backend/bispe_key.c, the two sides of the file `password` in sysfs.
use bispe.Base.{modify, ℕ, zero, suc, ◌+◌, ◌/◌, ◌%◌, List, [], ◌∷◌, ◌++◌, Bytes, ltb, if◌then◌else◌}
use bispe.Backend.Key.Sha.{copy_message, bispe_sha256}

-- The key that each processor holds in its registers, and the static `key_hash`.
pub record Keys : Type 0 where
  pub cpus : List Bytes
  pub key_hash : Bytes

-- What a store leaves: the keys, the buffer it read, and its result.
pub record Stored : Type 0 where
  pub keys : Keys
  pub buf : Bytes
  pub result : ℕ

-- `BISPE_KDF_ITER`
unfoldable pub kdf_iter : ℕ
kdf_iter = 2000

unfoldable pub strlen : Bytes → ℕ
strlen [] = 0
strlen (zero ∷ s) = 0
strlen (suc c ∷ s) = suc (strlen s)

-- `memcpy` of 54 bytes and the zero in the last of them.
unfoldable pub copied_password : Bytes → Bytes
unfolding copy_message
copied_password buf = modify (λ _. 0) (copy_message 54 buf) 53

-- The loop over `key`, by way of `key_hash`.
unfoldable pub derive : ℕ → Bytes → Bytes
unfolding bispe_sha256
derive zero key = key
derive (suc n) key = derive n (bispe_sha256 (bispe_sha256 key 32) 32)

-- `on_each_cpu`: every processor takes the key.
unfoldable pub on_each_cpu : Bytes → List Bytes → List Bytes
on_each_cpu key [] = []
on_each_cpu key (old ∷ cpus) = key ∷ on_each_cpu key cpus

-- `memset` to zero of the first bytes.
unfoldable pub reset : ℕ → Bytes → Bytes
reset zero buf = buf
reset (suc n) [] = []
reset (suc n) (c ∷ buf) = 0 ∷ reset n buf

unfoldable pub password_store : Keys → Bytes → ℕ → Stored
unfolding copied_password bispe_sha256 strlen derive kdf_iter on_each_cpu reset
password_store s buf count =
    let password = copied_password buf in
    let key = derive kdf_iter (bispe_sha256 password (strlen password)) in
    record {
      keys = record { cpus = on_each_cpu key s.cpus; key_hash = bispe_sha256 key 32 };
      buf = reset count buf;
      result = count;
    }

-- `&key_hash[n]`
unfoldable pub drop : ℕ → Bytes → Bytes
drop zero buf = buf
drop (suc n) [] = []
drop (suc n) (c ∷ buf) = drop n buf

unfoldable pub hex_digit : ℕ → ℕ
hex_digit d = if ltb d 10 then 48 + d else 87 + d

-- `sprintf` of `"%02x "` for the bytes of an array.
unfoldable pub show_bytes : Bytes → Bytes
unfolding hex_digit
show_bytes [] = []
show_bytes (c ∷ s) = hex_digit (c / 16 % 16) ∷ hex_digit (c % 16) ∷ 32 ∷ show_bytes s

-- The text of the file: `Key hash:` and the 32 bytes in two lines.
unfoldable pub hash_show : Keys → Bytes
unfolding show_bytes drop copy_message
hash_show s =
    (75 ∷ 101 ∷ 121 ∷ 32 ∷ 104 ∷ 97 ∷ 115 ∷ 104 ∷ 58 ∷ 10 ∷ [])
    ++ (show_bytes (copy_message 16 s.key_hash)
        ++ (10 ∷ (show_bytes (copy_message 16 (drop 16 s.key_hash)) ++ (10 ∷ []))))
