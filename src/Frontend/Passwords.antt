-- ===== src/Frontend/Passwords.antt =====
-- The password that read_password reads.
use bispe.Base.{ℕ, ◌≡◌, refl, ap, false, [], ◌∷◌, ◌++◌, Bytes, length, ◌==◌, arith}
use bispe.Frontend.Arguments.{read_password}

-- A text without a line feed and without the byte 255.
pub data IsTyped : Bytes → Type 0 where
  nil : IsTyped []
  cons : {c : ℕ} {s : Bytes} → (c == 10) ≡ false → (c == 255) ≡ false → IsTyped s → IsTyped (c ∷ s)

-- A typed password and a line feed, read into a buffer of which `junk` is the part that the password
-- covers and `rest` the part behind it, leave the password in front of what was in the buffer
-- before: no zero is put behind the password, so that what is stored is the password only if
-- the buffer happened to hold a zero there.
pub read_password_lem :
    (pw line junk rest : Bytes)
    → IsTyped pw
    → length junk ≡ length pw
    → read_password (pw ++ 10 ∷ line) (junk ++ rest) ≡ pw ++ rest
unfolding read_password
read_password_lem [] line [] [] t h = refl
read_password_lem [] line [] (b ∷ rest) t h = refl
read_password_lem [] line (b ∷ junk) rest t h = absurd (omega (arith, h))
read_password_lem (c ∷ pw) line [] rest t h = absurd (omega (arith, h))
read_password_lem (c ∷ pw) line (b ∷ junk) rest (IsTyped.cons lf eof t) h =
    rw eof (rw lf (ap (◌∷◌ c) (read_password_lem pw line junk rest t (omega (arith, h)))))
