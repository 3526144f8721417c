-- ===== src/Database/Passwords/Checking.antt =====
-- A stored password is checked by its scrypt.
use antretix.Common.{
  ℕ, ◌/◌, ◌%◌, ◌<◌, ◌≡◌, ◌↔◌, refl, ◌∙◌, ap, true, false, ◌&&◌, some, List, [], ◌∷◌, ◌++◌, arith,
  ◌==◌, length, All,
}
use antretix.Core.Payments.{same_bytes}
use antretix.Core.Payments.Signature.{same_bytes-eq, same_bytes_self}
use antretix.Database.Passwords.{
  Chars, hex_digit, to_hex, hex_value, from_hex, split_colon, hash_password, verify_pieces,
  verify_password,
}

value_of_digit : (d : ℕ) → d < 16 → hex_value (hex_digit d) ≡ some d
value_of_digit d h = ground arith

from_hex-to_hex : (bs : List ℕ) → All (λ b. b < 256) bs → from_hex (to_hex bs) ≡ bs
unfolding from_hex to_hex
from_hex-to_hex [] h = refl
from_hex-to_hex (b ∷ bs) h =
    rw
      (
        value_of_digit (b / 16) (omega (arith, h.0)),
        value_of_digit (b % 16) (omega arith),
        from_hex-to_hex bs h.1,
      )
      (ap (λ t. t ∷ bs) (omega arith))

digit_no_colon : (d : ℕ) → d < 16 → (hex_digit d == 58) ≡ false
digit_no_colon d h = ground arith

-- A text in hexadecimal digits has no colon.
split_colon-to_hex :
    (bs : List ℕ) (rest : Chars)
    → All (λ b. b < 256) bs
    → split_colon (to_hex bs ++ 58 ∷ rest) ≡ (to_hex bs, some rest)
unfolding split_colon to_hex
split_colon-to_hex [] rest h = refl
split_colon-to_hex (b ∷ bs) rest h =
    rw
      (
        digit_no_colon (b / 16) (omega (arith, h.0)),
        digit_no_colon (b % 16) (omega arith),
        split_colon-to_hex bs rest h.1,
      )
      refl

split_colon_last : (bs : List ℕ) → All (λ b. b < 256) bs → (split_colon (to_hex bs)).0 ≡ to_hex bs
unfolding split_colon to_hex
split_colon_last [] h = refl
split_colon_last (b ∷ bs) h =
    rw
      (
        digit_no_colon (b / 16) (omega (arith, h.0)),
        digit_no_colon (b % 16) (omega arith),
        split_colon_last bs h.1,
      )
      refl

module _ (scrypt : Chars → Chars → List ℕ)
    (bytes : (password salt : Chars) → All (λ b. b < 256) (scrypt password salt)) where
  verify_hashed :
      (p q : Chars) (salt : List ℕ)
      → All (λ b. b < 256) salt
      → verify_password scrypt q (hash_password scrypt p salt) ≡ (
          (length (scrypt q (to_hex salt)) == length (scrypt p (to_hex salt)))
          && same_bytes (scrypt q (to_hex salt)) (scrypt p (to_hex salt)))
  unfolding verify_password hash_password
  verify_hashed p q salt h =
      let derived = scrypt p (to_hex salt) in
      let fits = bytes p (to_hex salt) in
      ap (verify_pieces scrypt q) (split_colon-to_hex salt (to_hex derived) h)
      ∙ rw (split_colon_last derived fits, from_hex-to_hex derived fits) refl

  -- A password is accepted for what is stored of another exactly when scrypt gives both the same
  -- bytes with the salt that is stored, so the password itself always is.
  pub verify_password-hash_password :
      (p q : Chars) (salt : List ℕ)
      → All (λ b. b < 256) salt
      → (verify_password scrypt q (hash_password scrypt p salt) ≡ true)
        ↔ (scrypt q (to_hex salt) ≡ scrypt p (to_hex salt))
  verify_password-hash_password p q salt h =
      let a = scrypt q (to_hex salt) in
      let b = scrypt p (to_hex salt) in
      let same = verify_hashed p q salt h in
      (
        λ ok. same_bytes-eq a b (ground (arith, same)),
        λ e. same ∙ rw e (ground (arith, same_bytes_self b)),
      )
