-- ===== src/Database/Passwords.antt =====
-- packages/db/src/password.ts: how a password is stored and checked. A text is the list of its
-- character codes, a buffer the list of its bytes. The function scrypt is a parameter, and the salt
-- is drawn.
pub mod Checking
use antretix.Common.{
  ℕ, ◌+◌, ◌-◌, ◌*◌, ◌/◌, ◌%◌, Bool, true, false, ◌&&◌, Option, none, some, List, [], ◌∷◌, ◌++◌, ltb,
  leb, ◌==◌, if◌then◌else◌, length,
}
use antretix.Core.Payments.{same_bytes}

abbrev pub Chars : Type 0
Chars = List ℕ

abbrev pub hex_digit : ℕ → ℕ
hex_digit d = if ltb d 10 then 48 + d else 87 + d

-- buffer.toString("hex")
unfoldable pub to_hex : List ℕ → Chars
to_hex [] = []
to_hex (b ∷ bs) = hex_digit (b / 16) ∷ hex_digit (b % 16) ∷ to_hex bs

abbrev pub hex_value : ℕ → Option ℕ
hex_value c =
    if leb 48 c && leb c 57
    then some (c - 48)
    else if leb 97 c && leb c 102
    then some (c - 87)
    else if leb 65 c && leb c 70
    then some (c - 55)
    else none

abbrev pub byte_before : Option ℕ → Option ℕ → List ℕ → List ℕ
byte_before (some hi) (some lo) rest = (hi * 16 + lo) ∷ rest
byte_before _ _ rest = []

-- Buffer.from(text, "hex"), which stops at the first pair that is no byte.
unfoldable pub from_hex : Chars → List ℕ
from_hex [] = []
from_hex (c ∷ []) = []
from_hex (c ∷ d ∷ cs) = byte_before (hex_value c) (hex_value d) (from_hex cs)

-- The text before the first colon, and what follows it, if there is one.
abbrev pub cons_fst : ℕ → Chars × Option Chars → Chars × Option Chars
cons_fst c (piece, rest) = (c ∷ piece, rest)

unfoldable pub split_colon : Chars → Chars × Option Chars
split_colon [] = ([], none)
split_colon (c ∷ cs) = if c == 58 then ([], some cs) else cons_fst c (split_colon cs)

module _ (scrypt : Chars → Chars → List ℕ) where
  -- `salt` is the 16 random bytes.
  unfoldable pub hash_password : Chars → List ℕ → Chars
  hash_password password salt = to_hex salt ++ 58 ∷ to_hex (scrypt password (to_hex salt))

  -- The pieces of what is stored: the salt, and what follows the colon.
  unfoldable pub verify_pieces : Chars → Chars × Option Chars → Bool
  verify_pieces password (salt, none) = false
  verify_pieces password (salt, some rest) =
      let expected = from_hex (split_colon rest).0 in
      let actual = scrypt password salt in
      (length actual == length expected) && same_bytes actual expected

  unfoldable pub verify_password : Chars → Chars → Bool
  unfolding verify_pieces
  verify_password password stored = verify_pieces password (split_colon stored)
