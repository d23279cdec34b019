-- ===== src/Config/Validate/Tokens.antt =====
-- internal/config/validate.go: `validateToken`.
use ollame.Prelude.{
  ℕ, ◌+◌, Bool, true, not, ◌&&◌, ◌||◌, List, [], ◌∷◌, Bytes, bytes_eq, leb, ◌==◌, length, ok, err,
  if◌then◌else◌,
}
use ollame.Config.{valid_token_name}
use ollame.Config.Types.{Token}
use ollame.Config.Validate.Enums.{Check, bad_token_name, bad_credential_count, bad_digest}

hex_byte : ℕ → Bool
hex_byte c = (leb b'0' c && leb c b'9') || (leb b'a' c && leb c b'f') || (leb b'A' c && leb c b'F')

hex_bytes : Bytes → Bool
unfolding hex_byte
hex_bytes [] = true
hex_bytes (c ∷ s) = hex_byte c && hex_bytes s

-- `hex.DecodeString` succeeds and gives 32 bytes: 64 hexadecimal digits.
unfoldable pub hex_digest : Bytes → Bool
unfolding hex_bytes
hex_digest s = hex_bytes s && length s == 64

-- How many of the texts are not empty.
unfoldable pub given : List Bytes → ℕ
given [] = 0
given (v ∷ vs) = (if bytes_eq v [] then 0 else 1) + given vs

unfoldable pub validate_token : Token → Check
unfolding given hex_digest
validate_token t =
    if not (valid_token_name t.name)
    then err bad_token_name
    else if not (given (t.token ∷ t.sha256 ∷ t.token_file ∷ t.token_env ∷ []) == 1)
    then err bad_credential_count
    else if not (bytes_eq t.sha256 []) && not (hex_digest t.sha256)
    then err bad_digest
    else ok tt
