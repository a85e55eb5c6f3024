-- ===== src/Cluster/Secrets.antt =====
-- tokens.go, the secrets: random bytes, shown in hex and stored as the hex of their SHA-256.
use llmbox.Prelude.{
  ℕ, ◌+◌, ◌-◌, ◌/◌, ◌%◌, Bool, List, [], ◌∷◌, ltb, if◌then◌else◌, Str, str_eq, ◌==◌, Result, ok,
  failed,
}

abbrev hex_digit : ℕ → ℕ
hex_digit n = if ltb n 10 then b'0' + n else b'a' + n - 10

-- `hex.EncodeToString`.
unfoldable pub hex : List ℕ → Str
hex [] = []
hex (b ∷ bs) = hex_digit (b / 16) ∷ hex_digit (b % 16) ∷ hex bs

-- `newSecret`, of what the random source returns for the 32 bytes.
unfoldable pub new_secret : Result Str (List ℕ) → Result Str Str
new_secret (ok bytes) = ok (hex bytes)
new_secret (failed e) = failed e

module _ (sum256 : Str → List ℕ) where
  unfoldable pub hash_secret : Str → Str
  hash_secret secret = hex (sum256 secret)

  unfoldable pub same_hash : Str → Str → Bool
  same_hash secret hash = hash_secret secret == hash
