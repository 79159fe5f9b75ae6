-- ===== src/Secrets.antt =====
-- apps/api/plimsoll_api/security/secrets.py, over AES-GCM.
use bonerepo.Prelude.{
  ℕ, zero, suc, ◌≡◌, Option, none, some, List, [], ◌∷◌, ◌++◌, if◌then◌else◌, length, take,
}
use bonerepo.Prelude.Texts.{Text, codes, text_eq}
use bonerepo.Store.{◌>>=◌, Exec, secret_error, pure, draw, or_raise}

-- `os.urandom(NONCE_BYTES)` at a draw, and AESGCM under the key of the settings, none for an
-- InvalidTag: what it sealed under a nonce, it opens under that nonce.
pub record Cipher : Type 0 where
  pub nonce_of : ℕ → List ℕ
  pub nonce_bytes : (n : ℕ) → length (nonce_of n) ≡ 12
  pub seal : List ℕ → List ℕ → List ℕ
  pub open_sealed : List ℕ → List ℕ → Option (List ℕ)
  pub open_sealed-seal :
      (nonce plaintext : List ℕ) → open_sealed nonce (seal nonce plaintext) ≡ some plaintext

-- LocalKeyProvider.KEY_REF
abbrev pub local_key_ref : Text
local_key_ref = codes "local:v1"

unfoldable pub drop : ℕ → List ℕ → List ℕ
drop zero s = s
drop (suc n) [] = []
drop (suc n) (c ∷ s) = drop n s

module _ (cipher : Cipher) where
  unfoldable pub encrypt : List ℕ → Exec (List ℕ × Text)
  encrypt plaintext = do
    n ← draw
    pure (cipher.nonce_of n ++ cipher.seal (cipher.nonce_of n) plaintext, local_key_ref)

  -- None is the SecretError.
  unfoldable pub opened : List ℕ → Text → Option (List ℕ)
  unfolding drop text_eq
  opened ciphertext key_ref =
      if text_eq key_ref local_key_ref
      then cipher.open_sealed (take 12 ciphertext) (drop 12 ciphertext)
      else none

  unfoldable pub decrypt : List ℕ → Text → Exec (List ℕ)
  unfolding opened
  decrypt ciphertext key_ref = or_raise secret_error (opened ciphertext key_ref)
