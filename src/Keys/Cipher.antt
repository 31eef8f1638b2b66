-- ===== src/Keys/Cipher.antt =====
-- `AesEncryptCBC` and `AesDecryptCBC` of core/storage/common.go.
use titan_explorer.Base.{
  ℕ, ◌-◌, ◌*◌, ◌/◌, ◌%◌, ◌≡◌, ap, ◌∙◌, String, Bool, not, ◌||◌, true, Option, none, some, All,
  length, take, ◌==◌, arith, if◌then◌else◌,
}
use titan_explorer.Keys.Bytes.{Bytes, IsByte}
use titan_explorer.Keys.Padding.{
  pkcs7_padding, pkcs7_un_padding, unpadded, empty_error, slice_panic, Unpadded,
  length-pkcs7_padding, un_padding-padding, pkcs7_padding-IsByte,
}
use titan_explorer.Keys.Cbc.{
  BlockCipher, cbc_encrypt, cbc_decrypt, length-cbc_encrypt, length-take, cbc_decrypt-encrypt,
  block_size,
}

-- `base64.StdEncoding`: what is encoded decodes to itself.
pub record Base64 : Type 0 where
  pub encode : Bytes → String
  pub decode : String → Option Bytes
  pub decode-encode : (b : Bytes) → decode (encode b) ≡ some b

-- The key sizes that `aes.NewCipher` accepts.
unfoldable pub is_key_size : ℕ → Bool
is_key_size n = n == 16 || (n == 24 || n == 32)

length-take_16 : (key : Bytes) → is_key_size (length key) ≡ true → length (take 16 key) ≡ 16
unfolding is_key_size
length-take_16 key k = length-take 16 (length key - 16) key (ground (arith, k))

-- A panic, of `CryptBlocks` on a broken block or of the slice, is recovered as an error.
abbrev un_padded : Unpadded → Option Bytes
un_padded (unpadded t) = some t
un_padded empty_error = none
un_padded slice_panic = none

module _ (aes : BlockCipher) (base64 : Base64) where
  -- `none` is an error.
  unfoldable pub aes_encrypt_cbc : Bytes → Bytes → Option String
  unfolding is_key_size pkcs7_padding cbc_encrypt
  aes_encrypt_cbc bytes key =
      if not (is_key_size (length key))
      then none
      else (let padded = pkcs7_padding bytes block_size in
          some (
            base64.encode
              (cbc_encrypt aes key (length padded / block_size) (take block_size key) padded)))

  abbrev un_pad : Bytes → Option Bytes
  un_pad crypted = un_padded (pkcs7_un_padding crypted)

  unfoldable pub aes_decrypt_cbc : String → Bytes → Option Bytes
  unfolding is_key_size pkcs7_un_padding cbc_decrypt
  aes_decrypt_cbc text key = elim (base64.decode text) [
    | none ↦ none
    | some bytes ↦
        if not (is_key_size (length key))
        then none
        else if not (length bytes % block_size == 0)
        then none
        else un_pad (cbc_decrypt aes key (length bytes / block_size) (take block_size key) bytes)
  ]

  decrypts :
      (text : String) (bytes key : Bytes) (n : ℕ)
      → base64.decode text ≡ some bytes
      → is_key_size (length key) ≡ true
      → length bytes ≡ n * 16
      → aes_decrypt_cbc text key ≡ un_pad (cbc_decrypt aes key n (take block_size key) bytes)
  unfolding aes_decrypt_cbc
  decrypts text bytes key n e k h =
      let whole : length bytes % 16 ≡ 0 = omega (arith, h) in
      let blocks : length bytes / 16 ≡ n = omega (arith, h) in
      ground
        (arith, e, k, whole, ap (λ m. un_pad (cbc_decrypt aes key m (take 16 key) bytes)) blocks)

  -- With a key of a size that AES has, bytes encrypt to a text that decrypts to them.
  pub aes_decrypt-encrypt :
      (bytes key : Bytes)
      → All IsByte bytes
      → is_key_size (length key) ≡ true
      → (text : String) × (aes_encrypt_cbc bytes key ≡ some text)
        × (aes_decrypt_cbc text key ≡ some bytes)
  unfolding aes_encrypt_cbc
  aes_decrypt-encrypt bytes key p k =
      let padded = pkcs7_padding bytes 16 in
      let (whole, _, _) = length-pkcs7_padding bytes 16 (omega arith) in
      let n = length padded / 16 in
      let size : length padded ≡ n * 16 = omega (arith, whole) in
      let iv : length (take 16 key) ≡ 16 = length-take_16 key k in
      let crypted = cbc_encrypt aes key n (take 16 key) padded in
      (
        base64.encode crypted,
        ground (arith, k),
        decrypts (base64.encode crypted) crypted key n (base64.decode-encode crypted) k
              (length-cbc_encrypt aes key n (take 16 key) padded iv size)
            ∙ ap un_pad (
                cbc_decrypt-encrypt aes key n (take 16 key) padded iv size
                  (pkcs7_padding-IsByte bytes 16 p))
            ∙ ap un_padded (un_padding-padding bytes 16 (omega arith) (omega arith)),
      )
