-- ===== src/Keys/ApiKeys/Login.antt =====
-- What a request with an API key is taken for.
use titan_explorer.Base.{◌≡◌, ◌≢◌, refl, String, false, some, List, [], ◌∷◌, arith, str_eq, eq_iff}
use Prim.Native.String.{◌++◌ as concat}
use titan_explorer.Keys.Bytes.{Bytes}
use titan_explorer.Keys.Cbc.{BlockCipher}
use titan_explorer.Keys.Cipher.{Base64, is_key_size, aes_decrypt-encrypt}
use titan_explorer.Keys.Codec.{Codec}
use titan_explorer.Keys.ApiKeys.{
  UserApiKeySecretInfo, UserKeyInfo, Draw, crypto_key, encrypted_key, aes_decrypt_cbc_by_key,
}
use titan_explorer.Keys.ApiKeys.Maps.{put, has_value, has_value-put}
use titan_explorer.Keys.ApiKeys.Users.{
  User, get_user_by_username, update_user_api_keys, is_empty, Answer, user_not_found, not_found,
  internal_server, web_error, created, deleted, Fails, create_key_handler, check_api_key_is_exist,
  authenticate,
}
use titan_explorer.Keys.ApiKeys.Cases.{is_created, create_key_handler-holds}

get_user-update :
    (n : String) (buf : Bytes) (t : List User) (u : User)
    → get_user_by_username n t ≡ some u
    → get_user_by_username n (update_user_api_keys u.id buf t) ≡ some (record u { api_keys = buf })
unfolding get_user_by_username update_user_api_keys
get_user-update n buf [] u e = ground (arith, e)
get_user-update n buf (v ∷ t) u e = ground (arith, e, get_user-update n buf t u)

module _ (aes : BlockCipher) (base64 : Base64) (json : Codec UserKeyInfo) where
  -- A key decrypts to the user that it was made for.
  pub decrypt_by_key-encrypted_key :
      (uid salt : String) (b : Bytes)
      → json.encode (record { uid = uid; salt = salt }) ≡ some b
      → aes_decrypt_cbc_by_key aes base64 json (encrypted_key aes base64 json uid salt) ≡ some uid
  unfolding aes_decrypt_cbc_by_key encrypted_key is_key_size
  decrypt_by_key-encrypted_key uid salt b e =
      let info : UserKeyInfo = record { uid = uid; salt = salt } in
      let (text, enc, dec) =
        aes_decrypt-encrypt aes base64 b crypto_key (json.encode-IsByte info b e) refl in
      ground (arith, e, enc, dec, json.decode-encode info b e)

not_empty : (b : Bytes) → b ≢ [] → is_empty b ≡ false
not_empty [] n = absurd (n refl)
not_empty (c ∷ b) n = refl

module _ (gob : Codec (List (String × UserApiKeySecretInfo))) where
  -- What the check of a key finds for a user whose buffer holds the encoding of `keys`.
  check-encoded :
      (f : Fails) (key uid : String) (t : List User) (u : User)
      (keys : List (String × UserApiKeySecretInfo))
      → f.on_read ≡ false
      → get_user_by_username uid t ≡ some u
      → gob.encode keys ≡ some u.api_keys
      → check_api_key_is_exist gob f key uid t ≡ some (has_value (λ v. str_eq v.api_key key) keys)
  unfolding check_api_key_is_exist
  check-encoded f key uid t u keys r e c = ground (
    arith,
    r,
    e,
    not_empty u.api_keys (gob.encode-nonempty keys u.api_keys c),
    gob.decode-encode keys u.api_keys c,
  )

module _ (gob : Codec (List (String × UserApiKeySecretInfo))) (aes : BlockCipher) (base64 : Base64)
    (json : Codec UserKeyInfo) where
  -- A key that was answered acts for the user.
  abbrev pub LogsIn : Fails → String → Answer × List User → Type 0
  LogsIn f user_id (created key secret, t) = authenticate gob aes base64 json f key t ≡ some user_id
  LogsIn f user_id _ = Unit

  others :
      (f : Fails) (user_id : String) (t : List User) (a : Answer)
      → is_created a ≡ false
      → LogsIn f user_id (a, t)
  others f user_id t (created key secret) e = ground (arith, e)
  others f user_id t user_not_found e = tt
  others f user_id t not_found e = tt
  others f user_id t internal_server e = tt
  others f user_id t (web_error k) e = tt
  others f user_id t deleted e = tt

  -- Where a user creates a key, and the JSON of the user and the salt is some bytes, a request with this key is then taken for this user, unless the read
  -- of the user fails.
  pub create_key_handler-LogsIn :
      (f : Fails)
      → f.on_read ≡ false
      → (fails : Fails) (draw : Draw) (user_id key_name : String) (t : List User) (b : Bytes)
      → json.encode (record { uid = user_id; salt = draw.salt }) ≡ some b
      → LogsIn f user_id (create_key_handler gob aes base64 json fails draw user_id key_name t)
  unfolding authenticate
  create_key_handler-LogsIn f r fails draw user_id key_name t b j =
      create_key_handler-holds gob (LogsIn f user_id) t (others f user_id t) aes base64 json fails
        draw user_id key_name
        λ info keys buf u d l e.
          (let v : UserApiKeySecretInfo = record {
            api_key = encrypted_key aes base64 json user_id draw.salt;
            api_secret = concat "ts-" draw.secret;
            created_time = draw.now;
          } in
            let known =
              check-encoded gob f v.api_key user_id (update_user_api_keys info.id buf t)
                (record info { api_keys = buf }) (put key_name v keys) r
                (get_user-update user_id buf t info u) e in
            let there =
              has_value-put (λ w. str_eq w.api_key v.api_key) key_name v keys
                ((eq_iff v.api_key v.api_key).1 refl) in
            ground (
              arith,
              decrypt_by_key-encrypted_key aes base64 json user_id draw.salt b j,
              known,
              there,
            ))
