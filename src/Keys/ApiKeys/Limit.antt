-- ===== src/Keys/ApiKeys/Limit.antt =====
-- A user has at most 20 keys, under different names.
use titan_explorer.Base.{
  ℕ, ◌≤◌, ◌≡◌, refl, sym, subst, String, Option, none, some, List, [], ◌∷◌, All, length, arith,
  ◌==◌, if-holds, str_eq,
}
use titan_explorer.Keys.Bytes.{Bytes}
use titan_explorer.Keys.Cbc.{BlockCipher}
use titan_explorer.Keys.Cipher.{Base64}
use titan_explorer.Keys.Codec.{Codec}
use titan_explorer.Keys.ApiKeys.{UserApiKeySecretInfo, UserKeyInfo, Draw, decode_keys}
use titan_explorer.Keys.ApiKeys.Maps.{
  put, delete, length-put, length-delete, IsDistinct, put-IsDistinct, delete-IsDistinct,
}
use titan_explorer.Keys.ApiKeys.Users.{
  User, get_user_by_username, update_user_api_keys, KeyRequest, serve_keys, Fails,
  create_key_handler, delete_key_handler,
}
use titan_explorer.Keys.ApiKeys.Cases.{create_key_handler-holds, delete_key_handler-holds}

module _ (gob : Codec (List (String × UserApiKeySecretInfo))) where
  abbrev Each : Option (List (String × UserApiKeySecretInfo)) → Type 0
  Each none = Unit
  Each (some keys) = (length keys ≤ 20) × IsDistinct keys

  -- The keys in a buffer are at most 20, under different names.
  abbrev pub IsWithin : Bytes → Type 0
  IsWithin buf = Each (decode_keys gob buf)

  abbrev pub AreWithin : List User → Type 0
  AreWithin t = All (λ u. IsWithin u.api_keys) t

  pub decode_keys-encode :
      (keys : List (String × UserApiKeySecretInfo)) (buf : Bytes)
      → gob.encode keys ≡ some buf
      → decode_keys gob buf ≡ some keys
  decode_keys-encode keys [] e = absurd (gob.encode-nonempty keys [] e refl)
  decode_keys-encode keys (b ∷ buf) e = gob.decode-encode keys (b ∷ buf) e

  encoded-IsWithin :
      (keys : List (String × UserApiKeySecretInfo)) (buf : Bytes)
      → gob.encode keys ≡ some buf
      → length keys ≤ 20
      → IsDistinct keys
      → IsWithin buf
  encoded-IsWithin keys buf e l d = subst Each (sym (decode_keys-encode keys buf e)) (l, d)

  abbrev Of : Option User → Type 0
  Of none = Unit
  Of (some v) = IsWithin v.api_keys

  get_user-IsWithin :
      (n : String) (t : List User) (u : User)
      → AreWithin t
      → get_user_by_username n t ≡ some u
      → IsWithin u.api_keys
  unfolding get_user_by_username
  get_user-IsWithin n [] u a e = ground (arith, e)
  get_user-IsWithin n (v ∷ t) u (a, rest) e =
      if-holds (λ o. o ≡ some u → IsWithin u.api_keys) (str_eq v.username n) (some v)
        (get_user_by_username n t) (λ _ f. subst Of f a) (λ _ f. get_user-IsWithin n t u rest f) e

  update-AreWithin :
      (id : ℕ) (buf : Bytes) (t : List User)
      → AreWithin t
      → IsWithin buf
      → AreWithin (update_user_api_keys id buf t)
  unfolding update_user_api_keys
  update-AreWithin id buf [] a b = tt
  update-AreWithin id buf (u ∷ t) (a, rest) b = (
    if-holds (λ v. IsWithin v.api_keys) (u.id == id) (record u { api_keys = buf }) u (λ _. b)
        (λ _. a),
    update-AreWithin id buf t rest b,
  )

  module _ (aes : BlockCipher) (base64 : Base64) (json : Codec UserKeyInfo) where
    create-AreWithin :
        (fails : Fails) (draw : Draw) (user_id key_name : String) (t : List User)
        → AreWithin t
        → AreWithin (create_key_handler gob aes base64 json fails draw user_id key_name t).1
    create-AreWithin fails draw user_id key_name t a =
        create_key_handler-holds gob (λ r. AreWithin r.1) t (λ _ _. a) aes base64 json fails draw
          user_id key_name
          λ info keys buf u d l e.
            (let (_, distinct) = subst Each d (get_user-IsWithin user_id t info a u) in
              update-AreWithin info.id buf t a (
                encoded-IsWithin (put key_name _ keys) buf e
                  (omega (arith, length-put key_name _ keys, l))
                  (put-IsDistinct key_name _ keys distinct)))

    delete-AreWithin :
        (fails : Fails) (user_id key_name : String) (t : List User)
        → AreWithin t
        → AreWithin (delete_key_handler gob fails user_id key_name t).1
    delete-AreWithin fails user_id key_name t a =
        delete_key_handler-holds gob (λ r. AreWithin r.1) t (λ _ _. a) fails user_id key_name
          λ info keys buf u d e.
            (let (within, distinct) = subst Each d (get_user-IsWithin user_id t info a u) in
              update-AreWithin info.id buf t a (
                encoded-IsWithin (delete key_name keys) buf e
                  (omega (arith, length-delete key_name keys, within))
                  (delete-IsDistinct key_name keys distinct)))

    -- However keys are created and deleted, and whatever statement fails, every user has at most 20
    -- keys, under different names, if that holds at the start.
    pub serve_keys-AreWithin :
        (requests : List KeyRequest) (t : List User)
        → AreWithin t
        → AreWithin (serve_keys gob aes base64 json requests t)
    unfolding serve_keys
    serve_keys-AreWithin [] t a = a
    serve_keys-AreWithin (KeyRequest.create_key f d u k ∷ rest) t a =
        serve_keys-AreWithin rest _ (create-AreWithin f d u k t a)
    serve_keys-AreWithin (KeyRequest.delete_key f u k ∷ rest) t a =
        serve_keys-AreWithin rest _ (delete-AreWithin f u k t a)
