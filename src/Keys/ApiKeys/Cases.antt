-- ===== src/Keys/ApiKeys/Cases.antt =====
-- What holds after the creation or deletion of a key, case by case.
use titan_explorer.Base.{
  ◌<◌, ◌≡◌, refl, String, Bool, true, false, Option, none, some, List, [], ◌∷◌, length, leb, arith,
  or_return-holds, if-holds, not, ◌∙◌,
}
use Prim.Native.String.{◌++◌ as concat}
use titan_explorer.Keys.Bytes.{Bytes}
use titan_explorer.Keys.Cbc.{BlockCipher}
use titan_explorer.Keys.Cipher.{Base64}
use titan_explorer.Keys.Codec.{Codec}
use titan_explorer.Keys.ApiKeys.{
  UserApiKeySecretInfo, UserKeyInfo, KeyError, acl_error, sign_error, decode_error, already_exist,
  out_of_max, encode_error, Result, failed, with_new_name, is_some, Draw, decode_keys,
  encrypted_key, create_api_key_secret,
}
use titan_explorer.Keys.ApiKeys.Maps.{lookup, put, delete}
use titan_explorer.Keys.ApiKeys.Users.{
  User, get_user_by_username, update_user_api_keys, Answer, created, deleted, Fails, read_user,
  error_answer, store, store_created, is_empty, create_key_handler, delete_key_handler,
}

is_some-none : {A : Type 0} (o : Option A) → is_some o ≡ false → o ≡ none
is_some-none none e = refl
is_some-none (some a) e = ground (arith, e)

-- A creation goes on only with a new name and with fewer keys than allowed.
pub with_new_name-holds :
    {V B : Type 0} (P : Result B → Type 0) (gob : Codec (List (String × V))) (buf : Bytes)
    (key_name : String) (f : List (String × V) → Result B)
    → ((e : KeyError) → P (failed e))
    → ((keys : List (String × V))
        → decode_keys gob buf ≡ some keys
        → lookup key_name keys ≡ none
        → length keys < 20
        → P (f keys))
    → P (with_new_name gob buf key_name f)
unfolding with_new_name
with_new_name-holds P gob buf key_name f p q =
    or_return-holds P (decode_keys gob buf) _ _ (p decode_error) λ keys e.
      if-holds P (is_some (lookup key_name keys)) _ _ (λ _. p already_exist)
        λ n.
          if-holds P (leb 20 (length keys)) _ _ (λ _. p out_of_max)
            λ l. q keys e (is_some-none (lookup key_name keys) n) (ground (arith, l))

read_user-some :
    (fails : Fails) (n : String) (t : List User) (u : User)
    → read_user fails n t ≡ some u
    → get_user_by_username n t ≡ some u
read_user-some fails n t u e = ground (arith, e)

decodes :
    {V : Type 0} (gob : Codec (List (String × V))) (buf : Bytes)
    → is_empty buf ≡ false
    → decode_keys gob buf ≡ gob.decode buf
decodes gob [] e = ground (arith, e)
decodes gob (b ∷ buf) e = refl

abbrev pub is_created : Answer → Bool
is_created (created key secret) = true
is_created _ = false

error_answer-is_created : (e : KeyError) → is_created (error_answer e) ≡ false
error_answer-is_created acl_error = refl
error_answer-is_created decode_error = refl
error_answer-is_created already_exist = refl
error_answer-is_created out_of_max = refl
error_answer-is_created sign_error = refl
error_answer-is_created encode_error = refl

module _ (gob : Codec (List (String × UserApiKeySecretInfo))) (P : Answer × List User → Type 0)
    (t : List User) (unchanged : (a : Answer) → is_created a ≡ false → P (a, t)) where
  pub delete_key_handler-holds :
      (fails : Fails) (user_id key_name : String)
      → ((info : User) (keys : List (String × UserApiKeySecretInfo)) (buf : Bytes)
          → get_user_by_username user_id t ≡ some info
          → decode_keys gob info.api_keys ≡ some keys
          → gob.encode (delete key_name keys) ≡ some buf
          → P (deleted, update_user_api_keys info.id buf t))
      → P (delete_key_handler gob fails user_id key_name t)
  unfolding delete_key_handler store
  delete_key_handler-holds fails user_id key_name q =
      or_return-holds P (read_user fails user_id t) _ _ (unchanged _ refl) λ info r.
        if-holds P (is_empty info.api_keys) _ _ (λ _. unchanged _ refl)
          λ n. or_return-holds P (gob.decode info.api_keys) _ _ (unchanged _ refl) λ keys d.
            if-holds P (not (is_some (lookup key_name keys))) _ _ (λ _. unchanged _ refl)
              λ _.
                or_return-holds P (gob.encode (delete key_name keys)) _ _ (unchanged _ refl)
                  λ buf e.
                    if-holds P fails.on_write _ _ (λ _. unchanged _ refl)
                      λ _.
                        q info keys buf (read_user-some fails user_id t info r)
                          (decodes gob info.api_keys n ∙ d) e

  module _ (aes : BlockCipher) (base64 : Base64) (json : Codec UserKeyInfo) where
    pub create_key_handler-holds :
        (fails : Fails) (draw : Draw) (user_id key_name : String)
        → ((info : User) (keys : List (String × UserApiKeySecretInfo)) (buf : Bytes)
            → get_user_by_username user_id t ≡ some info
            → decode_keys gob info.api_keys ≡ some keys
            → length keys < 20
            → let key = encrypted_key aes base64 json user_id draw.salt in
              let secret = concat "ts-" draw.secret in
              gob.encode (
                  put key_name
                    (record { api_key = key; api_secret = secret; created_time = draw.now })
                    keys)
                ≡ some buf
              → P (created key secret, update_user_api_keys info.id buf t))
        → P (create_key_handler gob aes base64 json fails draw user_id key_name t)
    unfolding create_key_handler create_api_key_secret store
    create_key_handler-holds fails draw user_id key_name q =
        or_return-holds P (read_user fails user_id t) _ _ (unchanged _ refl) λ info r.
          with_new_name-holds (λ c. P (store_created fails info t c)) gob info.api_keys key_name _
            (λ e. unchanged _ (error_answer-is_created e))
            λ keys d n l.
              or_return-holds (λ c. P (store_created fails info t c)) (gob.encode _) _ _
                (unchanged _ refl)
                λ buf e.
                  if-holds P fails.on_write _ _ (λ _. unchanged _ refl)
                    λ _. q info keys buf (read_user-some fails user_id t info r) d l e
