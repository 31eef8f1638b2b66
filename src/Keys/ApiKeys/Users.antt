-- ===== src/Keys/ApiKeys/Users.antt =====
-- The users' key buffers, and what the API does with them: `CreateKeyHandler` and
-- `DeleteKeyHandler` (api/events.go), `checkAPIKeyIsExist` (api/common.go), the branch of api/jwt.go
-- for a request with an API key.
use titan_explorer.Base.{
  ℕ, String, Bool, true, false, not, Option, none, some, List, [], ◌∷◌, if◌then◌else◌, str_eq, ◌==◌,
  or_return,
}
use titan_explorer.Keys.Bytes.{Bytes}
use titan_explorer.Keys.Cbc.{BlockCipher}
use titan_explorer.Keys.Cipher.{Base64}
use titan_explorer.Keys.Codec.{Codec}
use titan_explorer.Keys.ApiKeys.{
  UserApiKeySecretInfo, UserKeyInfo, KeyError, already_exist, out_of_max, Result, failed, ok, Draw,
  is_some, create_api_key_secret, aes_decrypt_cbc_by_key,
}
use titan_explorer.Keys.ApiKeys.Maps.{lookup, delete, has_value}

-- The columns of a user's row that the keys need.
pub record User : Type 0 where
  pub id : ℕ
  pub username : String
  pub api_keys : Bytes

-- `dao.GetUserByUsername`: the first row.
unfoldable pub get_user_by_username : String → List User → Option User
get_user_by_username n [] = none
get_user_by_username n (u ∷ t) = if str_eq u.username n then some u else get_user_by_username n t

abbrev pub is_empty : Bytes → Bool
is_empty [] = true
is_empty (b ∷ buf) = false

-- `dao.UpdateUserAPIKeys`
unfoldable pub update_user_api_keys : ℕ → Bytes → List User → List User
update_user_api_keys id buf [] = []
update_user_api_keys id buf (u ∷ t) =
    (if u.id == id then record u { api_keys = buf } else u) ∷ update_user_api_keys id buf t

-- The answers of the two handlers.
pub data Answer : Type 0 where
  user_not_found not_found internal_server : Answer
  web_error : KeyError → Answer
  created : String → String → Answer
  deleted : Answer

-- Which statements fail.
pub record Fails : Type 0 where
  pub on_read : Bool
  pub on_write : Bool

-- A request to create or to delete a key, of a user and under a name.
pub data KeyRequest : Type 0 where
  create_key : Fails → Draw → String → String → KeyRequest
  delete_key : Fails → String → String → KeyRequest

-- `*api.ErrWeb` is answered with its own code, any other error with `NotFound`.
abbrev pub error_answer : KeyError → Answer
error_answer already_exist = web_error already_exist
error_answer out_of_max = web_error out_of_max
error_answer _ = not_found

-- `dao.GetUserByUsername` with its error.
abbrev pub read_user : Fails → String → List User → Option User
read_user fails n t = if fails.on_read then none else get_user_by_username n t

-- The write that ends both handlers.
unfoldable pub store : Fails → ℕ → Bytes → Answer → List User → Answer × List User
unfolding update_user_api_keys
store fails id buf answer t =
    if fails.on_write then (internal_server, t) else (answer, update_user_api_keys id buf t)

-- The end of `CreateKeyHandler`.
abbrev pub store_created :
    Fails → User → List User → Result (Bytes × String × String) → Answer × List User
store_created fails info t (failed e) = (error_answer e, t)
store_created fails info t (ok (buf, key, secret)) = store fails info.id buf (created key secret) t

module _ (gob : Codec (List (String × UserApiKeySecretInfo))) where
  unfoldable pub delete_key_handler : Fails → String → String → List User → Answer × List User
  unfolding get_user_by_username store lookup delete
  delete_key_handler fails user_id key_name t =
      or_return (read_user fails user_id t) (user_not_found, t)
        λ info.
          if is_empty info.api_keys
          then (deleted, t)
          else or_return (gob.decode info.api_keys) (not_found, t)
              λ key_maps.
                if not (is_some (lookup key_name key_maps))
                then (not_found, t)
                else or_return (gob.encode (delete key_name key_maps)) (internal_server, t)
                    λ buf. store fails info.id buf deleted t

  -- `checkAPIKeyIsExist`; `none` is an error.
  unfoldable pub check_api_key_is_exist : Fails → String → String → List User → Option Bool
  unfolding get_user_by_username has_value
  check_api_key_is_exist fails api_key uid t = or_return (read_user fails uid t) none λ info.
      if is_empty info.api_keys
      then some false
      else or_return (gob.decode info.api_keys) none
          λ key_resp. some (has_value (λ v. str_eq v.api_key api_key) key_resp)

  module _ (aes : BlockCipher) (base64 : Base64) (json : Codec UserKeyInfo) where
    unfoldable pub create_key_handler :
        Fails → Draw → String → String → List User → Answer × List User
    unfolding get_user_by_username store create_api_key_secret
    create_key_handler fails draw user_id key_name t =
        or_return (read_user fails user_id t) (user_not_found, t)
          λ info.
            store_created fails info t
              (create_api_key_secret aes base64 json gob draw user_id key_name info.api_keys)

    -- The user that a request with an API key acts for; `none` is "unauthorized".
    unfoldable pub authenticate : Fails → String → List User → Option String
    unfolding aes_decrypt_cbc_by_key check_api_key_is_exist
    authenticate fails api_key t =
        or_return (aes_decrypt_cbc_by_key aes base64 json api_key) none λ uid.
          or_return (check_api_key_is_exist fails api_key uid t) none
            λ exists. if exists then some uid else none

    -- Requests one after the other.
    unfoldable pub serve_keys : List KeyRequest → List User → List User
    unfolding create_key_handler delete_key_handler
    serve_keys [] t = t
    serve_keys (KeyRequest.create_key f draw user_id key_name ∷ rest) t =
        serve_keys rest (create_key_handler f draw user_id key_name t).1
    serve_keys (KeyRequest.delete_key f user_id key_name ∷ rest) t =
        serve_keys rest (delete_key_handler f user_id key_name t).1
