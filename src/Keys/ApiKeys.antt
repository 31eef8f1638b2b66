-- ===== src/Keys/ApiKeys.antt =====
-- core/storage/user.go and the key handlers that use it: `CreateKeyHandler`, `DeleteKeyHandler`
-- (api/events.go), `checkAPIKeyIsExist` (api/common.go) and the key branch of api/jwt.go.
pub mod Maps
pub mod Users
pub mod Cases
pub mod Limit
pub mod Added
pub mod Login
use titan_explorer.Base.{
  ℕ, String, Bool, true, false, not, Option, none, some, List, [], ◌∷◌, length, any, leb,
  if◌then◌else◌, str_eq, or_return,
}
use Prim.Native.String.{◌++◌ as concat}
use titan_explorer.Keys.Bytes.{Bytes}
use titan_explorer.Keys.Cbc.{BlockCipher}
use titan_explorer.Keys.Cipher.{Base64, aes_encrypt_cbc, aes_decrypt_cbc}
use titan_explorer.Keys.Codec.{Codec}
use titan_explorer.Keys.ApiKeys.Maps.{lookup, put}

pub record UserApiKeysInfo : Type 0 where
  pub created_time : ℕ
  pub api_key : String

pub record UserApiKeySecretInfo : Type 0 where
  pub api_key : String
  pub api_secret : String
  pub created_time : ℕ

pub record UserKeyInfo : Type 0 where
  pub uid : String
  pub salt : String

-- `JWTPayload`
pub record JwtPayload : Type 0 where
  pub allow : List String
  pub id : String
  pub node_id : String
  pub extend : String
  pub access_control_list : List String

-- core/storage/types.go
abbrev pub user_access_control_all : List String
user_access_control_all =
    "readFile" ∷ "createFile" ∷ "deleteFile" ∷ "readFolder" ∷ "createFolder" ∷ "deleteFolder" ∷ []

abbrev pub max_api_key : ℕ
max_api_key = 20

-- The bytes of "7c10a37c75c545daa5cff0387d46f064".
abbrev pub crypto_key : Bytes
crypto_key =
    55 ∷ 99 ∷ 49 ∷ 48 ∷ 97 ∷ 51 ∷ 55 ∷ 99 ∷ 55 ∷ 53 ∷ 99 ∷ 53 ∷ 52 ∷ 53 ∷ 100 ∷ 97 ∷ 97 ∷ 53 ∷ 99
    ∷ 102 ∷ 102 ∷ 48 ∷ 51 ∷ 56 ∷ 55 ∷ 100 ∷ 52 ∷ 54 ∷ 102 ∷ 48 ∷ 54 ∷ 52 ∷ []

pub data KeyError : Type 0 where
  acl_error decode_error already_exist out_of_max sign_error encode_error : KeyError

pub data Result (A : Type 0) : Type 0 where
  failed : KeyError → Result A
  ok : A → Result A

-- `checkPermsIfInACL`; `true` is an error.
unfoldable all_in_acl : List String → Bool
all_in_acl [] = true
all_in_acl (p ∷ ps) = if any (str_eq p) user_access_control_all then all_in_acl ps else false

unfoldable pub check_perms_if_in_acl : List String → Bool
unfolding all_in_acl
check_perms_if_in_acl [] = true
check_perms_if_in_acl (p ∷ ps) = not (all_in_acl (p ∷ ps))

-- The keys in a buffer; an empty one has none.
abbrev pub decode_keys :
    {V : Type 0} → Codec (List (String × V)) → Bytes → Option (List (String × V))
decode_keys gob [] = some []
decode_keys gob (b ∷ buf) = gob.decode (b ∷ buf)

-- A result whose error is dropped.
abbrev pub or_zero : {A : Type 0} → Option A → A → A
or_zero none z = z
or_zero (some a) z = a

abbrev pub is_some : {A : Type 0} → Option A → Bool
is_some none = false
is_some (some a) = true

-- The tests of both creations, on the keys of the buffer.
unfoldable pub with_new_name :
    {V B : Type 0}
    → Codec (List (String × V))
    → Bytes
    → String
    → (List (String × V) → Result B)
    → Result B
unfolding lookup
with_new_name gob buf key_name f = or_return (decode_keys gob buf) (failed decode_error) λ api_keys.
    if is_some (lookup key_name api_keys)
    then failed already_exist
    else if leb max_api_key (length api_keys)
    then failed out_of_max
    else f api_keys

-- `CreateAPIKey`; `now` is the clock, `auth_new` signs.
unfoldable pub create_api_key :
    (gob : Codec (List (String × UserApiKeysInfo))) (auth_new : JwtPayload → Option String)
    (now : ℕ)
    → String
    → String
    → List String
    → Bytes
    → Result (Bytes × String)
unfolding check_perms_if_in_acl with_new_name put
create_api_key gob auth_new now user_id key_name perms buf =
    if check_perms_if_in_acl perms
    then failed acl_error
    else with_new_name gob buf key_name λ api_keys.
      or_return
        (auth_new (record {
          allow = "user" ∷ [];
          id = user_id;
          node_id = "";
          extend = key_name;
          access_control_list = perms;
        }))
        (failed sign_error)
        λ tk.
          or_return
            (gob.encode (put key_name (record { created_time = now; api_key = tk }) api_keys))
            (failed encode_error) λ buf'. ok (buf', tk)

-- What a creation takes from outside: the clock and `GenerateRandomString(6)` and `(48)`.
pub record Draw : Type 0 where
  pub now : ℕ
  pub salt : String
  pub secret : String

module _ (aes : BlockCipher) (base64 : Base64) (json : Codec UserKeyInfo) where
  -- The errors of `json.Marshal` and `AesEncryptCBC` are dropped: no bytes, or no text.
  unfoldable pub encrypted_key : String → String → String
  unfolding aes_encrypt_cbc
  encrypted_key user_id salt =
      let uk = or_zero (json.encode (record { uid = user_id; salt = salt })) [] in
      or_zero (aes_encrypt_cbc aes base64 uk crypto_key) ""

  -- `AesDecryptCBCByKey`
  unfoldable pub aes_decrypt_cbc_by_key : String → Option String
  unfolding aes_decrypt_cbc
  aes_decrypt_cbc_by_key cstr = elim (aes_decrypt_cbc aes base64 cstr crypto_key) [
    | none ↦ none
    | some uk ↦ elim (json.decode uk) [ none ↦ none | some info ↦ some info.uid ]
  ]

  -- `CreateAPIKeySecret`: the buffer, the key and its secret.
  unfoldable pub create_api_key_secret :
      Codec (List (String × UserApiKeySecretInfo))
      → Draw
      → String
      → String
      → Bytes
      → Result (Bytes × String × String)
  unfolding with_new_name put encrypted_key
  create_api_key_secret gob draw user_id key_name buf = with_new_name gob buf key_name λ api_keys.
      (let api_key = encrypted_key user_id draw.salt in
        let api_secret = concat "ts-" draw.secret in
        or_return
          (gob.encode (
            put key_name
              (record { api_key = api_key; api_secret = api_secret; created_time = draw.now })
              api_keys))
          (failed encode_error) λ buf'. ok (buf', api_key, api_secret))
