-- ===== src/Keys/ApiKeys/Added.antt =====
-- What `CreateAPIKey` of core/storage/user.go adds.
use titan_explorer.Base.{
  ℕ, ◌<◌, ◌≡◌, refl, String, Option, none, some, List, [], ◌∷◌, length, if◌then◌else◌, str_eq,
  or_return-holds, if-holds,
}
use titan_explorer.Keys.Bytes.{Bytes}
use titan_explorer.Keys.Codec.{Codec}
use titan_explorer.Keys.ApiKeys.{
  UserApiKeysInfo, JwtPayload, Result, failed, ok, check_perms_if_in_acl, decode_keys,
  create_api_key,
}
use titan_explorer.Keys.ApiKeys.Maps.{lookup, put, lookup-put}
use titan_explorer.Keys.ApiKeys.Cases.{with_new_name-holds}

-- The keys of `buf'` are those of `buf` and one of a new name.
pub record Adds (gob : Codec (List (String × UserApiKeysInfo))) (buf buf' : Bytes) (name : String)
    (key : UserApiKeysInfo) : Type 0 where
  pub keys : List (String × UserApiKeysInfo)
  pub keys' : List (String × UserApiKeysInfo)
  pub before : decode_keys gob buf ≡ some keys
  pub after : decode_keys gob buf' ≡ some keys'
  pub is_new : lookup name keys ≡ none
  pub has_room : length keys < 20
  pub others_stay :
      (n : String) → lookup n keys' ≡ (if str_eq name n then some key else lookup n keys)

decode_keys-encode :
    (gob : Codec (List (String × UserApiKeysInfo))) (keys : List (String × UserApiKeysInfo))
    (buf : Bytes)
    → gob.encode keys ≡ some buf
    → decode_keys gob buf ≡ some keys
decode_keys-encode gob keys [] e = absurd (gob.encode-nonempty keys [] e refl)
decode_keys-encode gob keys (b ∷ buf) e = gob.decode-encode keys (b ∷ buf) e

module _ (gob : Codec (List (String × UserApiKeysInfo))) (now : ℕ) (buf : Bytes)
    (name : String) where
  abbrev pub Added : Result (Bytes × String) → Type 0
  Added (ok (buf', tk)) = Adds gob buf buf' name (record { created_time = now; api_key = tk })
  Added (failed e) = Unit

  -- A key that is created is added under a new name, within the limit, and leaves the others as they
  -- are.
  pub create_api_key-Added :
      (auth_new : JwtPayload → Option String) (user_id : String) (perms : List String)
      → Added (create_api_key gob auth_new now user_id name perms buf)
  unfolding create_api_key
  create_api_key-Added auth_new user_id perms =
      if-holds Added (check_perms_if_in_acl perms) _ _ (λ _. tt)
        λ _.
          with_new_name-holds Added gob buf name _ (λ e. tt)
            λ keys d n l. or_return-holds Added (auth_new _) _ _ tt λ tk _.
              or_return-holds Added (gob.encode _) _ _ tt λ buf' e. record {
                keys = keys;
                keys' = put name (record { created_time = now; api_key = tk }) keys;
                before = d;
                after = decode_keys-encode gob _ buf' e;
                is_new = n;
                has_room = l;
                others_stay = λ m. lookup-put name m _ keys;
              }
