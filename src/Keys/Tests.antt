-- ===== src/Keys/Tests.antt =====
-- The keys at concrete inputs: runs, and the theorems at values that meet their hypotheses.
use titan_explorer.Base.{
  ℕ, zero, suc, ◌+◌, ◌≡◌, ◌≢◌, refl, sym, ap, subst, ◌∙◌, String, Bool, true, false, ◌&&◌, Option,
  none, some, List, [], ◌∷◌, All, replicate, arith, if◌then◌else◌, str_eq, eq_iff, ◌==◌,
}
use Prim.Native.String.String.{[] as nil, ◌∷◌ as cons}
use Prim.Native.Char.{char, code}
use titan_explorer.Keys.Bytes.{
  Bytes, IsByte, xor_bytes, length-xor_bytes, xor_bytes-IsByte, xor_bytes-twice,
}
use titan_explorer.Keys.Padding.{
  pkcs7_padding, pkcs7_un_padding, unpadded, slice_panic, un_padding-padding,
}
use titan_explorer.Keys.Cbc.{BlockCipher}
use titan_explorer.Keys.Cipher.{
  Base64, is_key_size, aes_encrypt_cbc, aes_decrypt_cbc, aes_decrypt-encrypt,
}
use titan_explorer.Keys.Codec.{Codec}
use titan_explorer.Keys.ApiKeys.{
  UserApiKeysInfo, create_api_key, ok, UserApiKeySecretInfo, UserKeyInfo, Draw, crypto_key,
  check_perms_if_in_acl, encrypted_key,
}
use titan_explorer.Keys.ApiKeys.Users.{
  User, created, Fails, KeyRequest, create_key_handler, serve_keys,
}
use titan_explorer.Keys.ApiKeys.Added.{Added, create_api_key-Added}
use titan_explorer.Keys.ApiKeys.Limit.{AreWithin, serve_keys-AreWithin}
use titan_explorer.Keys.ApiKeys.Login.{LogsIn, create_key_handler-LogsIn}

pads : pkcs7_padding (1 ∷ 2 ∷ 3 ∷ []) 4 ≡ 1 ∷ 2 ∷ 3 ∷ 1 ∷ []
unfolding pkcs7_padding
pads = refl

-- A last byte beyond the length is not checked: the slice panics.
broken_padding : pkcs7_un_padding (1 ∷ 9 ∷ []) ≡ slice_panic
unfolding pkcs7_un_padding
broken_padding = refl

un_padding-padding_example :
    pkcs7_un_padding (pkcs7_padding (1 ∷ 2 ∷ 3 ∷ []) 16) ≡ unpadded (1 ∷ 2 ∷ 3 ∷ [])
un_padding-padding_example = un_padding-padding (1 ∷ 2 ∷ 3 ∷ []) 16 (omega arith) (omega arith)

acl :
    (check_perms_if_in_acl ("readFile" ∷ "deleteFolder" ∷ []) ≡ false)
    × (check_perms_if_in_acl ("root" ∷ []) ≡ true)
unfolding check_perms_if_in_acl
acl = (refl, refl)

-- A permutation of the blocks: every bit is turned.
abbrev mask : Bytes
mask = replicate 16 255

abbrev cipher : BlockCipher
cipher = record {
  encrypt = λ key b. xor_bytes b mask;
  decrypt = λ key b. xor_bytes b mask;
  length-encrypt = λ key b h. length-xor_bytes b mask h ∙ h;
  encrypt-IsByte = λ key b p. xor_bytes-IsByte b mask;
  decrypt-encrypt = λ key b p h. xor_bytes-twice b mask p h;
}

-- A text for bytes: a byte n as n times "a" and a "b".
abbrev unary : ℕ → String → String
unary zero s = cons (char 98 tt) s
unary (suc n) s = cons (char 97 tt) (unary n s)

abbrev to_text : Bytes → String
to_text [] = ""
to_text (b ∷ t) = unary b (to_text t)

abbrev prepend : ℕ → Option Bytes → Option Bytes
prepend n none = none
prepend n (some t) = some (n ∷ t)

abbrev of_text : ℕ → String → Option Bytes
of_text n nil = some []
of_text n (cons c s) =
    let more = of_text (suc n) s in
    let next = of_text 0 s in if code c == 97 then more else prepend n next

of_text-unary : (m n : ℕ) (s : String) → of_text m (unary n s) ≡ prepend (m + n) (of_text 0 s)
of_text-unary m zero s = ap (λ k. prepend k (of_text 0 s)) (omega arith)
of_text-unary m (suc n) s =
    of_text-unary (suc m) n s ∙ ap (λ k. prepend k (of_text 0 s)) (omega arith)

of_text-to_text : (b : Bytes) → of_text 0 (to_text b) ≡ some b
of_text-to_text [] = refl
of_text-to_text (b ∷ t) =
    of_text-unary 0 b (to_text t)
    ∙ ap (λ o. prepend (0 + b) o) (of_text-to_text t)
    ∙ ap (λ k. some (k ∷ t)) (omega arith)

abbrev base64 : Base64
base64 = record { encode = to_text; decode = of_text 0; decode-encode = of_text-to_text }

aes_decrypt-encrypt_example :
    (text : String) × (aes_encrypt_cbc cipher base64 (1 ∷ 2 ∷ 3 ∷ []) crypto_key ≡ some text)
    × (aes_decrypt_cbc cipher base64 text crypto_key ≡ some (1 ∷ 2 ∷ 3 ∷ []))
unfolding is_key_size
aes_decrypt-encrypt_example =
    aes_decrypt-encrypt cipher base64 (1 ∷ 2 ∷ 3 ∷ []) crypto_key
      (omega arith, (omega arith, (omega arith, tt))) refl

-- Encodings of one value each: any other value fails.
module _ {A : Type 0} (is : A → Bool) (value : A) (same : (a : A) → is a ≡ true → a ≡ value) where
  abbrev encode_one : A → Option Bytes
  encode_one a = if is a then some (1 ∷ 2 ∷ []) else none

  abbrev decode_one : Bytes → Option A
  decode_one [] = none
  decode_one (b ∷ t) = some value

  encode_one-bytes : (a : A) (b : Bytes) → encode_one a ≡ some b → b ≡ 1 ∷ 2 ∷ []
  encode_one-bytes a b e = ground (arith, e)

  encode_one-value : (a : A) (b : Bytes) → encode_one a ≡ some b → is a ≡ true
  encode_one-value a b e = ground (arith, e)

  encode_one-nonempty : (a : A) (b : Bytes) → encode_one a ≡ some b → b ≢ []
  encode_one-nonempty a b e n = ground (arith, encode_one-bytes a b e, n)

  abbrev codec_of_one : Codec A
  codec_of_one = record {
    encode = encode_one;
    decode = decode_one;
    decode-encode = λ a b e.
        ap decode_one (encode_one-bytes a b e) ∙ ap some (sym (same a (encode_one-value a b e)));
    encode-nonempty = encode_one-nonempty;
    encode-IsByte =
        λ a b e. subst (All IsByte) (sym (encode_one-bytes a b e)) (omega arith, (omega arith, tt));
  }

abbrev draw : Draw
draw = record { now = 7; salt = "abcdef"; secret = "s3cret" }

is_the_info-same :
    (i : UserKeyInfo)
    → (str_eq i.uid "titan1a" && str_eq i.salt "abcdef") ≡ true
    → i ≡ record { uid = "titan1a"; salt = "abcdef" }
is_the_info-same i e = ground (arith, e, eq_iff i.uid "titan1a", eq_iff i.salt "abcdef")

abbrev json : Codec UserKeyInfo
json =
    codec_of_one (λ i. str_eq i.uid "titan1a" && str_eq i.salt "abcdef")
      (record { uid = "titan1a"; salt = "abcdef" }) is_the_info-same

abbrev the_key : UserApiKeySecretInfo
the_key = record {
  api_key = encrypted_key cipher base64 json "titan1a" "abcdef";
  api_secret = "ts-s3cret";
  created_time = 7;
}

abbrev is_the_key : List (String × UserApiKeySecretInfo) → Bool
is_the_key ((n, k) ∷ []) =
    str_eq n "laptop"
    && (str_eq k.api_key the_key.api_key
        && (str_eq k.api_secret the_key.api_secret && k.created_time == 7))
is_the_key _ = false

is_the_key-same :
    (m : List (String × UserApiKeySecretInfo)) → is_the_key m ≡ true → m ≡ ("laptop", the_key) ∷ []
is_the_key-same [] e = ground (arith, e)
is_the_key-same ((n, k) ∷ []) e = ground (
  arith,
  e,
  eq_iff n "laptop",
  eq_iff k.api_key the_key.api_key,
  eq_iff k.api_secret the_key.api_secret,
)
is_the_key-same (p ∷ q ∷ m) e = ground (arith, e)

abbrev gob : Codec (List (String × UserApiKeySecretInfo))
gob = codec_of_one is_the_key (("laptop", the_key) ∷ []) is_the_key-same

abbrev users : List User
users = record { id = 1; username = "titan1a"; api_keys = [] } ∷ []

abbrev no_fail : Fails
no_fail = record { on_read = false; on_write = false }

create_key_handler-LogsIn_example :
    LogsIn gob cipher base64 json no_fail "titan1a"
      (create_key_handler gob cipher base64 json no_fail draw "titan1a" "laptop" users)
create_key_handler-LogsIn_example =
    create_key_handler-LogsIn gob cipher base64 json no_fail refl no_fail draw "titan1a" "laptop"
      users (1 ∷ 2 ∷ []) refl

serve_keys-AreWithin_example : AreWithin gob (
    serve_keys gob cipher base64 json
      (KeyRequest.create_key no_fail draw "titan1a" "laptop"
        ∷ KeyRequest.create_key no_fail draw "titan1a" "laptop"
        ∷ KeyRequest.delete_key no_fail "titan1a" "laptop"
        ∷ [])
      users)
serve_keys-AreWithin_example =
    serve_keys-AreWithin gob cipher base64 json
      (KeyRequest.create_key no_fail draw "titan1a" "laptop"
        ∷ KeyRequest.create_key no_fail draw "titan1a" "laptop"
        ∷ KeyRequest.delete_key no_fail "titan1a" "laptop"
        ∷ [])
      users ((omega arith, tt), tt)

-- The creation goes through: the answer is a key.
created_laptop :
    (create_key_handler gob cipher base64 json no_fail draw "titan1a" "laptop" users).0
    ≡ created the_key.api_key "ts-s3cret"
unfolding create_key_handler
created_laptop = refl

abbrev the_token : UserApiKeysInfo
the_token = record { created_time = 7; api_key = "jwt" }

abbrev is_the_token : List (String × UserApiKeysInfo) → Bool
is_the_token ((n, k) ∷ []) = str_eq n "laptop" && (str_eq k.api_key "jwt" && k.created_time == 7)
is_the_token _ = false

is_the_token-same :
    (m : List (String × UserApiKeysInfo)) → is_the_token m ≡ true → m ≡ ("laptop", the_token) ∷ []
is_the_token-same [] e = ground (arith, e)
is_the_token-same ((n, k) ∷ []) e = ground (arith, e, eq_iff n "laptop", eq_iff k.api_key "jwt")
is_the_token-same (p ∷ q ∷ m) e = ground (arith, e)

abbrev token_gob : Codec (List (String × UserApiKeysInfo))
token_gob = codec_of_one is_the_token (("laptop", the_token) ∷ []) is_the_token-same

created_token :
    create_api_key token_gob (λ _. some "jwt") 7 "titan1a" "laptop" ("readFile" ∷ []) []
    ≡ ok (1 ∷ 2 ∷ [], "jwt")
unfolding create_api_key
created_token = refl

create_api_key-Added_example :
    Added token_gob 7 [] "laptop"
      (create_api_key token_gob (λ _. some "jwt") 7 "titan1a" "laptop" ("readFile" ∷ []) [])
create_api_key-Added_example =
    create_api_key-Added token_gob 7 [] "laptop" (λ _. some "jwt") "titan1a" ("readFile" ∷ [])
