-- ===== src/Keys/Codec.antt =====
-- Encodings of the standard library and of `gbrlsnchs/jwt` that core/storage calls, as parameters:
-- what is encoded is some bytes and decodes to itself.
use titan_explorer.Base.{◌≡◌, Option, some, [], All, ◌≢◌}
use titan_explorer.Keys.Bytes.{Bytes, IsByte}

pub record Codec (A : Type 0) : Type 0 where
  pub encode : A → Option Bytes
  pub decode : Bytes → Option A
  pub decode-encode : (a : A) (b : Bytes) → encode a ≡ some b → decode b ≡ some a
  pub encode-nonempty : (a : A) (b : Bytes) → encode a ≡ some b → b ≢ []
  pub encode-IsByte : (a : A) (b : Bytes) → encode a ≡ some b → All IsByte b
