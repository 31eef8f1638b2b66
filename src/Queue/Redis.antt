-- ===== src/Queue/Redis.antt =====
-- What core/oprds/redis.go uses of Redis, as a parameter: the commands, which may fail, and what
-- their documentation says of those that do not.
use titan_explorer.Base.{
  ℕ, suc, ◌+◌, ◌≡◌, String, Option, some, List, [], ◌∷◌, if◌then◌else◌, str_eq,
}
use titan_explorer.Base.Int.{ℤ, pos}

-- The answer of `GET` read as a number: no such key, a number, or an error.
pub data IntReply : Type 0 where
  nil : IntReply
  int : ℤ → IntReply
  int_error : IntReply

-- A reply that is no error tells the count, a missing key that it is 0.
abbrev pub Replies : IntReply → ℕ → Type 0
Replies nil n = n ≡ 0
Replies (int z) n = z ≡ pos n
Replies int_error n = Unit

-- LREM with count 1 and with count 0.
unfoldable pub remove_first : String → List String → List String
remove_first v [] = []
remove_first v (x ∷ l) = if str_eq x v then l else x ∷ remove_first v l

unfoldable pub remove_all : String → List String → List String
remove_all v [] = []
remove_all v (x ∷ l) = let rest = remove_all v l in if str_eq x v then rest else x ∷ rest

unfoldable pub occurrences : String → List String → ℕ
occurrences v [] = 0
occurrences v (x ∷ l) = (if str_eq x v then 1 else 0) + occurrences v l

pub record Redis (S : Type 0) : Type 0 where
  -- The list and the counter under a key; a missing counter is 0.
  pub list : S → String → List String
  pub counter : S → String → ℕ
  pub lpush : String → String → S → Option S
  pub lrem_one : String → String → S → Option S
  pub lrem_all : String → String → S → Option (ℕ × S)
  pub lrange : String → S → Option (List String)
  pub incr : String → S → Option S
  pub get_int : String → S → IntReply
  pub del : String → S → S
  pub lpush-list : (k v : String) (s s' : S) → lpush k v s ≡ some s' → list s' k ≡ v ∷ list s k
  pub lrem_one-list :
      (k v : String) (s s' : S) → lrem_one k v s ≡ some s' → list s' k ≡ remove_first v (list s k)
  pub lrem_all-list :
      (k v : String) (s s' : S) (n : ℕ)
      → lrem_all k v s ≡ some (n, s')
      → (list s' k ≡ remove_all v (list s k)) × (n ≡ occurrences v (list s k))
  pub lrange-list : (k : String) (s : S) (l : List String) → lrange k s ≡ some l → l ≡ list s k
  pub incr-counter : (k : String) (s s' : S) → incr k s ≡ some s' → counter s' k ≡ suc (counter s k)
  pub get_int-Replies : (k : String) (s : S) → Replies (get_int k s) (counter s k)
  pub del-counter : (k : String) (s : S) → counter (del k s) k ≡ 0

-- `encoding/json` on the payloads.
pub record Json (A : Type 0) : Type 0 where
  pub marshal : A → Option String
  pub unmarshal : String → Option A
  pub unmarshal-marshal : (a : A) (v : String) → marshal a ≡ some v → unmarshal v ≡ some a
