-- ===== src/Sync/Largest.antt =====
-- What the two maps of `syncDashboard` hold, and the names in their keys.
use Prim.Native.Char.{Char, code}
use Prim.Native.String.{◌++◌ as concat}
use titan_explorer.Base.{
  ℕ, String, Bool, true, false, Option, none, some, List, [], ◌∷◌, if◌then◌else◌, str_eq, leb, ◌==◌,
}
use titan_explorer.Queue.Redis.{Redis}
use titan_explorer.Sync.Traffic.{key_of, Info}

abbrev pub larger : ℕ → ℕ → ℕ
larger a b = if leb b a then a else b

abbrev pub join : Option ℕ → Option ℕ → Option ℕ
join none o = o
join (some a) none = some a
join (some a) (some b) = some (larger a b)

-- The largest number of the infos with a key.
unfoldable pub largest : (Info → ℕ) → String → List Info → Option ℕ
largest f key [] = none
largest f key (v ∷ infos) =
    let rest = largest f key infos in
    if str_eq (key_of v.user_id v.hash) key then join (some (f v)) rest else rest

abbrev pub has_underscore : String → Bool
has_underscore String.[] = false
has_underscore (String.◌∷◌ c s) = if code c == b'_' then true else has_underscore s
