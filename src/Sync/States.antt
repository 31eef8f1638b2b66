-- ===== src/Sync/States.antt =====
-- The states of a file whose upload is complete (`l1States` of job/cron.go), read without regard to
-- case.
use Prim.Native.Char.{code}
use titan_explorer.Base.{
  ℕ, ◌+◌, String, Bool, true, false, ◌&&◌, List, [], ◌∷◌, if◌then◌else◌, leb, ◌==◌, any,
}

abbrev codes : String → List ℕ
codes String.[] = []
codes (String.◌∷◌ c s) = code c ∷ codes s

-- Simple folding onto lower case, as far as it meets the letters of ASCII: the sign for kelvin is a k
-- and the long s an s.
abbrev fold : ℕ → ℕ
fold c =
    if leb b'A' c && leb c b'Z'
    then c + 32
    else if c == 0x212A
    then b'k'
    else if c == 0x17F
    then b's'
    else c

same_letters : List ℕ → List ℕ → Bool
same_letters [] [] = true
same_letters [] (d ∷ ds) = false
same_letters (c ∷ cs) [] = false
same_letters (c ∷ cs) (d ∷ ds) = if fold c == fold d then same_letters cs ds else false

-- `strings.EqualFold`, for a text of ASCII on the left.
unfoldable pub equal_fold : String → String → Bool
unfolding same_letters
equal_fold s t = same_letters (codes s) (codes t)

abbrev pub l1_states : List String
l1_states = "EdgesSelect" ∷ "EdgesPulling" ∷ "Servicing" ∷ "EdgesFailed" ∷ []

unfoldable pub check_sync_state : String → Bool
unfolding equal_fold
check_sync_state state = any (λ v. equal_fold v state) l1_states
