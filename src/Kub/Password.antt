-- ===== src/Kub/Password.antt =====
-- `GeneratePassword` and `shuffleSlice` of core/kubesphere/tool.go. The characters are texts of one
-- character, as in the source.
use titan_explorer.Base.{
  ℕ, zero, suc, ◌-◌, ◌<◌, ◌≡◌, String, ◌||◌, Option, none, some, List, [], ◌∷◌, ◌++◌, length,
  get_elem?, set, ltb, if◌then◌else◌, or_return,
}
use Prim.Native.String.{◌++◌ as concat}

-- `rand.Int(rand.Reader, max)`: what the n-th call answers for `max`, a number below it or an error.
pub record Random : Type 0 where
  pub int : ℕ → ℕ → Option ℕ
  pub below : (n max j : ℕ) → int n max ≡ some j → j < max

abbrev pub numbers : List String
numbers = "0" ∷ "1" ∷ "2" ∷ "3" ∷ "4" ∷ "5" ∷ "6" ∷ "7" ∷ "8" ∷ "9" ∷ []

abbrev pub lower_case : List String
lower_case =
    "a" ∷ "b" ∷ "c" ∷ "d" ∷ "e" ∷ "f" ∷ "g" ∷ "h" ∷ "i" ∷ "j" ∷ "k" ∷ "l" ∷ "m" ∷ "n" ∷ "o" ∷ "p"
    ∷ "q" ∷ "r" ∷ "s" ∷ "t" ∷ "u" ∷ "v" ∷ "w" ∷ "x" ∷ "y" ∷ "z" ∷ []

abbrev pub upper_case : List String
upper_case =
    "A" ∷ "B" ∷ "C" ∷ "D" ∷ "E" ∷ "F" ∷ "G" ∷ "H" ∷ "I" ∷ "J" ∷ "K" ∷ "L" ∷ "M" ∷ "N" ∷ "O" ∷ "P"
    ∷ "Q" ∷ "R" ∷ "S" ∷ "T" ∷ "U" ∷ "V" ∷ "W" ∷ "X" ∷ "Y" ∷ "Z" ∷ []

abbrev pub special : List String
special = "@" ∷ "(" ∷ ")" ∷ "[" ∷ "{" ∷ "}" ∷ "]" ∷ ":" ∷ []

abbrev pub all_chars : List String
all_chars = numbers ++ (lower_case ++ (upper_case ++ special))

-- `result[i], result[j] = result[j], result[i]`
abbrev pub swap : ℕ → ℕ → List String → List String
swap i j l = or_return (get_elem? l i) l λ a. or_return (get_elem? l j) l λ b. set (set l i b) j a

-- `strings.Join(s, "")`
unfoldable pub join : List String → String
join [] = ""
join (c ∷ s) = concat c (join s)

module _ (random : Random) where
  -- The n-th call chooses a character; an index is always in range.
  unfoldable pub random_char : ℕ → List String → Option String
  random_char n chars = or_return (random.int n (length chars)) none λ j. get_elem? chars j

  -- The loop `for i := len(result) - 1; i > 0; i--`, from i on; the calls are counted from n.
  unfoldable pub shuffle_from : ℕ → ℕ → List String → Option (List String)
  shuffle_from n zero result = some result
  shuffle_from n (suc i) result =
      or_return (random.int n (suc (suc i))) none
        λ j. shuffle_from (suc n) i (swap (suc i) j result)

  -- `shuffleSlice`
  unfoldable pub shuffle_slice : ℕ → List String → Option (List String)
  unfolding shuffle_from
  shuffle_slice n slice = shuffle_from n (length slice - 1) slice

  -- `k` more characters of any class.
  unfoldable pub more_chars : ℕ → ℕ → List String → Option (List String)
  unfolding random_char
  more_chars n zero password = some password
  more_chars n (suc k) password =
      or_return (random_char n all_chars) none
        λ char. more_chars (suc n) k (password ++ (char ∷ []))

  -- The characters of a password of this length; `none` where a call fails.
  unfoldable pub draw_password : ℕ → Option (List String)
  unfolding random_char more_chars shuffle_slice
  draw_password size = or_return (random_char 0 numbers) none λ a.
      or_return (random_char 1 lower_case) none λ b. or_return (random_char 2 upper_case) none λ c.
        or_return (random_char 3 special) none λ d.
          or_return (more_chars 4 (size - 4) (a ∷ b ∷ c ∷ d ∷ [])) none
            λ password. shuffle_slice size password

  -- `GeneratePassword`; `default_password` is the constant of core/kubesphere/impl.go.
  unfoldable pub generate_password : String → ℕ → String
  unfolding draw_password join
  generate_password default_password size =
      if ltb size 8 || ltb 64 size
      then default_password
      else or_return (draw_password size) default_password join
