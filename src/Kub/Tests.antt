-- ===== src/Kub/Tests.antt =====
-- Passwords at concrete inputs.
use titan_explorer.Base.{ℕ, zero, suc, ◌%◌, ◌<◌, ◌≡◌, refl, String, Option, none, some, List, arith}
use native.Mathlib.Nat.{mod-lt}
use Prim.Native.String.{count}
use titan_explorer.Kub.Password.{Random, join, generate_password}
use titan_explorer.Kub.Classes.{IsTotal, HasClasses, generate_password-HasClasses}

abbrev counting : ℕ → ℕ → Option ℕ
counting n zero = none
counting n (suc m) = some (n % suc m)

counting-below : (n max j : ℕ) → counting n max ≡ some j → j < max
counting-below n zero j e = ground (arith, e)
counting-below n (suc m) j e = ground (arith, e, mod-lt n {m = suc m} (omega arith))

abbrev random : Random
random = record { int = counting; below = counting-below }

random-IsTotal : IsTotal random
random-IsTotal n max = (n % suc max, refl)

too_short : generate_password random "default" 7 ≡ "default"
unfolding generate_password
too_short = refl

generate_password-HasClasses_example :
    (l : List String) × (generate_password random "default" 10 ≡ join l)
    × (count (join l) ≡ 10)
    × HasClasses l
generate_password-HasClasses_example =
    generate_password-HasClasses random "default" 10 random-IsTotal (omega arith) (omega arith)
