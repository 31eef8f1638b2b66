-- ===== src/Kub/Classes.antt =====
-- A generated password has its length and a character of each class.
use titan_explorer.Base.{
  ℕ, zero, suc, ◌+◌, ◌-◌, ◌<◌, ◌≤◌, ◌≡◌, refl, ap, ◌∙◌, String, none, some, List, [], ◌∷◌, ◌++◌,
  All, true, false, not, ◌⊎◌, inl, inr, ◌==◌, length, length-append, get_elem?, any, arith, str_eq,
  eq_iff, or_return,
}
use Prim.Native.String.{count}
use text.Mathlib.TextLemmas.{length-nil, length-append as text-append}
use titan_explorer.Kub.Password.{
  Random, numbers, lower_case, upper_case, special, all_chars, swap, join, random_char,
  shuffle_from, shuffle_slice, more_chars, draw_password, generate_password,
}
use titan_explorer.Kub.Shuffle.{Has, swap-Has, swap-All, length-swap}

abbrev pub IsIn : List String → String → Type 0
IsIn chars x = any (λ c. str_eq c x) chars ≡ true

-- Each entry is one of the characters.
abbrev pub AreChars : List String → Type 0
AreChars = All (IsIn all_chars)

IsIn-one :
    (chars : List String) (x : String)
    → All (λ c. (count c == 1) ≡ true) chars
    → IsIn chars x
    → (count x == 1) ≡ true
IsIn-one [] x a i = ground (arith, i)
IsIn-one (c ∷ chars) x (e, a) i = ground (arith, eq_iff c x, e, i, IsIn-one chars x a)

chars_are_one : All (λ c. (count c == 1) ≡ true) all_chars
chars_are_one = all_of all_chars refl
  where
    all_of :
        (l : List String)
        → any (λ c. not (count c == 1)) l ≡ false
        → All (λ c. (count c == 1) ≡ true) l
    all_of [] e = tt
    all_of (c ∷ l) e = (ground (arith, e), all_of l (ground (arith, e)))

count-join : (l : List String) → AreChars l → count (join l) ≡ length l
unfolding join
count-join [] a = length-nil
count-join (c ∷ l) (i, a) =
    let one = IsIn-one all_chars c chars_are_one i in
    ground (arith, text-append c (join l), one, count-join l a)

IsIn-append : (l m : List String) (x : String) → IsIn l x ⊎ IsIn m x → IsIn (l ++ m) x
IsIn-append [] m x h = ground (arith, h)
IsIn-append (c ∷ l) m x h = ground (arith, h, IsIn-append l m x)

of_numbers : (x : String) → IsIn numbers x → IsIn all_chars x
of_numbers x i = IsIn-append numbers (lower_case ++ (upper_case ++ special)) x (inl i)

of_letters : (x : String) → IsIn (lower_case ++ (upper_case ++ special)) x → IsIn all_chars x
of_letters x i = IsIn-append numbers (lower_case ++ (upper_case ++ special)) x (inr i)

of_lower : (x : String) → IsIn lower_case x → IsIn all_chars x
of_lower x i = of_letters x (IsIn-append lower_case (upper_case ++ special) x (inl i))

of_upper : (x : String) → IsIn upper_case x → IsIn all_chars x
of_upper x i = of_letters x (
    IsIn-append lower_case (upper_case ++ special) x
      (inr (IsIn-append upper_case special x (inl i))))

of_special : (x : String) → IsIn special x → IsIn all_chars x
of_special x i = of_letters x (
    IsIn-append lower_case (upper_case ++ special) x
      (inr (IsIn-append upper_case special x (inr i))))

pub record HasClasses (l : List String) : Type 0 where
  pub chars : AreChars l
  pub number : Has (IsIn numbers) l
  pub lower : Has (IsIn lower_case) l
  pub upper : Has (IsIn upper_case) l
  pub other : Has (IsIn special) l

map_classes :
    {l r : List String}
    → ((P : String → Type 0) → Has P l → Has P r)
    → (AreChars l → AreChars r)
    → HasClasses l
    → HasClasses r
map_classes f g h = record {
  chars = g h.chars;
  number = f (IsIn numbers) h.number;
  lower = f (IsIn lower_case) h.lower;
  upper = f (IsIn upper_case) h.upper;
  other = f (IsIn special) h.other;
}

get_elem-append :
    (l t : List String) (k : ℕ) (x : String)
    → get_elem? l k ≡ some x
    → get_elem? (l ++ t) k ≡ some x
get_elem-append [] t k x e = ground (arith, e)
get_elem-append (y ∷ l) t zero x e = e
get_elem-append (y ∷ l) t (suc k) x e = get_elem-append l t k x e

append-Has : (P : String → Type 0) (l t : List String) → Has P l → Has P (l ++ t)
append-Has P l t (k, x, e, p) = (k, x, get_elem-append l t k x e, p)

get_elem-IsIn :
    (chars : List String) (j : ℕ)
    → j < length chars
    → (x : String) × (get_elem? chars j ≡ some x) × IsIn chars x
get_elem-IsIn [] j h = ground (arith, h)
get_elem-IsIn (c ∷ chars) zero h = (c, refl, ground (arith, eq_iff c c))
get_elem-IsIn (c ∷ chars) (suc j) h =
    let (x, e, i) = get_elem-IsIn chars j (omega (arith, h)) in (x, e, ground (arith, i))

append-All :
    (P : String → Type 0) (l : List String) (x : String) → All P l → P x → All P (l ++ (x ∷ []))
append-All P [] x a p = (p, tt)
append-All P (y ∷ l) x (q, a) p = (q, append-All P l x a p)

-- A source of randomness that does not fail.
abbrev pub IsTotal : Random → Type 0
IsTotal random = (n max : ℕ) → (j : ℕ) × (random.int n (suc max) ≡ some j)

module _ (random : Random) (total : IsTotal random) where
  char-IsIn :
      (n : ℕ) (chars : List String)
      → 0 < length chars
      → (x : String) × (random_char random n chars ≡ some x) × IsIn chars x
  unfolding random_char
  char-IsIn n [] h = ground (arith, h)
  char-IsIn n (c ∷ chars) h =
      let (j, e) = total n (length chars) in
      let (x, g, i) = get_elem-IsIn (c ∷ chars) j (random.below n (suc (length chars)) j e) in
      (x, ground (arith, e, g), i)

  shuffle_from-HasClasses :
      (n i : ℕ) (l : List String)
      → HasClasses l
      → (r : List String) × (shuffle_from random n i l ≡ some r)
        × (length r ≡ length l)
        × HasClasses r
  unfolding shuffle_from
  shuffle_from-HasClasses n zero l h = (l, refl, refl, h)
  shuffle_from-HasClasses n (suc i) l h =
      let (j, e) = total n (suc i) in
      let (r, f, same, h') =
        shuffle_from-HasClasses (suc n) i (swap (suc i) j l)
          (map_classes (λ P. swap-Has P (suc i) j l) (swap-All (IsIn all_chars) (suc i) j l) h) in
      (
        r,
        ap (λ o. or_return o none λ k. shuffle_from random (suc n) i (swap (suc i) k l)) e ∙ f,
        same ∙ length-swap (suc i) j l,
        h',
      )

  more_chars-HasClasses :
      (n k : ℕ) (l : List String)
      → HasClasses l
      → (r : List String) × (more_chars random n k l ≡ some r)
        × (length r ≡ length l + k)
        × HasClasses r
  unfolding more_chars
  more_chars-HasClasses n zero l h = (l, refl, omega arith, h)
  more_chars-HasClasses n (suc k) l h =
      let (x, e, i) = char-IsIn n all_chars (omega arith) in
      let (r, f, size, h') =
        more_chars-HasClasses (suc n) k (l ++ (x ∷ [])) (
          map_classes (λ P. append-Has P l (x ∷ [])) (λ k. append-All (IsIn all_chars) l x k i)
            h) in
      (
        r,
        ap (λ o. or_return o none λ c. more_chars random (suc n) k (l ++ (c ∷ []))) e ∙ f,
        omega (arith, size, length-append l (x ∷ [])),
        h',
      )

-- Where the source of randomness does not fail, the password for a length of 8 to 64 has that many
-- characters, all of them numbers, letters or special characters, and each class is among them: a
-- number, a lower-case and an upper-case letter and a special character.
pub generate_password-HasClasses :
    (random : Random) (default_password : String) (size : ℕ)
    → IsTotal random
    → 8 ≤ size
    → size ≤ 64
    → (l : List String) × (generate_password random default_password size ≡ join l)
      × (count (join l) ≡ size)
      × HasClasses l
unfolding generate_password draw_password shuffle_slice
generate_password-HasClasses random default_password size total low high =
    let (a, ea, ia) = char-IsIn random total 0 numbers (omega arith) in
    let (b, eb, ib) = char-IsIn random total 1 lower_case (omega arith) in
    let (c, ec, ic) = char-IsIn random total 2 upper_case (omega arith) in
    let (d, ed, id) = char-IsIn random total 3 special (omega arith) in
    let first : HasClasses (a ∷ b ∷ c ∷ d ∷ []) = record {
      chars = (of_numbers a ia, (of_lower b ib, (of_upper c ic, (of_special d id, tt))));
      number = (0, a, refl, ia);
      lower = (1, b, refl, ib);
      upper = (2, c, refl, ic);
      other = (3, d, refl, id);
    } in
    let (m, em, sm, hm) =
      more_chars-HasClasses random total 4 (size - 4) (a ∷ b ∷ c ∷ d ∷ []) first in
    let (r, er, sr, hr) = shuffle_from-HasClasses random total size (length m - 1) m hm in
    (
      r,
      ground (arith, low, high, ea, eb, ec, ed, em, er),
      count-join r hr.chars ∙ omega (arith, sr, sm, low),
      hr,
    )
