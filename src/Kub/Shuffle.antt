-- ===== src/Kub/Shuffle.antt =====
-- A shuffle keeps the length and the characters.
use titan_explorer.Base.{
  ℕ, zero, suc, ◌≡◌, refl, ap, ◌∙◌, String, false, some, List, [], ◌∷◌, length, get_elem?, set, All,
  subst, ◌==◌, arith, if◌then◌else◌, or_return-holds,
}
use titan_explorer.Kub.Password.{swap}

-- Some element has this property.
abbrev pub Has : (String → Type 0) → List String → Type 0
Has P l = (k : ℕ) × (x : String) × (get_elem? l k ≡ some x) × P x

length-set : (l : List String) (i : ℕ) (v : String) → length (set l i v) ≡ length l
length-set [] i v = refl
length-set (x ∷ l) zero v = refl
length-set (x ∷ l) (suc i) v = ap suc (length-set l i v)

get-set_other :
    (l : List String) (i k : ℕ) (v : String)
    → (i == k) ≡ false
    → get_elem? (set l i v) k ≡ get_elem? l k
get-set_other [] i k v h = refl
get-set_other (x ∷ l) zero zero v h = ground (arith, h)
get-set_other (x ∷ l) zero (suc k) v h = refl
get-set_other (x ∷ l) (suc i) zero v h = refl
get-set_other (x ∷ l) (suc i) (suc k) v h = get-set_other l i k v (ground (arith, h))

get-set_same :
    (l : List String) (i : ℕ) (v a : String)
    → get_elem? l i ≡ some a
    → get_elem? (set l i v) i ≡ some v
get-set_same [] i v a h = ground (arith, h)
get-set_same (x ∷ l) zero v a h = refl
get-set_same (x ∷ l) (suc i) v a h = get-set_same l i v a h

pub length-swap : (i j : ℕ) (l : List String) → length (swap i j l) ≡ length l
length-swap i j l =
    or_return-holds (λ r. length r ≡ length l) (get_elem? l i) l _ refl
      λ a _.
        or_return-holds (λ r. length r ≡ length l) (get_elem? l j) l _ refl
          λ b _. length-set (set l i b) j a ∙ length-set l i b

-- Where the element at k goes.
abbrev moved : ℕ → ℕ → ℕ → ℕ
moved i j k = if i == k then j else if j == k then i else k

get-swapped :
    (i j k : ℕ) (l : List String) (a b : String)
    → get_elem? l i ≡ some a
    → get_elem? l j ≡ some b
    → get_elem? (set (set l i b) j a) (moved i j k) ≡ get_elem? l k
get-swapped i j k l a b e f =
    let m = set l i b in
    ground (
      arith,
      e,
      f,
      get-set_same l i b a e,
      get-set_other l i j b,
      get-set_same m j a b,
      get-set_other m j i a,
      get-set_other m j k a,
      get-set_other l i k b,
    )

pub swap-Has : (P : String → Type 0) (i j : ℕ) (l : List String) → Has P l → Has P (swap i j l)
swap-Has P i j l h = or_return-holds (Has P) (get_elem? l i) l _ h λ a e.
    or_return-holds (Has P) (get_elem? l j) l _ h
      λ b f. (let (k, x, g, p) = h in (moved i j k, x, get-swapped i j k l a b e f ∙ g, p))

set-All :
    (P : String → Type 0) (l : List String) (i : ℕ) (v : String) → All P l → P v → All P (set l i v)
set-All P [] i v a p = tt
set-All P (x ∷ l) zero v (q, a) p = (p, a)
set-All P (x ∷ l) (suc i) v (q, a) p = (q, set-All P l i v a p)

get_elem-All :
    (P : String → Type 0) (l : List String) (i : ℕ) (v : String)
    → All P l
    → get_elem? l i ≡ some v
    → P v
get_elem-All P [] i v a e = absurd (ground (arith, e))
get_elem-All P (x ∷ l) zero v (q, a) e = subst P (ground (arith, e)) q
get_elem-All P (x ∷ l) (suc i) v (q, a) e = get_elem-All P l i v a e

pub swap-All : (P : String → Type 0) (i j : ℕ) (l : List String) → All P l → All P (swap i j l)
swap-All P i j l h = or_return-holds (All P) (get_elem? l i) l _ h λ a e.
    or_return-holds (All P) (get_elem? l j) l _ h λ b f.
      set-All P (set l i b) j a (set-All P l i b h (get_elem-All P l j b h f))
        (get_elem-All P l i a h e)
