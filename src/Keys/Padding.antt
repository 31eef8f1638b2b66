-- ===== src/Keys/Padding.antt =====
-- `pkcs7Padding` and `pkcs7UnPadding` of core/storage/common.go.
use titan_explorer.Base.{
  ℕ, zero, suc, ◌+◌, ◌-◌, ◌%◌, ◌<◌, ◌≤◌, ◌≡◌, refl, sym, ap, ◌∙◌, [], ◌∷◌, ◌++◌, All, length,
  length-append, take, replicate, ltb, arith, if◌then◌else◌,
}
use native.Mathlib.Nat.{mod-lt, mod-add-mod, mod_self, mod-eq_of_lt}
use titan_explorer.Keys.Bytes.{Bytes, IsByte}

unfoldable pub pkcs7_padding : Bytes → ℕ → Bytes
pkcs7_padding bytes block_size =
    let padding = block_size - length bytes % block_size in
    bytes ++ replicate padding (padding % 256)

-- What `pkcs7UnPadding` comes to: the slice panics where more is taken off than there is.
pub data Unpadded : Type 0 where
  unpadded : Bytes → Unpadded
  empty_error : Unpadded
  slice_panic : Unpadded

-- The last byte, of a list that is not empty.
unfoldable last : ℕ → Bytes → ℕ
last b [] = b
last b (c ∷ t) = last c t

unfoldable pub pkcs7_un_padding : Bytes → Unpadded
unfolding last
pkcs7_un_padding [] = empty_error
pkcs7_un_padding (b ∷ t) =
    let un_padding = last b t in
    let size = length (b ∷ t) in
    if ltb size un_padding then slice_panic else unpadded (take (size - un_padding) (b ∷ t))

length-replicate : (n b : ℕ) → length (replicate n b) ≡ n
length-replicate zero b = refl
length-replicate (suc n) b = ap suc (length-replicate n b)

last-replicate : (n b c : ℕ) → last b (replicate n b) ≡ b
unfolding last
last-replicate zero b c = refl
last-replicate (suc n) b c = last-replicate n b c

last-append : (t : Bytes) (n b c : ℕ) → last c (t ++ replicate (suc n) b) ≡ b
unfolding last
last-append [] n b c = last-replicate n b c
last-append (d ∷ t) n b c = last-append t n b d

take-append : (t u : Bytes) → take (length t) (t ++ u) ≡ t
take-append [] u = refl
take-append (b ∷ t) u = ap (λ r. b ∷ r) (take-append t u)

module _ (t : Bytes) (block_size : ℕ) (h : 0 < block_size) where
  abbrev IsPadding : ℕ → Type 0
  IsPadding p = (0 < p) × (p ≤ block_size) × ((length t + p) % block_size ≡ 0)

  size-IsPadding : IsPadding (block_size - length t % block_size)
  size-IsPadding =
      let r = length t % block_size in
      let small : r < block_size = mod-lt (length t) h in
      let whole : r + (block_size - r) ≡ block_size = omega (arith, small) in
      (
        omega (arith, small),
        omega arith,
        sym (mod-add-mod (length t) block_size (block_size - r))
            ∙ ap (λ x. x % block_size) whole
            ∙ mod_self block_size,
      )

  length-padded :
      length (pkcs7_padding t block_size) ≡ length t + (block_size - length t % block_size)
  unfolding pkcs7_padding
  length-padded =
      length-append t _
      ∙ ap (λ x. length t + x) (length-replicate (block_size - length t % block_size) _)

-- Padding fills up to a whole number of blocks, with one byte at least and one block at most.
pub length-pkcs7_padding :
    (t : Bytes) (block_size : ℕ)
    → 0 < block_size
    → let n = length (pkcs7_padding t block_size) in
      (n % block_size ≡ 0) × (length t < n) × (n ≤ length t + block_size)
length-pkcs7_padding t block_size h =
    let (low, high, whole) = size-IsPadding t block_size h in
    let size = length-padded t block_size h in
    (ap (λ x. x % block_size) size ∙ whole, omega (arith, size, low), omega (arith, size, high))

replicate-IsByte : (n b : ℕ) → IsByte b → All IsByte (replicate n b)
replicate-IsByte zero b h = tt
replicate-IsByte (suc n) b h = (h, replicate-IsByte n b h)

append-IsByte : (t u : Bytes) → All IsByte t → All IsByte u → All IsByte (t ++ u)
append-IsByte [] u p q = q
append-IsByte (b ∷ t) u (p, ps) q = (p, append-IsByte t u ps q)

pub pkcs7_padding-IsByte :
    (t : Bytes) (block_size : ℕ) → All IsByte t → All IsByte (pkcs7_padding t block_size)
unfolding pkcs7_padding
pkcs7_padding-IsByte t block_size p =
    append-IsByte t _ p (replicate-IsByte (block_size - length t % block_size) _ (omega arith))

un_padding-takes :
    (b : ℕ) (u : Bytes) (n p : ℕ)
    → last b u ≡ p
    → suc (length u) ≡ n + p
    → pkcs7_un_padding (b ∷ u) ≡ unpadded (take n (b ∷ u))
unfolding pkcs7_un_padding
un_padding-takes b u n p e f =
    let kept : suc (length u) - last b u ≡ n = omega (arith, e, f) in
    ground (arith, e, f, ap (λ m. take m (b ∷ u)) kept)

un_padding-ends :
    (t : Bytes) (p : ℕ) → pkcs7_un_padding (t ++ replicate (suc p) (suc p)) ≡ unpadded t
un_padding-ends [] p =
    un_padding-takes (suc p) (replicate p (suc p)) 0 (suc p) (last-replicate p (suc p) (suc p))
      (omega (arith, length-replicate p (suc p)))
un_padding-ends (b ∷ t) p =
    let u = replicate (suc p) (suc p) in
    un_padding-takes b (t ++ u) (suc (length t)) (suc p) (last-append t p (suc p) b)
      (omega (arith, length-append t u, length-replicate p (suc p)))
    ∙ ap unpadded (take-append (b ∷ t) u)

-- Taking the padding off gives the bytes back, for blocks of less than 256 bytes.
pub un_padding-padding :
    (t : Bytes) (block_size : ℕ)
    → 0 < block_size
    → block_size < 256
    → pkcs7_un_padding (pkcs7_padding t block_size) ≡ unpadded t
unfolding pkcs7_padding
un_padding-padding t block_size h k =
    let p = block_size - length t % block_size in
    let (low, high, whole) = size-IsPadding t block_size h in
    ap (λ b. pkcs7_un_padding (t ++ replicate p b)) (mod-eq_of_lt (omega (arith, high, k)))
    ∙ ap (λ b. pkcs7_un_padding (t ++ replicate b b)) {x = p} {y = suc (p - 1)} (omega (arith, low))
    ∙ un_padding-ends t (p - 1)
