-- ===== src/Keys/Cbc.antt =====
-- The CBC mode that core/storage/common.go uses, over a block cipher.
use titan_explorer.Base.{
  ℕ, zero, suc, ◌+◌, ◌*◌, ◌≡◌, refl, sym, ap, ◌∙◌, [], ◌∷◌, ◌++◌, All, length, length-append, take,
  drop, arith,
}
use titan_explorer.Keys.Bytes.{
  Bytes, IsByte, xor_bytes, length-xor_bytes, xor_bytes-IsByte, xor_bytes-twice,
}

-- `block.BlockSize()` of AES.
abbrev pub block_size : ℕ
block_size = 16

-- What the mode relies on in `aes.NewCipher(key)`: with each key a permutation of the blocks.
pub record BlockCipher : Type 0 where
  pub encrypt : Bytes → Bytes → Bytes
  pub decrypt : Bytes → Bytes → Bytes
  pub length-encrypt : (key b : Bytes) → length b ≡ 16 → length (encrypt key b) ≡ 16
  pub encrypt-IsByte : (key b : Bytes) → All IsByte b → All IsByte (encrypt key b)
  pub decrypt-encrypt :
      (key b : Bytes) → All IsByte b → length b ≡ 16 → decrypt key (encrypt key b) ≡ b

take-front : (n : ℕ) (s t : Bytes) → length s ≡ n → take n (s ++ t) ≡ s
take-front zero [] t h = refl
take-front zero (b ∷ s) t h = ground (arith, h)
take-front (suc n) [] t h = ground (arith, h)
take-front (suc n) (b ∷ s) t h = ap (λ r. b ∷ r) (take-front n s t (omega (arith, h)))

drop-front : (n : ℕ) (s t : Bytes) → length s ≡ n → drop n (s ++ t) ≡ t
drop-front zero [] t h = refl
drop-front zero (b ∷ s) t h = ground (arith, h)
drop-front (suc n) [] t h = ground (arith, h)
drop-front (suc n) (b ∷ s) t h = drop-front n s t (omega (arith, h))

take-drop : (n : ℕ) (t : Bytes) → take n t ++ drop n t ≡ t
take-drop zero t = refl
take-drop (suc n) [] = refl
take-drop (suc n) (b ∷ t) = ap (λ r. b ∷ r) (take-drop n t)

pub length-take : (n m : ℕ) (t : Bytes) → length t ≡ n + m → length (take n t) ≡ n
length-take zero m t h = refl
length-take (suc n) m [] h = ground (arith, h)
length-take (suc n) m (b ∷ t) h = ap suc (length-take n m t (omega (arith, h)))

length-drop : (n m : ℕ) (t : Bytes) → length t ≡ n + m → length (drop n t) ≡ m
length-drop zero m t h = omega (arith, h)
length-drop (suc n) m [] h = ground (arith, h)
length-drop (suc n) m (b ∷ t) h = length-drop n m t (omega (arith, h))

take-IsByte : (n : ℕ) (t : Bytes) → All IsByte t → All IsByte (take n t)
take-IsByte zero t p = tt
take-IsByte (suc n) [] p = tt
take-IsByte (suc n) (b ∷ t) (p, ps) = (p, take-IsByte n t ps)

drop-IsByte : (n : ℕ) (t : Bytes) → All IsByte t → All IsByte (drop n t)
drop-IsByte zero t p = p
drop-IsByte (suc n) [] p = tt
drop-IsByte (suc n) (b ∷ t) (p, ps) = drop-IsByte n t ps

module _ (aes : BlockCipher) (key : Bytes) where
  -- `CryptBlocks` of the two modes, on n blocks; each block is chained to the one before.
  unfoldable pub cbc_encrypt : ℕ → Bytes → Bytes → Bytes
  unfolding xor_bytes
  cbc_encrypt zero iv t = []
  cbc_encrypt (suc n) iv t =
      let c = aes.encrypt key (xor_bytes (take 16 t) iv) in c ++ cbc_encrypt n c (drop 16 t)

  unfoldable pub cbc_decrypt : ℕ → Bytes → Bytes → Bytes
  unfolding xor_bytes
  cbc_decrypt zero iv t = []
  cbc_decrypt (suc n) iv t =
      let c = take 16 t in xor_bytes (aes.decrypt key c) iv ++ cbc_decrypt n c (drop 16 t)

  pub length-cbc_encrypt :
      (n : ℕ) (iv t : Bytes)
      → length iv ≡ 16
      → length t ≡ n * 16
      → length (cbc_encrypt n iv t) ≡ n * 16
  unfolding cbc_encrypt
  length-cbc_encrypt zero iv t i h = omega arith
  length-cbc_encrypt (suc n) iv t i h =
      let x = length-take 16 (n * 16) t (omega (arith, h)) in
      let c = aes.encrypt key (xor_bytes (take 16 t) iv) in
      let e =
        aes.length-encrypt key (xor_bytes (take 16 t) iv)
          (length-xor_bytes (take 16 t) iv (x ∙ sym i) ∙ x) in
      let rest =
        length-cbc_encrypt n c (drop 16 t) e (length-drop 16 (n * 16) t (omega (arith, h))) in
      omega (arith, e, rest, length-append c (cbc_encrypt n c (drop 16 t)))

  pub cbc_decrypt-encrypt :
      (n : ℕ) (iv t : Bytes)
      → length iv ≡ 16
      → length t ≡ n * 16
      → All IsByte t
      → cbc_decrypt n iv (cbc_encrypt n iv t) ≡ t
  unfolding cbc_encrypt cbc_decrypt
  cbc_decrypt-encrypt zero iv [] i h p = refl
  cbc_decrypt-encrypt zero iv (b ∷ t) i h p = ground (arith, h)
  cbc_decrypt-encrypt (suc n) iv t i h p =
      let front = take 16 t in
      let x = xor_bytes front iv in
      let c = aes.encrypt key x in
      let r = cbc_encrypt n c (drop 16 t) in
      let l = length-take 16 (n * 16) t (omega (arith, h)) in
      let lx = length-xor_bytes front iv (l ∙ sym i) ∙ l in
      let lc = aes.length-encrypt key x lx in
      let block =
        ap (λ y. xor_bytes y iv) (aes.decrypt-encrypt key x (xor_bytes-IsByte front iv) lx)
        ∙ xor_bytes-twice front iv (take-IsByte 16 t p) (l ∙ sym i) in
      let rest =
        cbc_decrypt-encrypt n c (drop 16 t) lc (length-drop 16 (n * 16) t (omega (arith, h)))
          (drop-IsByte 16 t p) in
      ap (λ q. xor_bytes (aes.decrypt key q) iv ++ cbc_decrypt n q (drop 16 (c ++ r)))
        (take-front 16 c r lc)
      ∙ ap (λ q. xor_bytes (aes.decrypt key c) iv ++ cbc_decrypt n c q) (drop-front 16 c r lc)
      ∙ ap (λ q. q ++ cbc_decrypt n c r) block
      ∙ ap (λ q. front ++ q) rest
      ∙ take-drop 16 t
