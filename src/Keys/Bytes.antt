-- ===== src/Keys/Bytes.antt =====
-- Bytes, and the exclusive or of Go's `subtle.XORBytes`, which the CBC mode uses.
use titan_explorer.Base.{
  ℕ, zero, suc, ◌+◌, ◌*◌, ◌/◌, ◌%◌, ◌<◌, ◌≡◌, refl, ap, ◌∙◌, List, [], ◌∷◌, All, length, arith,
  ◌==◌, if◌then◌else◌,
}

abbrev pub IsByte : ℕ → Type 0
IsByte b = b < 256

abbrev pub Bytes : Type 0
Bytes = List ℕ

abbrev power : ℕ → ℕ
power zero = 1
power (suc k) = 2 * power k

-- The exclusive or of the low k bits.
unfoldable xor_bits : ℕ → ℕ → ℕ → ℕ
xor_bits zero a b = 0
xor_bits (suc k) a b = (if a % 2 == b % 2 then 0 else 1) + 2 * xor_bits k (a / 2) (b / 2)

xor_bits-bound : (k a b : ℕ) → xor_bits k a b < power k
unfolding xor_bits
xor_bits-bound zero a b = omega arith
xor_bits-bound (suc k) a b = ground (arith, xor_bits-bound k (a / 2) (b / 2))

halves : (x r : ℕ) → x < 2 → ((x + 2 * r) % 2 ≡ x) × ((x + 2 * r) / 2 ≡ r)
halves x r h = (omega (arith, h), omega (arith, h))

xor_bits-twice : (k a b : ℕ) → a < power k → xor_bits k (xor_bits k a b) b ≡ a
unfolding xor_bits
xor_bits-twice zero a b h = omega (arith, h)
xor_bits-twice (suc k) a b h =
    let d : ℕ = if a % 2 == b % 2 then 0 else 1 in
    let r = xor_bits k (a / 2) (b / 2) in
    let (low, high) = halves d r (ground arith) in
    let rest : xor_bits k ((d + 2 * r) / 2) (b / 2) ≡ a / 2 =
      ap (λ q. xor_bits k q (b / 2)) high ∙ xor_bits-twice k (a / 2) (b / 2) (omega (arith, h)) in
    ground (arith, low, rest)

unfoldable pub xor_byte : ℕ → ℕ → ℕ
unfolding xor_bits
xor_byte a b = xor_bits 8 a b

pub xor_byte-IsByte : (a b : ℕ) → IsByte (xor_byte a b)
unfolding xor_byte
xor_byte-IsByte a b = xor_bits-bound 8 a b

pub xor_byte-twice : (a b : ℕ) → IsByte a → xor_byte (xor_byte a b) b ≡ a
unfolding xor_byte
xor_byte-twice a b h = xor_bits-twice 8 a b h

-- Byte by byte, as far as the shorter list goes.
unfoldable pub xor_bytes : Bytes → Bytes → Bytes
unfolding xor_byte
xor_bytes [] bs = []
xor_bytes (a ∷ more) [] = []
xor_bytes (a ∷ more) (b ∷ bs) = xor_byte a b ∷ xor_bytes more bs

pub length-xor_bytes : (s t : Bytes) → length s ≡ length t → length (xor_bytes s t) ≡ length s
unfolding xor_bytes
length-xor_bytes [] t h = refl
length-xor_bytes (a ∷ s) [] h = ground arith
length-xor_bytes (a ∷ s) (b ∷ t) h = ap suc (length-xor_bytes s t (omega (arith, h)))

pub xor_bytes-IsByte : (s t : Bytes) → All IsByte (xor_bytes s t)
unfolding xor_bytes
xor_bytes-IsByte [] t = tt
xor_bytes-IsByte (a ∷ s) [] = tt
xor_bytes-IsByte (a ∷ s) (b ∷ t) = (xor_byte-IsByte a b, xor_bytes-IsByte s t)

pub xor_bytes-twice :
    (s t : Bytes) → All IsByte s → length s ≡ length t → xor_bytes (xor_bytes s t) t ≡ s
unfolding xor_bytes
xor_bytes-twice [] t p h = refl
xor_bytes-twice (a ∷ s) [] p h = ground arith
xor_bytes-twice (a ∷ s) (b ∷ t) (p, ps) h =
    ground (arith, xor_byte-twice a b p, xor_bytes-twice s t ps (omega (arith, h)))
