-- ===== src/Uadp/Bytes.antt =====
-- The little-endian layout of Buffer's integer writes and reads.
use node_red_contrib_opcua_s.Prelude.{
  ℕ, zero, suc, ◌+◌, ◌*◌, ◌/◌, ◌%◌, ◌^◌, ◌<◌, List, [], ◌∷◌, ◌≡◌, refl, ap, ◌∙◌, arith, length, All,
}
use mathlib.Core.Path.{ap₂}
use native.Mathlib.Nat.{pow-suc}

abbrev pub IsByte : ℕ → Type 0
IsByte b = b < 256

unfoldable pub le_bytes : ℕ → ℕ → List ℕ
le_bytes zero v = []
le_bytes (suc n) v = v % 256 ∷ le_bytes n (v / 256)

unfoldable pub le_value : List ℕ → ℕ
le_value [] = 0
le_value (b ∷ bs) = b + 256 * le_value bs

pub length-le_bytes : (n v : ℕ) → length (le_bytes n v) ≡ n
unfolding le_bytes
length-le_bytes zero v = refl
length-le_bytes (suc n) v = ap suc (length-le_bytes n (v / 256))

pub le_bytes-IsByte : (n v : ℕ) → All IsByte (le_bytes n v)
unfolding le_bytes
le_bytes-IsByte zero v = tt
le_bytes-IsByte (suc n) v = (omega arith, le_bytes-IsByte n (v / 256))

div_bound : (n v : ℕ) → v < 256 ^ suc n → v / 256 < 256 ^ n
div_bound n v h = omega (arith, pow-suc 256 n)

pub le_value-le_bytes : (n v : ℕ) → v < 256 ^ n → le_value (le_bytes n v) ≡ v
unfolding le_bytes le_value
le_value-le_bytes zero v h = omega arith
le_value-le_bytes (suc n) v h = omega (arith, le_value-le_bytes n (v / 256) (div_bound n v h))

pub le_bytes-le_value : (bs : List ℕ) → All IsByte bs → le_bytes (length bs) (le_value bs) ≡ bs
unfolding le_bytes le_value
le_bytes-le_value [] h = refl
le_bytes-le_value (b ∷ bs) (hb, hs) =
    ap₂ ◌∷◌ (omega arith) (ap (le_bytes (length bs)) (omega arith) ∙ le_bytes-le_value bs hs)

pub le_value-lt : (bs : List ℕ) → All IsByte bs → le_value bs < 256 ^ length bs
unfolding le_value
le_value-lt [] h = omega arith
le_value-lt (b ∷ bs) (hb, hs) = omega (arith, pow-suc 256 (length bs), le_value-lt bs hs)
