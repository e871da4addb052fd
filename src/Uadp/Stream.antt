-- ===== src/Uadp/Stream.antt =====
-- BinaryStream of lib/uadp-encoder.js: the reads, the writes, and what it means that a read takes
-- back what a write left. A write is its bytes here; the growing buffer of the write mode is in Buffer.
pub mod RoundTrip
pub mod Buffer
use node_red_contrib_opcua_s.Prelude.{
  ℕ, ◌+◌, ◌*◌, ◌^◌, ◌/◌, List, [], ◌∷◌, ◌++◌, ◌≡◌, refl, sym, ap, ◌∙◌, arith, length, take, drop,
  ltb, Bool, true, false, if◌then◌else◌, Option, none, some,
}
use node_red_contrib_opcua_s.Prelude.Int.{ℤ, pos, negsuc, wrap, signed, in_signed_range}
use node_red_contrib_opcua_s.Uadp.Result.{
  Result, ok, err, Error, truncated, out_of_range, Written, ◌⨟◌,
}
use node_red_contrib_opcua_s.Uadp.Bytes.{le_bytes, le_value}

-- A stream in read mode: the cursor, and the bytes from the cursor on.
pub record Stream : Type 0 where
  pub position : ℕ
  pub rest : List ℕ

abbrev pub Read : Type 0 → Type 0
Read A = Stream → Result (A × Stream)

-- The rest of a read, on what the first part answered.
abbrev pub proceed : {A B : Type 0} → (A → Read B) → Result (A × Stream) → Result (B × Stream)
proceed f (ok (a, s)) = f a s
proceed f (err e) = err e

infixl 5 ◌>>=◌ ◌>>◌
unfoldable pub ◌>>=◌ : {A B : Type 0} → Read A → (A → Read B) → Read B
◌>>=◌ m f s = proceed f (m s)

unfoldable pub ◌>>◌ : {A B : Type 0} → Read A → Read B → Read B
◌>>◌ m k s = proceed (λ _. k) (m s)

unfoldable pub return : {A : Type 0} → A → Read A
return a s = ok (a, s)

unfoldable pub throw : {A : Type 0} → Error → Read A
throw e s = err e

-- `if (c) x = m`: the field stays undefined otherwise.
unfoldable pub read_if : {A : Type 0} → Bool → Read A → Read (Option A)
read_if true m = m >>= λ a. return (some a)
read_if false m = return none

-- `n` rounds of a loop that pushes what it reads.
unfoldable pub read_many : {A : Type 0} → ℕ → Read A → Read (List A)
read_many ℕ.zero m = return []
read_many (ℕ.suc n) m = m >>= λ a. read_many n m >>= λ rest. return (a ∷ rest)

unfoldable pub ensure_read : ℕ → Read (Unit {0})
ensure_read n s =
    if ltb (length s.rest) n then err (truncated s.position n (length s.rest)) else ok (tt, s)

advance : ℕ → Read (List ℕ)
advance n s = ok (take n s.rest, record { position = s.position + n; rest = drop n s.rest })

unfoldable pub read_bytes : ℕ → Read (List ℕ)
unfolding advance ensure_read ◌>>◌
read_bytes n = do ensure_read n; advance n

-- The unsigned reads: the bytes, least first.
unfoldable pub read_uint : ℕ → Read ℕ
read_uint n = do bs ← read_bytes n; return (le_value bs)

abbrev pub read_uint8 : Read ℕ
read_uint8 = read_uint 1

abbrev pub read_uint16 : Read ℕ
read_uint16 = read_uint 2

abbrev pub read_uint32 : Read ℕ
read_uint32 = read_uint 4

abbrev pub read_uint64 : Read ℕ
read_uint64 = read_uint 8

-- `readInt8`, `readInt16LE`, `readInt32LE`, `readBigInt64LE`, behind `_ensureRead`.
unfoldable pub read_int : ℕ → Read ℤ
read_int n = do u ← read_uint n; return (signed (256 ^ n / 2) u)

unfoldable pub write_uint : ℕ → ℕ → Written
write_uint n v = if ltb v (256 ^ n) then ok (le_bytes n v) else err out_of_range

abbrev pub write_uint8 : ℕ → Written
write_uint8 = write_uint 1

abbrev pub write_uint16 : ℕ → Written
write_uint16 = write_uint 2

abbrev pub write_uint32 : ℕ → Written
write_uint32 = write_uint 4

-- A number that may be negative, which the write refuses. For n = 8 it is a BigInt.
unfoldable pub write_unsigned : ℕ → ℤ → Written
write_unsigned n (pos v) = write_uint n v
write_unsigned n (negsuc v) = err out_of_range

abbrev pub write_uint64 : ℤ → Written
write_uint64 = write_unsigned 8

unfoldable pub read_unsigned : ℕ → Read ℤ
read_unsigned n = do u ← read_uint n; return (pos u)

unfoldable pub write_int : ℕ → ℤ → Written
write_int n i =
    if in_signed_range (256 ^ n / 2) i then ok (le_bytes n (wrap (256 ^ n) i)) else err out_of_range

abbrev pub write_bytes : List ℕ → Written
write_bytes bs = ok bs

unfoldable pub write_if : {A : Type 0} → Bool → (A → Written) → Option A → Written
write_if true w (some a) = w a
write_if true w none = ok []
write_if false w o = ok []

unfoldable pub write_many : {A : Type 0} → (A → Written) → List A → Written
write_many w [] = ok []
write_many w (a ∷ rest) = w a ⨟ write_many w rest

-- `if (c) stream.write…(…)`
abbrev pub write_when : Bool → Written → Written
write_when true w = w
write_when false w = ok []
