-- ===== src/Uadp/Text/RoundTrip.antt =====
-- Lemmas on UTF-8, writeString and readString of lib/uadp-encoder.js.
use node_red_contrib_opcua_s.Prelude.{
  ℕ, ◌+◌, ◌-◌, ◌*◌, ◌/◌, ◌%◌, ◌≤◌, ◌<◌, List, [], ◌∷◌, ◌++◌, ◌==◌, false, if◌then◌else◌, Option,
  none, some, length, ◌≡◌, refl, ap, ◌∙◌, arith, ◌≢◌, All, ◌⊎◌, subst,
}
use node_red_contrib_opcua_s.Uadp.Result.{ok}
use node_red_contrib_opcua_s.Uadp.Stream.{◌>>=◌, return, read_bytes}
use node_red_contrib_opcua_s.Uadp.Stream.RoundTrip.{
  RoundTrip, RoundTrip-bind, RoundTrip-map, RoundTrip-uint, RoundTrip-then, RoundTrip-ok,
  Reads-return, Reads-bytes,
}
use node_red_contrib_opcua_s.Uadp.Text.{
  Text, encode_char, utf8, ready, need, step, decode_from, from_utf8, write_string, read_string,
  read_string_body, null_length,
}

-- A code point that is no surrogate.
abbrev pub IsScalar : ℕ → Type 0
IsScalar c = (c < 0x110000) × ((c < 0xd800) ⊎ (0xe000 ≤ c))

decode_two :
    (c : ℕ) (rest : List ℕ)
    → 0x80 ≤ c
    → c < 0x800
    → decode_from ready ((0xc0 + c / 64) ∷ (0x80 + c % 64) ∷ rest) ≡ c ∷ decode_from ready rest
unfolding decode_from step
decode_two c rest lo hi = ground arith

decode_three :
    (c : ℕ) (rest : List ℕ)
    → 0x800 ≤ c
    → c < 0x10000
    → (c < 0xd800) ⊎ (0xe000 ≤ c)
    → decode_from ready ((0xe0 + c / 4096) ∷ (0x80 + c / 64 % 64) ∷ (0x80 + c % 64) ∷ rest)
      ≡ c ∷ decode_from ready rest
unfolding decode_from step
decode_three c rest lo hi s = ground arith

last_byte :
    (bits lo hi b : ℕ) (rest : List ℕ)
    → lo ≤ b
    → b ≤ hi
    → decode_from (need 1 bits lo hi) (b ∷ rest) ≡ (bits * 64 + (b - 0x80)) ∷ decode_from ready rest
unfolding decode_from step
last_byte bits lo hi b rest p q = ground arith

inner_byte :
    (left bits lo hi b : ℕ) (rest : List ℕ)
    → left ≢ 1
    → lo ≤ b
    → b ≤ hi
    → decode_from (need left bits lo hi) (b ∷ rest)
      ≡ decode_from (need (left - 1) (bits * 64 + (b - 0x80)) 0x80 0xbf) rest
unfolding decode_from step
inner_byte left bits lo hi b rest n p q = ground arith

lead_four :
    (q : ℕ) (rest : List ℕ)
    → q < 5
    → decode_from ready ((0xf0 + q) ∷ rest)
      ≡ decode_from (need 3 q (if q == 0 then 0x90 else 0x80) (if q == 4 then 0x8f else 0xbf)) rest
unfolding decode_from step
lead_four q rest h = ground arith

decode_four :
    (c : ℕ) (rest : List ℕ)
    → 0x10000 ≤ c
    → c < 0x110000
    → decode_from ready (
        (0xf0 + c / 262144)
        ∷ (0x80 + c / 4096 % 64)
        ∷ (0x80 + c / 64 % 64)
        ∷ (0x80 + c % 64)
        ∷ rest)
      ≡ c ∷ decode_from ready rest
decode_four c rest lo hi =
    lead_four (c / 262144) _ (omega arith)
    ∙ inner_byte 3 _ _ _ (0x80 + c / 4096 % 64) _ (omega arith) (ground arith) (ground arith)
    ∙ inner_byte 2 _ _ _ (0x80 + c / 64 % 64) _ (omega arith) (omega arith) (omega arith)
    ∙ last_byte _ _ _ (0x80 + c % 64) rest (omega arith) (omega arith)
    ∙ ap (λ v. v ∷ decode_from ready rest) (omega arith)

decode_one :
    (c : ℕ) (rest : List ℕ) → c < 0x80 → decode_from ready (c ∷ rest) ≡ c ∷ decode_from ready rest
unfolding decode_from step
decode_one c rest h = ground arith

decode_char :
    (c : ℕ) (rest : List ℕ)
    → IsScalar c
    → decode_from ready (encode_char c ++ rest) ≡ c ∷ decode_from ready rest
unfolding encode_char
decode_char c rest h =
    ground (arith, decode_one c rest, decode_two c rest, decode_three c rest, decode_four c rest)

-- Well-formed text is decoded to itself.
pub from_utf8-utf8 : (s : Text) → All IsScalar s → from_utf8 (utf8 s) ≡ s
unfolding from_utf8 utf8
from_utf8-utf8 [] h = unfold decode_from in refl
from_utf8-utf8 (c ∷ s) (hc, hs) = decode_char c (utf8 s) hc ∙ ap (◌∷◌ c) (from_utf8-utf8 s hs)

body :
    (s : Text)
    → length (utf8 s) < null_length
    → read_string_body (length (utf8 s))
      ≡ (read_bytes (length (utf8 s)) >>= λ bs. return (some (from_utf8 bs)))
unfolding read_string_body
body s h = rw (lt→eq (length (utf8 s)) h)
  where
    lt→eq : (n : ℕ) → n < null_length → (n == null_length) ≡ false
    lt→eq n h = ground arith

-- What `write_string` can write: a null, or well-formed text of less than 2 ^ 32 - 1 bytes.
abbrev pub Storable : Option Text → Type 0
Storable none = Unit {0}
Storable (some s) = All IsScalar s × (length (utf8 s) < null_length)

pub RoundTrip-string : (o : Option Text) → Storable o → RoundTrip (write_string o) read_string o
unfolding write_string read_string
RoundTrip-string none h =
    RoundTrip-then _ (RoundTrip-uint 4 null_length) (unfold read_string_body in Reads-return none)
RoundTrip-string (some s) (hs, fits) = RoundTrip-bind _ (RoundTrip-uint 4 (length (utf8 s))) (
    rw (body s fits) (
      subst
        (λ t.
          RoundTrip (ok (utf8 s))
            (read_bytes (length (utf8 s)) >>= λ bs. return (some (from_utf8 bs))) (some t))
        (from_utf8-utf8 s hs)
        (RoundTrip-map (λ bs. some (from_utf8 bs)) (RoundTrip-ok (Reads-bytes (utf8 s))))))
