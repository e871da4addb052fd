-- ===== src/Uadp/Guid/RoundTrip.antt =====
-- Lemmas on writeGuid and readGuid of lib/uadp-encoder.js.
use node_red_contrib_opcua_s.Prelude.{
  ℕ, zero, suc, ◌+◌, ◌*◌, ◌/◌, ◌%◌, ◌^◌, ◌≤◌, ◌<◌, List, [], ◌∷◌, ◌++◌, map, some, ◌≡◌, refl, ap,
  ◌∙◌, arith, All, ◌⊎◌, length, append_assoc, append-nil,
}
use node_red_contrib_opcua_s.Uadp.Result.{◌⨟◌}
use node_red_contrib_opcua_s.Uadp.Bytes.{IsByte}
use node_red_contrib_opcua_s.Uadp.Stream.{write_uint32, write_uint16, write_bytes}
use node_red_contrib_opcua_s.Uadp.Stream.RoundTrip.{
  RoundTrip, RoundTrip-bind, RoundTrip-uint, RoundTrip-ok, Reads-bind, Reads-map, Reads-exactly,
}
use node_red_contrib_opcua_s.Uadp.Text.{Text}
use node_red_contrib_opcua_s.Uadp.Guid.{
  dash, split, hex_value, parse_digits, skip_spaces, skip_sign, skip_0x, parse_int16, from_hex,
  write_parts, write_guid, hex_digit, hex_fixed, to_hex, to_upper, guid_text, read_guid,
}
use mathlib.Core.List.{map-append}
use native.Mathlib.Nat.{pow-suc}

-- An upper-case hex digit.
abbrev IsDigit : ℕ → Type 0
IsDigit c = ((b'0' ≤ c) × (c ≤ b'9')) ⊎ ((b'A' ≤ c) × (c ≤ b'F'))

abbrev upper : Text → Text
upper = map to_upper

hex_digit-IsDigit : (d : ℕ) → d < 16 → IsDigit (to_upper (hex_digit d))
unfolding hex_digit to_upper
hex_digit-IsDigit d h = ground arith

hex_value-digit : (d : ℕ) → d < 16 → hex_value (to_upper (hex_digit d)) ≡ some d
unfolding hex_value hex_digit to_upper
hex_value-digit d h = ground arith

All-append : (P : ℕ → Type 0) (xs ys : Text) → All P xs → All P ys → All P (xs ++ ys)
All-append P [] ys h k = k
All-append P (x ∷ xs) ys (hx, hs) k = (hx, All-append P xs ys hs k)

upper-suc :
    (n v : ℕ)
    → upper (hex_fixed (suc n) v)
      ≡ upper (hex_fixed n (v / 16)) ++ (to_upper (hex_digit (v % 16)) ∷ [])
unfolding hex_fixed
upper-suc n v = map-append to_upper (hex_fixed n (v / 16)) (hex_digit (v % 16) ∷ [])

digits-IsDigit : (n v : ℕ) → All IsDigit (upper (hex_fixed n v))
digits-IsDigit zero v = unfold hex_fixed in tt
digits-IsDigit (suc n) v = rw (upper-suc n v) (
    All-append IsDigit (upper (hex_fixed n (v / 16))) _ (digits-IsDigit n (v / 16))
      (hex_digit-IsDigit (v % 16) (omega arith), tt))

upper-to_hex :
    (b : ℕ) (bs : List ℕ) → upper (to_hex (b ∷ bs)) ≡ upper (hex_fixed 2 b) ++ upper (to_hex bs)
unfolding to_hex
upper-to_hex b bs = map-append to_upper (hex_fixed 2 b) (to_hex bs)

bytes-IsDigit : (bs : List ℕ) → All IsDigit (upper (to_hex bs))
bytes-IsDigit [] = unfold to_hex in tt
bytes-IsDigit (b ∷ bs) =
    rw (upper-to_hex b bs)
      (All-append IsDigit (upper (hex_fixed 2 b)) _ (digits-IsDigit 2 b) (bytes-IsDigit bs))

parse_step :
    (acc d : ℕ) (rest : Text)
    → d < 16
    → parse_digits acc (to_upper (hex_digit d) ∷ rest) ≡ parse_digits (acc * 16 + d) rest
unfolding parse_digits
parse_step acc d rest h = rw (hex_value-digit d h, parse_digits)

parse_digits-hex :
    (n v acc : ℕ) (rest : Text)
    → v < 16 ^ n
    → parse_digits acc (upper (hex_fixed n v) ++ rest) ≡ parse_digits (acc * 16 ^ n + v) rest
parse_digits-hex zero v acc rest h = unfold hex_fixed in ap (λ a. parse_digits a rest) (omega arith)
parse_digits-hex (suc n) v acc rest h =
    rw (upper-suc n v, append_assoc)
      (parse_digits-hex n (v / 16) acc (to_upper (hex_digit (v % 16)) ∷ rest)
          (omega (arith, pow-suc 16 n))
        ∙ parse_step _ (v % 16) rest (omega arith)
        ∙ ap (λ a. parse_digits a rest)
            (omega (arith, pow-suc 16 n, ap (λ (k : ℕ). acc * k) (pow-suc 16 n))))

skip_digits : (s : Text) → All IsDigit s → skip_0x (skip_sign (skip_spaces s)) ≡ s
unfolding skip_0x skip_sign skip_spaces
skip_digits [] h = refl
skip_digits (a ∷ []) (ha, h) = ground arith
skip_digits (a ∷ b ∷ s) (ha, (hb, h)) = ground arith

split_last : (s : Text) → All IsDigit s → split s ≡ s ∷ []
unfolding split
split_last [] h = refl
split_last (c ∷ s) (hc, hs) = ground (arith, split_last s hs)

split-dash : (s t : Text) → All IsDigit s → split (s ++ (dash ∷ t)) ≡ s ∷ split t
unfolding split
split-dash [] t h = refl
split-dash (c ∷ s) t (hc, hs) = ground (arith, split-dash s t hs)

from_hex_step :
    (x y : ℕ) (t : Text)
    → x < 16
    → y < 16
    → from_hex (to_upper (hex_digit x) ∷ to_upper (hex_digit y) ∷ t) ≡ (x * 16 + y) ∷ from_hex t
unfolding from_hex
from_hex_step x y t hx hy = rw (hex_value-digit x hx, hex_value-digit y hy, from_hex)

from_hex_byte :
    (b : ℕ) (t : Text) → b < 256 → from_hex (upper (hex_fixed 2 b) ++ t) ≡ b ∷ from_hex t
unfolding hex_fixed
from_hex_byte b t h =
    from_hex_step (b / 16 % 16) (b % 16) t (omega arith) (omega arith)
    ∙ ap (λ v. v ∷ from_hex t) (omega arith)

from_hex-to_hex :
    (bs : List ℕ) (t : Text) → All IsByte bs → from_hex (upper (to_hex bs) ++ t) ≡ bs ++ from_hex t
from_hex-to_hex [] t h = unfold to_hex in refl
from_hex-to_hex (b ∷ bs) t (hb, hs) =
    rw (upper-to_hex b bs, append_assoc)
      (from_hex_byte b (upper (to_hex bs) ++ t) hb ∙ ap (◌∷◌ b) (from_hex-to_hex bs t hs))

guid_text_parts :
    (d1 d2 d3 : ℕ) (d4a d4b : List ℕ)
    → guid_text d1 d2 d3 d4a d4b
      ≡ upper (hex_fixed 8 d1)
        ++ (dash
            ∷ (upper (hex_fixed 4 d2)
                ++ (dash
                    ∷ (upper (hex_fixed 4 d3)
                        ++ (dash ∷ (upper (to_hex d4a) ++ (dash ∷ upper (to_hex d4b))))))))
unfolding guid_text to_upper hex_fixed
guid_text_parts d1 d2 d3 d4a d4b = simp map-append

split-guid_text :
    (d1 d2 d3 : ℕ) (d4a d4b : List ℕ)
    → split (guid_text d1 d2 d3 d4a d4b)
      ≡ upper (hex_fixed 8 d1)
        ∷ upper (hex_fixed 4 d2)
        ∷ upper (hex_fixed 4 d3)
        ∷ upper (to_hex d4a)
        ∷ upper (to_hex d4b)
        ∷ []
split-guid_text d1 d2 d3 d4a d4b = rw (
  guid_text_parts d1 d2 d3 d4a d4b,
  split-dash _ _ (digits-IsDigit 8 d1),
  split-dash _ _ (digits-IsDigit 4 d2),
  split-dash _ _ (digits-IsDigit 4 d3),
  split-dash _ _ (bytes-IsDigit d4a),
  split_last _ (bytes-IsDigit d4b),
)

parse_int16-hex : (n v : ℕ) → v < 16 ^ n → parse_int16 (upper (hex_fixed n v)) ≡ v
unfolding parse_int16
parse_int16-hex n v h =
    rw (skip_digits _ (digits-IsDigit n v), ← append-nil (upper (hex_fixed n v)))
      (parse_digits-hex n v 0 [] h ∙ unfold parse_digits in omega arith)

-- The sixteen bytes of a GUID as `read_guid` takes them.
pub record IsGuid (d1 d2 d3 : ℕ) (d4a d4b : List ℕ) : Type 0 where
  pub first : d1 < 2 ^ 32
  pub second : d2 < 2 ^ 16
  pub third : d3 < 2 ^ 16
  pub two : length d4a ≡ 2
  pub six : length d4b ≡ 6
  pub bytes_a : All IsByte d4a
  pub bytes_b : All IsByte d4b

pub write_guid-guid_text :
    (d1 d2 d3 : ℕ) (d4a d4b : List ℕ)
    → IsGuid d1 d2 d3 d4a d4b
    → write_guid (guid_text d1 d2 d3 d4a d4b)
      ≡ (write_uint32 d1 ⨟ write_uint16 d2 ⨟ write_uint16 d3 ⨟ write_bytes (d4a ++ d4b))
unfolding write_guid write_parts
write_guid-guid_text d1 d2 d3 d4a d4b g =
    rw
      (
        split-guid_text d1 d2 d3 d4a d4b,
        write_parts,
        parse_int16-hex 8 d1 (omega (arith, g.first)),
        parse_int16-hex 4 d2 (omega (arith, g.second)),
        parse_int16-hex 4 d3 (omega (arith, g.third)),
        from_hex-to_hex d4a (upper (to_hex d4b)) g.bytes_a,
        ← append-nil (upper (to_hex d4b)),
        from_hex-to_hex d4b [] g.bytes_b,
      )
      (unfold from_hex in rw append-nil)

-- The text of a GUID, as the reader spells it, survives the wire.
pub RoundTrip-guid :
    (d1 d2 d3 : ℕ) (d4a d4b : List ℕ)
    → IsGuid d1 d2 d3 d4a d4b
    → RoundTrip (write_guid (guid_text d1 d2 d3 d4a d4b)) read_guid (guid_text d1 d2 d3 d4a d4b)
unfolding read_guid
RoundTrip-guid d1 d2 d3 d4a d4b g = rw (write_guid-guid_text d1 d2 d3 d4a d4b g) (
    RoundTrip-bind _ (RoundTrip-uint 4 d1) (
      RoundTrip-bind _ (RoundTrip-uint 2 d2) (
        RoundTrip-bind _ (RoundTrip-uint 2 d3) (
          RoundTrip-ok (
            Reads-bind _ (Reads-exactly 2 d4a g.two)
              (Reads-map (λ b. guid_text d1 d2 d3 d4a b) (Reads-exactly 6 d4b g.six)))))))
