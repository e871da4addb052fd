-- ===== src/Uadp/DataSet/RoundTrip/Flags.antt =====
-- The two flag bytes of a DataSetMessage, read bit by bit.
use node_red_contrib_opcua_s.Prelude.{
  ℕ, ◌/◌, ◌<◌, ◌==◌, ==_iff, Bool, true, ◌&&◌, ◌≡◌, refl, List, [], ◌∷◌, bit_and,
}
use node_red_contrib_opcua_s.Prelude.Flags.{
  has_flag, same, same→eq, all3, all3_sound, all6, all6_sound, checks, checks-AllTrue, all_below,
  all_below_sound,
}
use node_red_contrib_opcua_s.Uadp.DataSet.{flags1_of, flags2_of}

pub record Flags1 (bits : ℕ) (valid seq status major minor more : Bool) (f : ℕ) : Type 0 where
  pub valid_bit : has_flag f 0x01 ≡ valid
  pub encoding_bits : bit_and (f / 2) 0x03 ≡ bits
  pub seq_bit : has_flag f 0x08 ≡ seq
  pub status_bit : has_flag f 0x10 ≡ status
  pub major_bit : has_flag f 0x20 ≡ major
  pub minor_bit : has_flag f 0x40 ≡ minor
  pub more_bit : has_flag f 0x80 ≡ more

abbrev tests1 : ℕ → (valid seq status major minor more : Bool) → List Bool
tests1 bits valid seq status major minor more =
    let f = flags1_of bits valid seq status major minor more in
    (same (has_flag f 0x01) valid
      ∷ (bit_and (f / 2) 0x03 == bits)
      ∷ same (has_flag f 0x08) seq
      ∷ same (has_flag f 0x10) status
      ∷ same (has_flag f 0x20) major
      ∷ same (has_flag f 0x40) minor
      ∷ same (has_flag f 0x80) more
      ∷ [])

abbrev agrees1 : ℕ → (valid seq status major minor more : Bool) → Bool
agrees1 bits valid seq status major minor more =
    checks (tests1 bits valid seq status major minor more)

table1 : all_below 3 (λ bits. all6 (agrees1 bits)) ≡ true
unfolding flags1_of all_below
table1 = refl

pub Flags1-facts :
    (bits : ℕ) (valid seq status major minor more : Bool)
    → bits < 3
    → Flags1 bits valid seq status major minor more
        (flags1_of bits valid seq status major minor more)
Flags1-facts bits a b c d e f lt =
    let row = all_below_sound 3 (λ n. all6 (agrees1 n)) table1 bits lt in
    let h = checks-AllTrue (tests1 bits a b c d e f) (all6_sound (agrees1 bits) row a b c d e f) in
    record {
      valid_bit = same→eq _ _ h.0;
      encoding_bits = (==_iff _ bits).0 h.1.0;
      seq_bit = same→eq _ _ h.1.1.0;
      status_bit = same→eq _ _ h.1.1.1.0;
      major_bit = same→eq _ _ h.1.1.1.1.0;
      minor_bit = same→eq _ _ h.1.1.1.1.1.0;
      more_bit = same→eq _ _ h.1.1.1.1.1.1.0;
    }

-- `0` stands where the byte is left out.
pub record Flags2 (bits : ℕ) (time pico : Bool) (f : ℕ) : Type 0 where
  pub message_bits : bit_and f 0x0f ≡ bits
  pub time_bit : has_flag f 0x10 ≡ time
  pub pico_bit : has_flag f 0x20 ≡ (pico && time)

abbrev tests2 : ℕ → (time pico : Bool) → List Bool
tests2 bits time pico =
    let f = flags2_of bits time pico in
    ((bit_and f 0x0f == bits)
      ∷ same (has_flag f 0x10) time
      ∷ same (has_flag f 0x20) (pico && time)
      ∷ [])

abbrev agrees2 : ℕ → (time pico unused : Bool) → Bool
agrees2 bits time pico unused = checks (tests2 bits time pico)

table2 : all_below 4 (λ bits. all3 (agrees2 bits)) ≡ true
unfolding flags2_of all_below
table2 = refl

pub Flags2-facts :
    (bits : ℕ) (time pico : Bool) → bits < 4 → Flags2 bits time pico (flags2_of bits time pico)
Flags2-facts bits a b lt =
    let row = all_below_sound 4 (λ n. all3 (agrees2 n)) table2 bits lt in
    let h = checks-AllTrue (tests2 bits a b) (all3_sound (agrees2 bits) row a b true) in
    record {
      message_bits = (==_iff _ bits).0 h.0;
      time_bit = same→eq _ _ h.1.0;
      pico_bit = same→eq _ _ h.1.1.0;
    }
