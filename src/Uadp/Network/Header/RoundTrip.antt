-- ===== src/Uadp/Network/Header/RoundTrip.antt =====
-- Lemmas on the parts of the NetworkMessage header in lib/uadp-encoder.js.
use node_red_contrib_opcua_s.Prelude.{
  ℕ, zero, suc, ◌==◌, ◌<◌, ==_iff, Bool, true, false, ◌&&◌, not, if◌then◌else◌, some, List, [], ◌∷◌,
  length, bit_and, All, ◌≡◌, refl, arith, subst,
}
use node_red_contrib_opcua_s.Prelude.Flags.{
  has_flag, same, same→eq, all6, all6_sound, checks, checks-AllTrue, all_below, all_below_sound,
}
use node_red_contrib_opcua_s.Prelude.Int.{ℤ, pos, negsuc}
use node_red_contrib_opcua_s.Uadp.Result.{ok}
use node_red_contrib_opcua_s.Uadp.Stream.RoundTrip.{
  RoundTrip, RoundTrip-bind, RoundTrip-map, RoundTrip-uint, RoundTrip-unsigned, RoundTrip-many,
}
use node_red_contrib_opcua_s.Uadp.Text.{Text}
use node_red_contrib_opcua_s.Uadp.Text.RoundTrip.{Storable, RoundTrip-string}
use node_red_contrib_opcua_s.Uadp.Network.{
  PublisherId, text, big, number, fraction, null_id, other_id, GroupHeader, publisher_id_type_bits,
  ext1_of, uadp_of,
}
use node_red_contrib_opcua_s.Uadp.Network.Header.{
  write_publisher_id, read_publisher_id, read_number, read_big, read_text, id_of_text, or_zero,
  write_group_header, read_group_header, write_payload_header, read_payload_header,
}

-- A text id is one that can be stored.
abbrev pub FitsId : PublisherId → Type 0
FitsId (text s) = Storable (some s)
FitsId _ = Unit {0}

RoundTrip-number :
    (i : ℤ) (bits : ℕ)
    → bits < 3
    → RoundTrip (write_publisher_id bits (number i)) (read_publisher_id bits) (number i)
unfolding write_publisher_id read_publisher_id read_number
RoundTrip-number i zero h = RoundTrip-map number (RoundTrip-unsigned 1 i)
RoundTrip-number i (suc zero) h = RoundTrip-map number (RoundTrip-unsigned 2 i)
RoundTrip-number i (suc (suc zero)) h = RoundTrip-map number (RoundTrip-unsigned 4 i)
RoundTrip-number i (suc (suc (suc n))) h = absurd (omega arith)

RoundTrip-big : (i : ℤ) → RoundTrip (write_publisher_id 3 (big i)) (read_publisher_id 3) (big i)
unfolding write_publisher_id read_publisher_id read_big
RoundTrip-big i = RoundTrip-map big (RoundTrip-unsigned 8 i)

RoundTrip-text :
    (s : Text)
    → Storable (some s)
    → RoundTrip (write_publisher_id 4 (text s)) (read_publisher_id 4) (text s)
unfolding write_publisher_id read_publisher_id read_text
RoundTrip-text s h = RoundTrip-map id_of_text (RoundTrip-string (some s) h)

number_bits : (i : ℤ) (bits : ℕ) → publisher_id_type_bits (number i) ≡ ok bits → bits < 3
unfolding publisher_id_type_bits
number_bits (pos n) bits e = ground arith
number_bits (negsuc n) bits e = cc

at_bits :
    (id : PublisherId) {m n : ℕ}
    → ok m ≡ ok n
    → (m < 5) × RoundTrip (write_publisher_id m id) (read_publisher_id m) id
    → (n < 5) × RoundTrip (write_publisher_id n id) (read_publisher_id n) id
at_bits id {m = m} {n = n} p =
    subst (λ k. (k < 5) × RoundTrip (write_publisher_id k id) (read_publisher_id k) id) {x = m}
      {y = n} (cc)

-- An id is read back under the type bits that its writer chose.
pub RoundTrip-publisher_id :
    (id : PublisherId) (bits : ℕ)
    → publisher_id_type_bits id ≡ ok bits
    → FitsId id
    → (bits < 5) × RoundTrip (write_publisher_id bits id) (read_publisher_id bits) id
unfolding publisher_id_type_bits
RoundTrip-publisher_id (number i) bits e fits =
    let h = number_bits i bits e in (omega arith, RoundTrip-number i bits h)
RoundTrip-publisher_id (big i) bits e fits = at_bits (big i) e (omega arith, RoundTrip-big i)
RoundTrip-publisher_id (text s) bits e fits =
    at_bits (text s) e (omega arith, RoundTrip-text s fits)
RoundTrip-publisher_id fraction bits e fits = absurd (cc)
RoundTrip-publisher_id null_id bits e fits = absurd (cc)
RoundTrip-publisher_id other_id bits e fits = absurd (cc)

-- What the reader makes of a group header: the parts that were left out are 0.
abbrev pub filled : GroupHeader → GroupHeader
filled gh = record {
  writer_group_id = gh.writer_group_id;
  group_version = some (or_zero gh.group_version);
  network_message_number = some (or_zero gh.network_message_number);
  sequence_number = some (or_zero gh.sequence_number);
}

pub RoundTrip-group_header :
    (gh : GroupHeader) → RoundTrip (write_group_header gh) read_group_header (filled gh)
unfolding write_group_header read_group_header
RoundTrip-group_header gh = RoundTrip-bind _ (RoundTrip-uint 2 gh.writer_group_id) (
    RoundTrip-bind _ (RoundTrip-uint 4 (or_zero gh.group_version)) (
      RoundTrip-bind _ (RoundTrip-uint 2 (or_zero gh.network_message_number)) (
        RoundTrip-map (λ n. record (filled gh) { sequence_number = some n })
          (RoundTrip-uint 2 (or_zero gh.sequence_number)))))

all_units : (ids : List ℕ) → All (λ i. Unit {0}) ids
all_units [] = tt
all_units (i ∷ ids) = (tt, all_units ids)

pub RoundTrip-payload_header :
    (ids : List ℕ) → RoundTrip (write_payload_header ids) read_payload_header ids
unfolding write_payload_header read_payload_header
RoundTrip-payload_header ids =
    RoundTrip-bind _ (RoundTrip-uint 1 (length ids))
      (RoundTrip-many (λ i. Unit {0}) (λ i u. RoundTrip-uint 2 i) ids (all_units ids))

pub record Ext1 (bits : ℕ) (class time pico more : Bool) (f : ℕ) : Type 0 where
  pub id_bits : bit_and f 0x07 ≡ bits
  pub class_bit : has_flag f 0x08 ≡ class
  pub time_bit : has_flag f 0x20 ≡ time
  pub pico_bit : has_flag f 0x40 ≡ (pico && time)
  pub more_bit : has_flag f 0x80 ≡ more

abbrev ext1_tests : ℕ → (class time pico more : Bool) → List Bool
ext1_tests bits class time pico more =
    let f = ext1_of bits class time pico more in
    (bit_and f 0x07 == bits)
    ∷ same (has_flag f 0x08) class
    ∷ same (has_flag f 0x20) time
    ∷ same (has_flag f 0x40) (pico && time)
    ∷ same (has_flag f 0x80) more
    ∷ []

abbrev ext1_agrees : ℕ → (class time pico more x y : Bool) → Bool
ext1_agrees bits class time pico more x y = checks (ext1_tests bits class time pico more)

ext1_table : all_below 5 (λ bits. all6 (ext1_agrees bits)) ≡ true
unfolding ext1_of all_below
ext1_table = refl

pub Ext1-facts :
    (bits : ℕ) (class time pico more : Bool)
    → bits < 5
    → Ext1 bits class time pico more (ext1_of bits class time pico more)
Ext1-facts bits a b c d lt =
    let row = all_below_sound 5 (λ n. all6 (ext1_agrees n)) ext1_table bits lt in
    let h =
      checks-AllTrue (ext1_tests bits a b c d)
        (all6_sound (ext1_agrees bits) row a b c d true true) in
    record {
      id_bits = (==_iff _ bits).0 h.0;
      class_bit = same→eq _ _ h.1.0;
      time_bit = same→eq _ _ h.1.1.0;
      pico_bit = same→eq _ _ h.1.1.1.0;
      more_bit = same→eq _ _ h.1.1.1.1.0;
    }

pub record Uadp (id group ids more : Bool) (f : ℕ) : Type 0 where
  pub version : bit_and f 0x0f ≡ 1
  pub id_bit : has_flag f 0x10 ≡ id
  pub group_bit : has_flag f 0x20 ≡ group
  pub ids_bit : has_flag f 0x40 ≡ ids
  pub more_bit : has_flag f 0x80 ≡ more

abbrev uadp_tests : (id group ids more : Bool) → List Bool
uadp_tests id group ids more =
    let f = uadp_of id group ids more in
    (bit_and f 0x0f == 1)
    ∷ same (has_flag f 0x10) id
    ∷ same (has_flag f 0x20) group
    ∷ same (has_flag f 0x40) ids
    ∷ same (has_flag f 0x80) more
    ∷ []

abbrev uadp_agrees : (id group ids more x y : Bool) → Bool
uadp_agrees id group ids more x y = checks (uadp_tests id group ids more)

uadp_table : all6 uadp_agrees ≡ true
unfolding uadp_of
uadp_table = refl

pub Uadp-facts : (id group ids more : Bool) → Uadp id group ids more (uadp_of id group ids more)
Uadp-facts a b c d =
    let h =
      checks-AllTrue (uadp_tests a b c d) (all6_sound uadp_agrees uadp_table a b c d true true) in
    record {
      version = (==_iff _ 1).0 h.0;
      id_bit = same→eq _ _ h.1.0;
      group_bit = same→eq _ _ h.1.1.0;
      ids_bit = same→eq _ _ h.1.1.1.0;
      more_bit = same→eq _ _ h.1.1.1.1.0;
    }

-- A flag of a byte that is left out where it is 0.
pub gated : (f b : ℕ) → has_flag 0 b ≡ false → (not (f == 0) && has_flag f b) ≡ has_flag f b
gated zero b h = ground arith
gated (suc f) b h = ground arith

pub gated_bits :
    (f b : ℕ) → bit_and 0 b ≡ 0 → (if not (f == 0) then bit_and f b else 0) ≡ bit_and f b
gated_bits zero b h = ground arith
gated_bits (suc f) b h = ground arith
