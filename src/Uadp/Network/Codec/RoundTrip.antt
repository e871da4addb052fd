-- ===== src/Uadp/Network/Codec/RoundTrip.antt =====
-- Lemmas on encodeNetworkMessage and decodeNetworkMessage of lib/uadp-encoder.js: flag bytes, header
-- and body.
use node_red_contrib_opcua_s.Prelude.{
  ℕ, ◌+◌, ◌==◌, ◌<◌, Bool, true, false, ◌&&◌, not, if◌then◌else◌, Option, none, some, is_some, List,
  [], ◌∷◌, length, ltb, ◌≡◌, refl, ap, subst, arith, All, inl, inr, append-nil,
}
use node_red_contrib_opcua_s.Prelude.Flags.{has_flag}
use node_red_contrib_opcua_s.Uadp.Result.{
  Written, ok, err, ◌⨟◌, ⨟_assoc, nil-⨟, Result-cases, not_yet_implemented,
}
use node_red_contrib_opcua_s.Uadp.Stream.{return, write_if, read_if, write_uint16}
use node_red_contrib_opcua_s.Uadp.Stream.RoundTrip.{
  at, RoundTrip, RoundTrip-bind, RoundTrip-map, RoundTrip-uint, RoundTrip-if, RoundTrip-return,
  RoundTrip-err,
}
use node_red_contrib_opcua_s.Uadp.Text.{Text}
use node_red_contrib_opcua_s.Uadp.Guid.{write_guid}
use node_red_contrib_opcua_s.Uadp.DateTime.{write_date_time, RoundTrip-date_time}
use node_red_contrib_opcua_s.Uadp.Variant.RoundTrip.{IsGuidText, RoundTrip-guid_text}
use node_red_contrib_opcua_s.Uadp.DataSet.RoundTrip.{
  FitsDataSet, RoundTrip-flags, RoundTrip-nothing,
}
use node_red_contrib_opcua_s.Uadp.Network.{
  PublisherId, GroupHeader, Chunk, NetworkMessage, id_bits, ext1_of, ext1_with, extended_flags1,
  extended_flags2, uadp_flags, is_text, is_filled,
}
use node_red_contrib_opcua_s.Uadp.Network.Header.{
  write_header, write_header_fields, write_publisher_id, write_group_header, write_payload_header,
  read_publisher_id, read_group_header,
}
use node_red_contrib_opcua_s.Uadp.Network.Header.RoundTrip.{
  FitsId, RoundTrip-publisher_id, filled, RoundTrip-group_header, RoundTrip-payload_header,
  Ext1-facts, Uadp-facts, gated, gated_bits,
}
use node_red_contrib_opcua_s.Uadp.Network.Payload.{write_payload, write_chunk}
use node_red_contrib_opcua_s.Uadp.Network.Payload.RoundTrip.{
  FitsCount, RoundTrip-payload, RoundTrip-chunk,
}
use node_red_contrib_opcua_s.Uadp.Network.Codec.{
  refuse_promoted, write_network, encode_whole, chunk_message, write_chunk_message,
  encode_chunk_network_message, read_body, refuse_promoted_fields, count_of, read_announced,
  read_with_flags, check_version, read_network_message, decode_network_message, answer_of,
}

-- `map`, on a part that may be absent.
abbrev pub map_option : {A B : Type 0} → (A → B) → Option A → Option B
map_option f none = none
map_option f (some a) = some (f a)

-- The header as the reader sees it, with nothing behind it.
abbrev pub head_of : NetworkMessage → NetworkMessage
head_of nm = record nm {
  group_header = map_option filled nm.group_header;
  promoted_fields = false;
  chunk = none;
  payload = [];
}

pub record FitsHeader (nm : NetworkMessage) : Type 0 where
  pub id_fits : (id : PublisherId) → nm.publisher_id ≡ some id → FitsId id
  pub class_fits : (s : Text) → nm.data_set_class_id ≡ some s → IsGuidText s
  pub class_set : is_text nm.data_set_class_id ≡ is_some nm.data_set_class_id
  pub ids_set : is_filled nm.payload_header ≡ is_some nm.payload_header
  pub pico_has_time : (is_some nm.picoseconds && is_some nm.timestamp) ≡ is_some nm.picoseconds

-- The group header of the reader has all its parts.
RoundTrip-group :
    (o : Option GroupHeader)
    → RoundTrip
        (write_if (is_some o) write_group_header o)
        (read_if (is_some o) read_group_header)
        (map_option filled o)
unfolding write_if read_if
RoundTrip-group none = RoundTrip-return none
RoundTrip-group (some gh) = RoundTrip-map some (RoundTrip-group_header gh)

RoundTrip-id :
    (o : Option PublisherId) (bits : ℕ)
    → id_bits o ≡ ok bits
    → ((id : PublisherId) → o ≡ some id → FitsId id)
    → (bits < 5)
      × RoundTrip
          (write_if (is_some o) (write_publisher_id bits) o)
          (read_if (is_some o) (read_publisher_id bits))
          o
unfolding id_bits write_if read_if
RoundTrip-id none bits e fits = (ground arith, RoundTrip-return none)
RoundTrip-id (some id) bits e fits =
    let (lt, r) = RoundTrip-publisher_id id bits e (fits id refl) in (lt, RoundTrip-map some r)

-- The fields behind the flag bytes, and any body `w` behind them.
RoundTrip-announced :
    (nm : NetworkMessage) (bits : ℕ) (is_chunk : Bool) (w : Written) (answer : NetworkMessage)
    → id_bits nm.publisher_id ≡ ok bits
    → FitsHeader nm
    → RoundTrip w (read_body is_chunk (count_of nm.payload_header) (head_of nm)) answer
    → RoundTrip
        (write_if (is_some nm.publisher_id) (write_publisher_id bits) nm.publisher_id
          ⨟ write_if (is_some nm.data_set_class_id) write_guid nm.data_set_class_id
          ⨟ write_if (is_some nm.group_header) write_group_header nm.group_header
          ⨟ write_if (is_some nm.payload_header) write_payload_header nm.payload_header
          ⨟ write_if (is_some nm.timestamp) write_date_time nm.timestamp
          ⨟ write_if (is_some nm.picoseconds) write_uint16 nm.picoseconds
          ⨟ w)
        (read_announced
          (is_some nm.publisher_id)
          bits
          (is_some nm.data_set_class_id)
          (is_some nm.group_header)
          (is_some nm.payload_header)
          (is_some nm.timestamp)
          (is_some nm.picoseconds)
          false
          is_chunk)
        answer
unfolding read_announced
RoundTrip-announced nm bits is_chunk w answer e fits body =
    RoundTrip-bind _ (RoundTrip-id nm.publisher_id bits e fits.id_fits).1 (
      RoundTrip-bind _
        (RoundTrip-if nm.data_set_class_id (λ s p. RoundTrip-guid_text s (fits.class_fits s p)))
        (RoundTrip-bind _ (RoundTrip-group nm.group_header) (
          RoundTrip-bind _ (RoundTrip-if nm.payload_header (λ ids p. RoundTrip-payload_header ids))
            (RoundTrip-bind _ (RoundTrip-if nm.timestamp (λ d p. RoundTrip-date_time d)) (
              RoundTrip-bind _ (RoundTrip-if nm.picoseconds (λ n p. RoundTrip-uint 2 n))
                (RoundTrip-nothing tt _ (unfold refuse_promoted_fields in refl) body))))))

ext2_plain :
    (nm : NetworkMessage) → nm.promoted_fields ≡ false → has_flag (extended_flags2 nm) 0x02 ≡ false
unfolding extended_flags2
ext2_plain nm h = ground arith

ext2_chunk : (nm : NetworkMessage) → has_flag (extended_flags2 nm) 0x01 ≡ is_some nm.chunk
unfolding extended_flags2
ext2_chunk nm = ground arith

right_version : check_version 1 ≡ return tt
unfolding check_version
right_version = refl

-- Flag bytes, header fields, and any body.
RoundTrip-header :
    (nm : NetworkMessage) (bits : ℕ) (w : Written) (answer : NetworkMessage)
    → id_bits nm.publisher_id ≡ ok bits
    → FitsHeader nm
    → nm.promoted_fields ≡ false
    → RoundTrip w (read_body (is_some nm.chunk) (count_of nm.payload_header) (head_of nm)) answer
    → let ext2 = extended_flags2 nm in
      let ext1 = ext1_with bits ext2 nm in
      RoundTrip (write_header nm (uadp_flags nm ext1) ext1 ext2 ⨟ w) read_network_message answer
unfolding write_header write_header_fields read_network_message read_with_flags ext1_with uadp_flags
RoundTrip-header nm bits w answer e fits plain body =
    let ext2 = extended_flags2 nm in
    let ext1 =
      ext1_of bits (is_text nm.data_set_class_id) (is_some nm.timestamp) (is_some nm.picoseconds)
        (not (ext2 == 0)) in
    let a =
      Ext1-facts bits (is_text nm.data_set_class_id) (is_some nm.timestamp) (is_some nm.picoseconds)
        (not (ext2 == 0)) (RoundTrip-id nm.publisher_id bits e fits.id_fits).0 in
    let u =
      Uadp-facts (is_some nm.publisher_id) (is_some nm.group_header) (is_filled nm.payload_header)
        (not (ext1 == 0)) in
    simp ⨟_assoc (
      RoundTrip-bind _ (RoundTrip-uint 1 _) (
        RoundTrip-nothing tt _ (rw u.version right_version) (
          rw u.more_bit (
            RoundTrip-bind _ (RoundTrip-flags _ ext1 refl) (
              rw (gated ext1 0x80 refl, a.more_bit)
                (RoundTrip-bind _ (RoundTrip-flags _ ext2 refl) (
                  rw
                    (
                      gated ext1 0x08 refl,
                      gated ext1 0x20 refl,
                      gated ext1 0x40 refl,
                      gated_bits ext1 0x07 refl,
                      a.class_bit,
                      a.time_bit,
                      a.pico_bit,
                      a.id_bits,
                      u.id_bit,
                      u.group_bit,
                      u.ids_bit,
                      fits.class_set,
                      fits.ids_set,
                      fits.pico_has_time,
                      ext2_plain nm plain,
                      ext2_chunk nm,
                    )
                    (RoundTrip-announced nm bits (is_some nm.chunk) w answer e fits body))))))))

abbrev pub FitsPayload : NetworkMessage → Type 0
FitsPayload nm = FitsCount (count_of nm.payload_header) nm.payload × All FitsDataSet nm.payload

-- The flag of the payload header says whether it has ids.
ids_flag : (o : Option (List ℕ)) → is_filled o ≡ is_some o → is_filled o ≡ ltb 0 (count_of o)
ids_flag none h = ground arith
ids_flag (some []) h = absurd (ground arith)
ids_flag (some (i ∷ ids)) h = ground arith

refuse_nothing :
    (nm : NetworkMessage) (uadp ext1 : ℕ)
    → nm.promoted_fields ≡ false
    → refuse_promoted uadp ext1 (extended_flags2 nm) ≡ ok []
unfolding refuse_promoted
refuse_nothing nm uadp ext1 h =
    rw (ext2_plain nm h) (never (has_flag uadp 0x80) (has_flag ext1 0x80))
  where
    never :
        (a b : Bool)
        → ◌≡◌ {A = Written} (if a && (b && false) then err not_yet_implemented else ok []) (ok [])
    never a b = ground arith

RoundTrip-network :
    (nm : NetworkMessage) (bits : ℕ)
    → id_bits nm.publisher_id ≡ ok bits
    → FitsHeader nm
    → nm.promoted_fields ≡ false
    → nm.chunk ≡ none
    → FitsPayload nm
    → let ext2 = extended_flags2 nm in
      let ext1 = ext1_with bits ext2 nm in
      RoundTrip
        (write_network nm (uadp_flags nm ext1) ext1 ext2)
        read_network_message
        (record (head_of nm) { payload = nm.payload })
unfolding write_network
RoundTrip-network nm bits e fits plain single (counts, dsms_fit) =
    let ext1 = ext1_with bits (extended_flags2 nm) nm in
    rw (refuse_nothing nm (uadp_flags nm ext1) ext1 plain, nil-⨟, ids_bit nm ext1)
      (RoundTrip-header nm bits _ _ e fits plain
        (rw (single, ids_flag nm.payload_header fits.ids_set) (body nm counts dsms_fit)))
  where
    ids_bit :
        (nm : NetworkMessage) (ext1 : ℕ)
        → has_flag (uadp_flags nm ext1) 0x40 ≡ is_filled nm.payload_header
    ids_bit nm ext1 =
        unfold uadp_flags in
        (Uadp-facts (is_some nm.publisher_id) (is_some nm.group_header)
          (is_filled nm.payload_header) (not (ext1 == 0))).ids_bit

    body :
        (nm : NetworkMessage)
        → FitsCount (count_of nm.payload_header) nm.payload
        → All FitsDataSet nm.payload
        → RoundTrip
            (write_payload (ltb 0 (count_of nm.payload_header)) nm.payload)
            (read_body false (count_of nm.payload_header) (head_of nm))
            (record (head_of nm) { payload = nm.payload })
    body nm counts fit =
        unfold read_body in
        RoundTrip-map (λ dsms. record (head_of nm) { payload = dsms })
          (RoundTrip-payload (count_of nm.payload_header) nm.payload counts fit)

-- A message as its reader has it: the parts of the group header that were left out are 0.
abbrev pub received : NetworkMessage → NetworkMessage
received nm = record (head_of nm) { payload = nm.payload }

-- What a message must meet to be told from every other.
pub record FitsNetwork (nm : NetworkMessage) : Type 0 where
  pub header_fits : FitsHeader nm
  pub no_promoted : nm.promoted_fields ≡ false
  pub no_chunk : nm.chunk ≡ none
  pub payload_fits : FitsPayload nm

pub RoundTrip-whole :
    (nm : NetworkMessage)
    → FitsNetwork nm
    → RoundTrip (encode_whole nm) read_network_message (received nm)
unfolding encode_whole extended_flags1
RoundTrip-whole nm f = elim (Result-cases (id_bits nm.publisher_id)) [
  | inl (bits, e) ↦
      rw (e, encode_whole, extended_flags1)
        (RoundTrip-network nm bits e f.header_fits f.no_promoted f.no_chunk f.payload_fits)
  | inr (x, e) ↦ rw (e, encode_whole, extended_flags1) (RoundTrip-err x)
]

chunk_header :
    (nm : NetworkMessage) (c : Chunk) (writer_id : ℕ)
    → FitsHeader nm
    → FitsHeader (chunk_message nm c writer_id)
chunk_header nm c writer_id f = record {
  id_fits = f.id_fits;
  class_fits = f.class_fits;
  class_set = f.class_set;
  ids_set = refl;
  pico_has_time = f.pico_has_time;
}

-- The message that the reader of a piece has.
abbrev pub received_chunk : NetworkMessage → Chunk → ℕ → NetworkMessage
received_chunk nm c writer_id = record (head_of (chunk_message nm c writer_id)) { chunk = some c }

chunk_body :
    (nm : NetworkMessage) (c : Chunk)
    → RoundTrip (write_chunk c) (read_body true 1 nm) (record nm { chunk = some c })
unfolding read_body
chunk_body nm c = RoundTrip-map (λ d. record nm { chunk = some d }) (RoundTrip-chunk c)

pub RoundTrip-chunk_message :
    (nm : NetworkMessage) (c : Chunk) (writer_id : ℕ)
    → FitsHeader nm
    → RoundTrip
        (encode_chunk_network_message nm c writer_id)
        read_network_message
        (received_chunk nm c writer_id)
unfolding encode_chunk_network_message extended_flags1
RoundTrip-chunk_message nm c writer_id f = elim (Result-cases (id_bits nm.publisher_id)) [
  | inl (bits, e) ↦
      rw (e, encode_chunk_network_message, extended_flags1)
        (unfold write_chunk_message in
          RoundTrip-header (chunk_message nm c writer_id) bits _ _ e (chunk_header nm c writer_id f)
            refl (chunk_body (head_of (chunk_message nm c writer_id)) c))
  | inr (x, e) ↦ rw (e, encode_chunk_network_message, extended_flags1) (RoundTrip-err x)
]

-- A reader that takes all of a buffer.
pub decode-RoundTrip :
    (w : Written) (nm : NetworkMessage) (bs : List ℕ)
    → RoundTrip w read_network_message nm
    → w ≡ ok bs
    → decode_network_message bs ≡ ok nm
unfolding decode_network_message
decode-RoundTrip w nm bs r e =
    let run = (r.back bs e).run 0 [] in
    ap answer_of (
      subst (λ cs. read_network_message (at 0 cs) ≡ ok (nm, at (0 + length bs) [])) (append-nil bs)
        run)
