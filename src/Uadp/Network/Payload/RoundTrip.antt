-- ===== src/Uadp/Network/Payload/RoundTrip.antt =====
-- Lemmas on the payload of a NetworkMessage in lib/uadp-encoder.js.
use node_red_contrib_opcua_s.Prelude.{
  ℕ, suc, ◌+◌, ◌<◌, ◌≤◌, ltb, ◌==◌, Bool, true, false, List, [], ◌∷◌, ◌++◌, length, map, ◌≡◌, refl,
  ap, subst, ◌∙◌, arith, All, append-nil, inl, inr, le→ltb, lt→ltb,
}
use node_red_contrib_opcua_s.Uadp.Result.{Result, Written, ok, err, truncated, ◌⨟◌, Result-cases}
use node_red_contrib_opcua_s.Uadp.Stream.{
  Read, ◌>>=◌, read_uint16, read_bytes, read_many, write_uint16, read_uint, write_many,
}
use node_red_contrib_opcua_s.Uadp.Stream.RoundTrip.{
  at, Reads, RoundTrip, RoundTrip-bind, RoundTrip-map, RoundTrip-uint, RoundTrip-many, RoundTrip-ok,
  RoundTrip-err, Reads-bind, Reads-map, Reads-return, Reads-bytes,
}
use node_red_contrib_opcua_s.Uadp.DataSet.{
  DataSetMessage, encode_data_set_message, decode_data_set_message,
}
use node_red_contrib_opcua_s.Uadp.DataSet.RoundTrip.{FitsDataSet, RoundTrip-data_set}
use node_red_contrib_opcua_s.Uadp.Network.{Chunk}
use node_red_contrib_opcua_s.Uadp.Network.Payload.{
  cons_to, encode_all, concat, write_bodies, write_payload, nested, read_sized, read_each,
  read_single, read_remaining, read_many_sized, read_payload, write_chunk, read_chunk,
}

-- Either an element's write fails, or there are the bytes of the first message and of the rest.
encode_all-cons :
    (dsm : DataSetMessage) (dsms : List DataSetMessage) (bufs : List (List ℕ))
    → encode_all (dsm ∷ dsms) ≡ ok bufs
    → (bs : List ℕ) × (l : List (List ℕ)) × (encode_data_set_message dsm ≡ ok bs)
      × (encode_all dsms ≡ ok l)
      × (bufs ≡ bs ∷ l)
unfolding encode_all
encode_all-cons dsm dsms bufs h = go (encode_data_set_message dsm) (encode_all dsms) refl refl h
  where
    go :
        (x : Written) (y : Result (List (List ℕ)))
        → encode_data_set_message dsm ≡ x
        → encode_all dsms ≡ y
        → elim x [ err e ↦ err e | ok bs ↦ cons_to bs y ] ≡ ok bufs
        → (bs : List ℕ) × (l : List (List ℕ)) × (encode_data_set_message dsm ≡ ok bs)
          × (encode_all dsms ≡ ok l)
          × (bufs ≡ bs ∷ l)
    go (ok bs) (ok l) p q e = (bs, l, p, q, cc)
    go (ok bs) (err x) p q e = cc
    go (err x) y p q e = cc

Reads-nested :
    {A : Type 0} {m : Read A} {bs : List ℕ} {x : A} → Reads m bs x → Reads (nested m bs) [] x
unfolding nested
Reads-nested {m = m} {bs = bs} {x = x} r = record {
  run = λ p rest.
      let e =
        subst (λ cs. m (at 0 cs) ≡ ok (x, at (0 + length bs) [])) (append-nil bs) (r.run 0 []) in
      rw (e, nested) (ap (λ q. ok (x, at q rest)) (omega arith));
}

Reads-sized :
    (bs : List ℕ) (dsm : DataSetMessage)
    → Reads decode_data_set_message bs dsm
    → Reads (read_sized (length bs)) bs dsm
unfolding read_sized
Reads-sized bs dsm r =
    subst (λ cs. Reads (read_sized (length bs)) cs dsm) (append-nil bs)
      (unfold read_sized in Reads-bind _ (Reads-bytes bs) (Reads-nested r))

each_cons :
    (bs : List ℕ) (l : List (List ℕ)) (dsm : DataSetMessage) (dsms : List DataSetMessage)
    → Reads decode_data_set_message bs dsm
    → Reads (read_each (map length l)) (concat l) dsms
    → Reads (read_each (map length (bs ∷ l))) (concat (bs ∷ l)) (dsm ∷ dsms)
unfolding read_each concat
each_cons bs l dsm dsms r rs =
    Reads-bind _ (Reads-sized bs dsm r) (Reads-map (λ rest. dsm ∷ rest) rs)

Reads-each :
    (dsms : List DataSetMessage) (bufs : List (List ℕ))
    → All FitsDataSet dsms
    → encode_all dsms ≡ ok bufs
    → Reads (read_each (map length bufs)) (concat bufs) dsms
Reads-each [] bufs fits e = empty bufs e
  where
    empty :
        (l : List (List ℕ)) → encode_all [] ≡ ok l → Reads (read_each (map length l)) (concat l) []
    empty [] e = unfold read_each concat in Reads-return []
    empty (bs ∷ l) e = absurd (unfold encode_all in cc)
Reads-each (dsm ∷ dsms) bufs (f, fits) e =
    let (bs, l, p, q, split) = encode_all-cons dsm dsms bufs e in
    rw split
      (each_cons bs l dsm dsms ((RoundTrip-data_set dsm f).back bs p) (Reads-each dsms l fits q))

-- One message wants at most one writer id; more want an id each. (Without any message the reader
-- would take what follows for one.)
abbrev pub FitsCount : ℕ → List DataSetMessage → Type 0
FitsCount count [] = ⊥
FitsCount count (dsm ∷ []) = count ≤ 1
FitsCount count (dsm ∷ next ∷ dsms) = count ≡ length (dsm ∷ next ∷ dsms)

decode_empty : decode_data_set_message (at 0 []) ≡ err (truncated 0 1 0)
unfolding decode_data_set_message ◌>>=◌ read_uint read_bytes
decode_empty = refl

-- An encoded message is not empty.
encoded_pos :
    (bs : List ℕ) (dsm : DataSetMessage) → Reads decode_data_set_message bs dsm → 0 < length bs
encoded_pos [] dsm r = absurd (cc (r.run 0 [], decode_empty))
encoded_pos (b ∷ bs) dsm r = omega arith

nonempty : (bs rest : List ℕ) → 0 < length bs → (length (bs ++ rest) == 0) ≡ false
nonempty [] rest h = absurd (omega arith)
nonempty (b ∷ bs) rest h = ground arith

Reads-single :
    (bs : List ℕ) (dsm : DataSetMessage)
    → Reads decode_data_set_message bs dsm
    → Reads read_single bs (dsm ∷ [])
unfolding read_single
Reads-single bs dsm r = Reads-map (λ x. x ∷ []) r

Reads-remaining :
    (bs : List ℕ) (dsm : DataSetMessage)
    → Reads decode_data_set_message bs dsm
    → Reads read_remaining bs (dsm ∷ [])
unfolding read_remaining
Reads-remaining bs dsm r = record {
  run = λ p rest.
      rw (nonempty bs rest (encoded_pos bs dsm r), read_remaining)
        ((Reads-single bs dsm r).run p rest);
}

single_bodies : (has_ids : Bool) (bs : List ℕ) → write_bodies has_ids (bs ∷ []) ≡ ok bs
unfolding write_bodies concat ◌⨟◌
single_bodies true bs = ap ok (append-nil bs)
single_bodies false bs = ap ok (append-nil bs)

RoundTrip-single :
    (count : ℕ) (has_ids : Bool) (dsm : DataSetMessage)
    → count ≤ 1
    → FitsDataSet dsm
    → (bufs : List (List ℕ)) → encode_all (dsm ∷ []) ≡ ok bufs
    → RoundTrip (write_bodies has_ids bufs) (read_payload count) (dsm ∷ [])
unfolding read_payload
RoundTrip-single count has_ids dsm h f bufs e =
    let (bs, l, p, q, split) = encode_all-cons dsm [] bufs e in
    rw (split, no_more l q, single_bodies has_ids bs, le→ltb 1 count h)
      (RoundTrip-ok (Reads-remaining bs dsm ((RoundTrip-data_set dsm f).back bs p)))
  where
    no_more : (l : List (List ℕ)) → encode_all [] ≡ ok l → l ≡ []
    no_more [] e = refl
    no_more (bs ∷ l) e = unfold encode_all in cc

all_units : (ids : List ℕ) → All (λ i. Unit {0}) ids
all_units [] = tt
all_units (i ∷ ids) = (tt, all_units ids)

length-map : (bufs : List (List ℕ)) → length (map length bufs) ≡ length bufs
length-map [] = refl
length-map (bs ∷ bufs) = ap suc (length-map bufs)

encode_all-length :
    (dsms : List DataSetMessage) (bufs : List (List ℕ))
    → encode_all dsms ≡ ok bufs
    → length bufs ≡ length dsms
encode_all-length [] [] e = refl
encode_all-length [] (bs ∷ l) e = absurd (unfold encode_all in cc)
encode_all-length (dsm ∷ dsms) bufs e =
    let (bs, l, p, q, split) = encode_all-cons dsm dsms bufs e in
    rw split (ap suc (encode_all-length dsms l q))

RoundTrip-sized :
    (dsms : List DataSetMessage) (bufs : List (List ℕ))
    → All FitsDataSet dsms
    → encode_all dsms ≡ ok bufs
    → 1 < length dsms
    → RoundTrip (write_bodies true bufs) (read_payload (length dsms)) dsms
unfolding write_bodies read_payload read_many_sized
RoundTrip-sized dsms bufs fits e h =
    let same_count = encode_all-length dsms bufs e in
    rw (same_count, lt→ltb 1 (length dsms) h)
      (RoundTrip-bind _
        (subst
          (λ n.
            RoundTrip (write_many write_uint16 (map length bufs)) (read_many n read_uint16)
              (map length bufs))
          (length-map bufs ∙ same_count)
          (RoundTrip-many (λ i. Unit {0}) (λ i u. RoundTrip-uint 2 i) (map length bufs)
            (all_units (map length bufs))))
        (RoundTrip-ok (Reads-each dsms bufs fits e)))

-- The DataSetMessages of a payload are read back in order.
pub RoundTrip-payload :
    (count : ℕ) (dsms : List DataSetMessage)
    → FitsCount count dsms
    → All FitsDataSet dsms
    → RoundTrip (write_payload (ltb 0 count) dsms) (read_payload count) dsms
unfolding write_payload
RoundTrip-payload count [] h fits = absurd h
RoundTrip-payload count (dsm ∷ []) h (f, fits) = elim (Result-cases (encode_all (dsm ∷ []))) [
  | inl (bufs, e) ↦ rw (e, write_payload) (RoundTrip-single count (ltb 0 count) dsm h f bufs e)
  | inr (x, e) ↦ rw (e, write_payload) (RoundTrip-err x)
]
RoundTrip-payload count (dsm ∷ next ∷ dsms) h fits =
    elim (Result-cases (encode_all (dsm ∷ next ∷ dsms))) [
      | inl (bufs, e) ↦
          rw (e, write_payload, h, lt→ltb 0 (suc (suc (length dsms))) (omega arith))
            (RoundTrip-sized _ bufs fits e (omega arith))
      | inr (x, e) ↦ rw (e, write_payload) (RoundTrip-err x)
    ]

-- A chunk survives the wire.
pub RoundTrip-chunk : (c : Chunk) → RoundTrip (write_chunk c) read_chunk c
unfolding write_chunk read_chunk
RoundTrip-chunk c = RoundTrip-bind _ (RoundTrip-uint 2 c.message_sequence_number) (
    RoundTrip-bind _ (RoundTrip-uint 4 c.chunk_offset) (
      RoundTrip-bind _ (RoundTrip-uint 4 c.total_size) (
        RoundTrip-bind _ (RoundTrip-uint 4 (length c.chunk_data)) (
          RoundTrip-map (λ bs. record c { chunk_data = bs })
            (RoundTrip-ok (Reads-bytes c.chunk_data))))))
