-- ===== src/Subscriber/EndToEnd.antt =====
-- From encodeNetworkMessage over a transport to what nodes/opcua-subscriber.js sends.
use node_red_contrib_opcua_s.Prelude.{
  later, arith, suc, ℕ, ◌≤◌, Option, none, some, List, [], ◌∷◌, ◌++◌, length, All, ◌≡◌, refl, sym,
  ap, ◌∙◌, append-nil,
}
use node_red_contrib_opcua_s.Uadp.Result.{ok}
use node_red_contrib_opcua_s.Uadp.Text.{Text}
use node_red_contrib_opcua_s.Uadp.DateTime.{Date}
use node_red_contrib_opcua_s.Uadp.DataSet.{DataSetMessage, or_empty}
use node_red_contrib_opcua_s.Uadp.Network.{Chunk, NetworkMessage}
use node_red_contrib_opcua_s.Uadp.Network.Codec.{
  encode_whole, encode_network_message, encode_chunk_network_message, sequence_of, writer_of,
  chunked,
}
use node_red_contrib_opcua_s.Uadp.Network.Codec.RoundTrip.{
  FitsHeader, FitsNetwork, received, RoundTrip-whole, decode-RoundTrip,
}
use node_red_contrib_opcua_s.Uadp.Network.Codec.Decode.{decode-encode_chunk_network_message}
use node_red_contrib_opcua_s.Uadp.Network.Codec.Split.{IsPiece}
use node_red_contrib_opcua_s.Reassembler.{Reassembler, Warning, push, new_reassembler}
use node_red_contrib_opcua_s.Reassembler.InOrder.{deliver, with_last, AreInTime}
use node_red_contrib_opcua_s.Udp.{on_datagrams, messages}
use node_red_contrib_opcua_s.Udp.Delivery.{handed, AreBuffers, key_for, key_same}
use node_red_contrib_opcua_s.Udp.EndToEnd.{
  on_datagrams-encode_network_message, encode_network_message-IsCollected,
}
use node_red_contrib_opcua_s.Connection.{udp, mqtt}
use node_red_contrib_opcua_s.Subscriber.Filter.{IsAccepted, handle_one-IsAccepted}
use node_red_contrib_opcua_s.Subscriber.{
  Config, Event, sent, version_mismatch, decode_error, warned, next_id, output_of, handle_all,
  handle_network_message, handle_decoded, handle_complete, warn_all, on_chunk, on_decoded,
  on_message, on_messages, Handled, own_reassembler, mqtt_max_reassembled_size,
}

-- The filter and the expected version accept every DataSetMessage, under the id at its place.
abbrev pub AreAccepted : Config → NetworkMessage → List ℕ → List DataSetMessage → Type 0
AreAccepted cfg nm ids [] = Unit {0}
AreAccepted cfg nm ids (dsm ∷ dsms) =
    IsAccepted cfg nm (next_id ids).0 dsm × AreAccepted cfg nm (next_id ids).1 dsms

-- One message for each DataSetMessage.
abbrev pub all_sent :
    Config → Date → Option Text → NetworkMessage → List ℕ → List DataSetMessage → List Event
all_sent cfg now topic nm ids [] = []
all_sent cfg now topic nm ids (dsm ∷ dsms) =
    sent (output_of cfg now topic nm (next_id ids).0 dsm)
    ∷ all_sent cfg now topic nm (next_id ids).1 dsms

abbrev pub without_warnings : List Event → List Event
without_warnings [] = []
without_warnings (warned w ∷ es) = without_warnings es
without_warnings (sent o ∷ es) = sent o ∷ without_warnings es
without_warnings (version_mismatch v ∷ es) = version_mismatch v ∷ without_warnings es
without_warnings (decode_error e ∷ es) = decode_error e ∷ without_warnings es

without_warnings-append :
    (es fs : List Event) → without_warnings (es ++ fs) ≡ without_warnings es ++ without_warnings fs
without_warnings-append [] fs = refl
without_warnings-append (warned w ∷ es) fs = without_warnings-append es fs
without_warnings-append (sent o ∷ es) fs = ap (◌∷◌ (sent o)) (without_warnings-append es fs)
without_warnings-append (version_mismatch v ∷ es) fs =
    ap (◌∷◌ (version_mismatch v)) (without_warnings-append es fs)
without_warnings-append (decode_error e ∷ es) fs =
    ap (◌∷◌ (decode_error e)) (without_warnings-append es fs)

without_warnings-warn_all : (ws : List Warning) → without_warnings (warn_all ws) ≡ []
without_warnings-warn_all [] = refl
without_warnings-warn_all (w ∷ ws) = without_warnings-warn_all ws

-- The warnings of a push fall away in front of what it hands out.
without_warnings-push :
    (ws : List Warning) (es fs gs : List Event)
    → without_warnings fs ≡ without_warnings gs
    → without_warnings ((warn_all ws ++ es) ++ fs) ≡ without_warnings (es ++ gs)
without_warnings-push ws es fs gs h =
    without_warnings-append (warn_all ws ++ es) fs
    ∙ ap (λ l. l ++ without_warnings fs)
        (without_warnings-append (warn_all ws) es
          ∙ ap (λ l. l ++ without_warnings es) (without_warnings-warn_all ws))
    ∙ ap (λ l. without_warnings es ++ l) h
    ∙ sym (without_warnings-append es gs)

module _ (cfg : Config) (clock : ℕ) (now : Date) (topic : Option Text) where
  without_warnings-all_sent :
      (nm : NetworkMessage) (ids : List ℕ) (dsms : List DataSetMessage)
      → without_warnings (all_sent cfg now topic nm ids dsms) ≡ all_sent cfg now topic nm ids dsms
  without_warnings-all_sent nm ids [] = refl
  without_warnings-all_sent nm ids (dsm ∷ dsms) =
      ap (◌∷◌ (sent (output_of cfg now topic nm (next_id ids).0 dsm)))
        (without_warnings-all_sent nm _ dsms)

  handle_all-AreAccepted :
      (nm : NetworkMessage) (ids : List ℕ) (dsms : List DataSetMessage)
      → AreAccepted cfg nm ids dsms
      → handle_all cfg now topic nm ids dsms ≡ all_sent cfg now topic nm ids dsms
  unfolding handle_all
  handle_all-AreAccepted nm ids [] h = refl
  handle_all-AreAccepted nm ids (dsm ∷ dsms) (a, h) =
      rw ((handle_one-IsAccepted cfg now topic nm _ dsm).1 a, handle_all-AreAccepted nm _ dsms h)
        refl

  on_message-chunk :
      (r : Reassembler) (nm : NetworkMessage) (c : Chunk) (writer_id sequence : ℕ) (buf : List ℕ)
      → FitsHeader nm
      → c.message_sequence_number ≡ sequence
      → encode_chunk_network_message nm c writer_id ≡ ok buf
      → let p = push clock r (key_for nm writer_id sequence) c in
        on_message cfg clock now topic (some r) buf ≡ record {
          state = some p.state;
          events = warn_all p.warnings ++ handle_complete cfg now topic p.complete;
        }
  unfolding on_message on_decoded on_chunk
  on_message-chunk r nm c writer_id sequence buf fits e h =
      rw (decode-encode_chunk_network_message nm c writer_id buf fits h)
        (ap (λ key. on_chunk_key r c key) (key_same nm c writer_id sequence e))
    where
      on_chunk_key : Reassembler → Chunk → Text → Handled
      on_chunk_key r c key =
          let p = push clock r key c in
          record {
            state = some p.state;
            events = warn_all p.warnings ++ handle_complete cfg now topic p.complete;
          }

  -- A message that is read back is handled as it was sent.
  handle_complete-received :
      (nm : NetworkMessage) (full : List ℕ)
      → FitsNetwork nm
      → encode_whole nm ≡ ok full
      → AreAccepted cfg (received nm) (or_empty nm.payload_header) nm.payload
      → handle_complete cfg now topic (some full)
        ≡ all_sent cfg now topic (received nm) (or_empty nm.payload_header) nm.payload
  unfolding handle_complete handle_decoded handle_network_message
  handle_complete-received nm full fits e accepted =
      rw (decode-RoundTrip _ (received nm) full (RoundTrip-whole nm fits) e)
        (handle_all-AreAccepted (received nm) (or_empty nm.payload_header) nm.payload accepted)

-- What becomes of what pushes hand out, each at its time.
abbrev handle_each : Config → (ℕ → Date) → Option Text → List (Option (List ℕ)) → List Event
handle_each cfg now topic [] = []
handle_each cfg now topic (o ∷ os) =
    handle_complete cfg (now 0) topic o ++ handle_each cfg (later now) topic os

-- The place of the last buffer.
abbrev pub last_of {ℓ} : {A : Type ℓ} → List A → ℕ
last_of [] = 0
last_of (b ∷ []) = 0
last_of (b ∷ c ∷ bs) = suc (last_of (c ∷ bs))

last_of-length {ℓ κ} :
    {A : Type ℓ} {B : Type κ} (l : List A) (m : List B)
    → length l ≡ length m
    → last_of l ≡ last_of m
last_of-length [] [] h = refl
last_of-length [] (y ∷ ys) h = absurd (omega (arith, h))
last_of-length (x ∷ xs) [] h = absurd (omega (arith, h))
last_of-length (x ∷ []) (y ∷ []) h = refl
last_of-length (x ∷ []) (y ∷ z ∷ zs) h = absurd (omega (arith, h))
last_of-length (x ∷ w ∷ xs) (y ∷ []) h = absurd (omega (arith, h))
last_of-length (x ∷ w ∷ xs) (y ∷ z ∷ zs) h =
    ap suc (last_of-length (w ∷ xs) (z ∷ zs) (omega (arith, h)))

handle_each-with_last :
    (cfg : Config) (now : ℕ → Date) (topic : Option Text) (c : Chunk) (cs : List Chunk)
    (full : List ℕ)
    → handle_each cfg now topic (with_last (c ∷ cs) full)
      ≡ handle_complete cfg (now (last_of (c ∷ cs))) topic (some full)
unfolding handle_complete
handle_each-with_last cfg now topic c [] full = append-nil _
handle_each-with_last cfg now topic c (d ∷ cs) full =
    handle_each-with_last cfg (later now) topic d cs full

on_messages-deliver :
    (cfg : Config) (clock : ℕ → ℕ) (now : ℕ → Date) (topic : Option Text) (r : Reassembler)
    (nm : NetworkMessage) (writer_id sequence k : ℕ) (cs : List Chunk) (bufs : List (List ℕ))
    → FitsHeader nm
    → All (IsPiece sequence k) cs
    → AreBuffers nm writer_id cs bufs
    → let h = on_messages cfg clock now topic (some r) bufs in
      let d = deliver clock r (key_for nm writer_id sequence) cs in
      (h.state ≡ some d.0)
      × (without_warnings h.events ≡ without_warnings (handle_each cfg now topic d.1))
unfolding on_messages deliver
on_messages-deliver cfg clock now topic r nm writer_id sequence k [] [] fits pieces h = (refl, refl)
on_messages-deliver cfg clock now topic r nm writer_id sequence k [] (buf ∷ bufs) fits pieces h =
    absurd h
on_messages-deliver cfg clock now topic r nm writer_id sequence k (c ∷ cs) [] fits pieces h =
    absurd h
on_messages-deliver cfg clock now topic r nm writer_id sequence k (c ∷ cs) (buf ∷ bufs) fits
      (piece, pieces) (h, hs) =
    let p = push (clock 0) r (key_for nm writer_id sequence) c in
    let (s, es) =
      on_messages-deliver cfg (later clock) (later now) topic p.state nm writer_id sequence k cs
        bufs fits pieces hs in
    rw (on_message-chunk cfg (clock 0) (now 0) topic r nm c writer_id sequence buf fits piece.2 h)
      ((s, without_warnings-push p.warnings (handle_complete cfg (now 0) topic p.complete) _ _ es))

-- Over MQTT: a message that FitsNetwork, that encodeNetworkMessage splits into chunk messages, that
-- is not longer than 16 MiB, and whose DataSetMessages the node accepts. From the buffers in their
-- order, none more than 30 seconds behind the first, the node sends one message for each
-- DataSetMessage, in their order, at the time of the last buffer and with no error; its reassembler is
-- empty again.
pub on_messages-encode_network_message :
    (cfg : Config) (clock : ℕ → ℕ) (now : ℕ → Date) (topic : Option Text) (mtu : ℕ)
    (nm : NetworkMessage) (full : List ℕ) (bufs : List (List ℕ))
    → FitsNetwork nm
    → encode_whole nm ≡ ok full
    → length full ≤ mqtt_max_reassembled_size
    → encode_network_message mtu nm ≡ ok (chunked bufs)
    → AreInTime clock (length bufs)
    → AreAccepted cfg (received nm) (or_empty nm.payload_header) nm.payload
    → let h = on_messages cfg clock now topic (own_reassembler mqtt) bufs in
      (h.state ≡ own_reassembler mqtt)
      × (without_warnings h.events
          ≡ all_sent cfg
              (now (last_of bufs))
              topic
              (received nm)
              (or_empty nm.payload_header)
              nm.payload)
on_messages-encode_network_message cfg clock now topic mtu nm full bufs fits e small h in_time
      accepted =
    let g =
      encode_network_message-IsCollected mqtt_max_reassembled_size clock mtu nm full bufs e small h
        in_time in
    let (s, es) =
      on_messages-deliver cfg clock now topic (new_reassembler mqtt_max_reassembled_size) nm
        (writer_of nm.payload_header) (sequence_of nm.group_header) g.size g.pieces bufs
        fits.header_fits g.all_pieces g.buffers in
    let at = now (last_of bufs) in
    (
      s ∙ ap (λ d. some d.0) g.collected,
      es
          ∙ ap (λ d. without_warnings (handle_each cfg now topic d.1)) g.collected
          ∙ ap without_warnings (last_piece g.pieces g.once)
          ∙ ap (λ i. without_warnings (handle_complete cfg (now i) topic (some full)))
              (last_of-length g.pieces bufs g.same_count)
          ∙ ap without_warnings (handle_complete-received cfg 0 at topic nm full fits e accepted)
          ∙ without_warnings-all_sent cfg 0 at topic (received nm) (or_empty nm.payload_header)
              nm.payload,
    )
  where
    last_piece :
        (cs : List Chunk)
        → handed (with_last cs full) ≡ full ∷ []
        → handle_each cfg now topic (with_last cs full)
          ≡ handle_complete cfg (now (last_of cs)) topic (some full)
    last_piece [] h = absurd (cc h)
    last_piece (c ∷ cs) h = handle_each-with_last cfg now topic c cs full

-- Over UDP: the same for a node behind a transport that gets the buffers as datagrams, and whose
-- cap the message fits: it sends one message for each DataSetMessage when the transport emits the
-- message.
pub on_messages-on_datagrams :
    (cfg : Config) (limit : ℕ) (clock : ℕ → ℕ) (now : ℕ → Date) (mtu : ℕ) (nm : NetworkMessage)
    (full : List ℕ) (bufs : List (List ℕ))
    → FitsNetwork nm
    → encode_whole nm ≡ ok full
    → length full ≤ limit
    → encode_network_message mtu nm ≡ ok (chunked bufs)
    → AreInTime clock (length bufs)
    → AreAccepted cfg (received nm) (or_empty nm.payload_header) nm.payload
    → (on_messages cfg clock now none
        (own_reassembler udp)
        (messages (on_datagrams clock (new_reassembler limit) bufs).events)).events
      ≡ all_sent cfg (now 0) none (received nm) (or_empty nm.payload_header) nm.payload
unfolding on_messages on_message on_decoded handle_network_message
on_messages-on_datagrams cfg limit clock now mtu nm full bufs fits e small h in_time accepted =
    let (s, one, back) =
      on_datagrams-encode_network_message limit clock mtu nm full bufs fits e small h in_time in
    ap (λ l. (on_messages cfg clock now none none l).events) one
    ∙ ap (λ l. (on_decoded cfg (clock 0) (now 0) none none l).events ++ []) back
    ∙ append-nil _
    ∙ handle_all-AreAccepted cfg (clock 0) (now 0) none (received nm) (or_empty nm.payload_header)
        nm.payload accepted
