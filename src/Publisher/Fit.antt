-- ===== src/Publisher/Fit.antt =====
-- What holds of every message of nodes/opcua-publisher.js, whatever events the node meets.
use node_red_contrib_opcua_s.Prelude.{
  ℕ, ◌^◌, ◌<◌, Bool, true, false, if-cases, Option, none, some, List, [], ◌∷◌, map, All, All-append,
  ◌≡◌, refl, sym, subst, arith,
}
use node_red_contrib_opcua_s.Uadp.DateTime.{Date}
use node_red_contrib_opcua_s.Uadp.Text.{Text}
use node_red_contrib_opcua_s.Connection.{connected, disconnected, reconnecting, error}
use node_red_contrib_opcua_s.Publisher.Json.{Members, no_members}
use node_red_contrib_opcua_s.Publisher.Emit.{emit-cases}
use node_red_contrib_opcua_s.Publisher.{
  Writer, Config, FrameType, keyframe, keepalive, Frame, Message, Publisher, next_sequence,
  number_of, frame, frames, build, new_publisher, Outcome, fail, emit, flush, status_cb,
  publish_keyframe, publish_keepalive, emit_copied, publish, tick, input, status, ticked, received,
  Event, handle, run, writer_id,
}

abbrev pub frame_id : Frame → ℕ
frame_id f = f.data_set_writer_id

-- The id of the connection, the writers' ids in the payload header and in the payload alike, and numbers of 16 bits.
pub record IsFit (cfg : Config) (m : Message) : Type 0 where
  pub own_id : m.publisher_id ≡ cfg.publisher_id
  pub own_group : m.writer_group_id ≡ cfg.writer_group_id
  pub announced : m.data_set_writer_ids ≡ map writer_id cfg.writers
  pub aligned : map frame_id m.payload ≡ m.data_set_writer_ids
  pub small : m.sequence_number < 2 ^ 16
  pub all_small : All (λ f. f.sequence_number < 2 ^ 16) m.payload

abbrev IsPendingFit : Config → Option Message → Type 0
IsPendingFit cfg none = Unit {0}
IsPendingFit cfg (some m) = IsFit cfg m

frame_id-frame :
    (t : FrameType) (source : Members) (n : ℕ) (w : Writer)
    → (frame t source n w).data_set_writer_id ≡ w.data_set_writer_id
unfolding frame
frame_id-frame keyframe source n w = refl
frame_id-frame keepalive source n w = refl

number-frame :
    (t : FrameType) (source : Members) (n : ℕ) (w : Writer)
    → (frame t source n w).sequence_number ≡ n
unfolding frame
number-frame keyframe source n w = refl
number-frame keepalive source n w = refl

frames_aligned :
    (t : FrameType) (source : Members) (ws : List Writer) (seqs : List (ℕ × ℕ))
    → map frame_id (frames t source ws seqs).1 ≡ map writer_id ws
unfolding frames
frames_aligned t source [] seqs = refl
frames_aligned t source (w ∷ ws) seqs =
    rw (frame_id-frame t source _ w, frames_aligned t source ws _) refl

frames_small :
    (t : FrameType) (source : Members) (ws : List Writer) (seqs : List (ℕ × ℕ))
    → All (λ f. f.sequence_number < 2 ^ 16) (frames t source ws seqs).1
unfolding frames next_sequence
frames_small t source [] seqs = tt
frames_small t source (w ∷ ws) seqs =
    let e = number-frame t source (next_sequence (number_of w.data_set_writer_id seqs)) w in
    (subst (λ n. n < 2 ^ 16) (sym e) (omega arith), frames_small t source ws _)

build-IsFit :
    (t : FrameType) (cfg : Config) (now : Date) (source : Members) (p : Publisher)
    → IsFit cfg (build t cfg now source p).1
unfolding build next_sequence
build-IsFit t cfg now source p = record {
  own_id = refl;
  own_group = refl;
  announced = refl;
  aligned = frames_aligned t source cfg.writers p.dsm_seq;
  small = omega arith;
  all_small = frames_small t source cfg.writers p.dsm_seq;
}

module _ (encode : ℕ → Message → Option (List (List ℕ))) (send : List (List ℕ) → Bool)
    (cfg : Config) where
  -- A handler that leaves a fit message pending, and sent fit ones.
  abbrev AllFit : Outcome → Type 0
  AllFit o = IsPendingFit cfg o.state.pending_send × All (IsFit cfg) o.sent

  emit-AllFit :
      (m : Message) (p : Publisher)
      → IsPendingFit cfg p.pending_send
      → IsFit cfg m
      → AllFit (emit encode send cfg m p)
  unfolding fail
  emit-AllFit m p pending h =
      emit-cases encode send cfg m p AllFit (λ off. (h, tt)) (λ on. (pending, tt))
        (λ on. (pending, (h, tt)))

  flush-AllFit :
      (o : Option Message) (p : Publisher)
      → IsPendingFit cfg p.pending_send
      → IsPendingFit cfg o
      → AllFit (flush encode send cfg o p)
  unfolding flush
  flush-AllFit none p h pending = (h, tt)
  flush-AllFit (some m) p h pending = emit-AllFit m _ tt pending

  copied-AllFit :
      (m : Message) (s : Option Text) (p : Publisher)
      → IsPendingFit cfg p.pending_send
      → IsFit cfg m
      → AllFit (emit_copied encode send cfg m s p)
  unfolding emit_copied fail
  copied-AllFit m none p pending h = (pending, tt)
  copied-AllFit m (some s) p pending h = emit-AllFit m _ pending h

  publish-AllFit :
      (now : Date) (changed : Option Bool) (p : Publisher)
      → IsPendingFit cfg p.pending_send
      → AllFit (publish encode send cfg now changed p)
  unfolding publish publish_keyframe publish_keepalive fail build
  publish-AllFit now none p h = (h, tt)
  publish-AllFit now (some true) p h =
      copied-AllFit _ _ _ h (build-IsFit keyframe cfg now p.latest_values p)
  publish-AllFit now (some false) p h =
      emit-AllFit _ _ h (build-IsFit keepalive cfg now no_members p)

  handle-AllFit :
      (e : Event) (p : Publisher)
      → IsPendingFit cfg p.pending_send
      → AllFit (handle encode send cfg e p)
  unfolding handle status_cb tick input build
  handle-AllFit (status connected) p h = flush-AllFit p.pending_send _ h h
  handle-AllFit (status disconnected) p h = (h, tt)
  handle-AllFit (status reconnecting) p h = (h, tt)
  handle-AllFit (status error) p h = (h, tt)
  handle-AllFit (ticked now) p h = if-cases AllFit cfg.cyclic (publish-AllFit now _ p h) (h, tt)
  handle-AllFit (received now source) p h =
      if-cases AllFit cfg.cyclic (h, tt) (emit-AllFit _ _ h (build-IsFit keyframe cfg now source p))

  run_from :
      (es : List Event) (p : Publisher)
      → IsPendingFit cfg p.pending_send
      → All (IsFit cfg) (run encode send cfg es p).1
  unfolding run
  run_from [] p h = tt
  run_from (e ∷ es) p h =
      let first = handle-AllFit e p h in All-append (IsFit cfg) _ _ first.1 (run_from es _ first.0)

  -- Whatever ticks, inputs and status changes a new publisher meets, every message that it sends is
  -- fit.
  pub run-IsFit : (es : List Event) → All (IsFit cfg) (run encode send cfg es new_publisher).1
  run-IsFit es = run_from es new_publisher tt
