-- ===== src/Publisher/Sequence.antt =====
-- The sequence numbers of nodes/opcua-publisher.js.
use node_red_contrib_opcua_s.Prelude.{
  ℕ, zero, suc, ◌+◌, ◌%◌, ◌^◌, Bool, true, false, if◌then◌else◌, Option, List, [], ◌∷◌, ◌++◌, map,
  length, ◌≡◌, refl, sym, ap, ◌∙◌, subst, arith,
}
use node_red_contrib_opcua_s.Uadp.DateTime.{Date}
use node_red_contrib_opcua_s.Publisher.Json.{Value, Members, assign}
use node_red_contrib_opcua_s.Uadp.Text.{Text}
use node_red_contrib_opcua_s.Uadp.DataSet.Object.{from_entries}
use node_red_contrib_opcua_s.Publisher.Emit.{
  is_taken, all_taken, offered, emit-offered, offered_first, offered_state,
}
use node_red_contrib_opcua_s.Publisher.{
  Writer, Frame, present_fields, frame, frames, Config, keyframe, Message, Publisher, next_sequence,
  build, Outcome, quiet, emit, input, received, Event, handle, run,
}

abbrev pub inputs : List (Date × Members) → List Event
inputs [] = []
inputs ((now, source) ∷ l) = received now source ∷ inputs l

-- `k` numbers from `n` on, modulo 2 ^ 16.
abbrev pub numbers_from : ℕ → ℕ → List ℕ
numbers_from n zero = []
numbers_from n (suc k) = (n % 2 ^ 16) ∷ numbers_from (suc n) k

numbers_same : (n m k : ℕ) → n % 2 ^ 16 ≡ m % 2 ^ 16 → numbers_from n k ≡ numbers_from m k
numbers_same n m zero h = refl
numbers_same n m (suc k) h = rw (h, numbers_same (suc n) (suc m) k (omega arith)) refl

numbers_next :
    (n k : ℕ)
    → (((n + 1) % 2 ^ 16) ∷ numbers_from (suc (next_sequence n)) k) ≡ numbers_from (suc n) (suc k)
unfolding next_sequence
numbers_next n k =
    let same_tail = numbers_same (suc ((n + 1) % 2 ^ 16)) (suc (suc n)) k (omega arith) in
    let same_head : (n + 1) % 2 ^ 16 ≡ suc n % 2 ^ 16 = omega arith in
    rw (same_tail, same_head) refl

abbrev pub message_number : Message → ℕ
message_number m = m.sequence_number

map-append :
    (xs ys : List Message)
    → map message_number (xs ++ ys) ≡ map message_number xs ++ map message_number ys
map-append [] ys = refl
map-append (x ∷ xs) ys = ap (◌∷◌ x.sequence_number) (map-append xs ys)

abbrev pub frame_fields : Frame → List (Text × (Text × Value))
frame_fields f = f.fields

-- The fields of each writer that have a value.
abbrev pub fields_of : Members → List Writer → List (List (Text × (Text × Value)))
fields_of source ws = map (λ w. from_entries (present_fields source w.fields)) ws

pub frames-fields_of :
    (source : Members) (ws : List Writer) (seqs : List (ℕ × ℕ))
    → map frame_fields (frames keyframe source ws seqs).1 ≡ fields_of source ws
unfolding frames frame
frames-fields_of source [] seqs = refl
frames-fields_of source (w ∷ ws) seqs =
    ap (◌∷◌ (from_entries (present_fields source w.fields))) (frames-fields_of source ws _)

-- A message with a number and with the fields of given values.
pub record IsOf (cfg : Config) (source : Members) (n : ℕ) (m : Message) : Type 0 where
  pub numbered : m.sequence_number ≡ n % 2 ^ 16
  pub filled : map frame_fields m.payload ≡ fields_of source cfg.writers

-- Messages for given inputs, numbered from `n` on.
abbrev pub AreOf : Config → ℕ → List (Date × Members) → List Message → Type 0
AreOf cfg n [] [] = Unit {0}
AreOf cfg n ((now, source) ∷ l) (m ∷ ms) =
    IsOf cfg source n m × (m.timestamp ≡ now) × AreOf cfg (suc n) l ms
AreOf cfg n _ _ = ⊥

AreOf-same :
    (cfg : Config) (n k : ℕ) (l : List (Date × Members)) (ms : List Message)
    → n % 2 ^ 16 ≡ k % 2 ^ 16
    → AreOf cfg n l ms
    → AreOf cfg k l ms
AreOf-same cfg n k [] [] e h = tt
AreOf-same cfg n k [] (m ∷ ms) e h = absurd h
AreOf-same cfg n k ((now, source) ∷ l) [] e h = absurd h
AreOf-same cfg n k ((now, source) ∷ l) (m ∷ ms) e (of, time, h) = (
  record { numbered = of.numbered ∙ e; filled = of.filled },
  time,
  AreOf-same cfg (suc n) (suc k) l ms (omega (arith, e)) h,
)

module _ (encode : ℕ → Message → Option (List (List ℕ))) (send : List (List ℕ) → Bool)
    (cfg : Config) where
  pub handle-received :
      (now : Date) (source : Members) (p : Publisher)
      → cfg.cyclic ≡ false
      → handle encode send cfg (received now source) p
        ≡ emit encode send cfg
            (build keyframe cfg now source p).1
            (build keyframe cfg now source p).0
  unfolding handle input
  handle-received now source p off =
      let built = build keyframe cfg now source p in
      subst
        (λ c.
          (if c
            then quiet (record p { latest_values = assign p.latest_values source })
            else emit encode send cfg built.1 built.0)
          ≡ emit encode send cfg built.1 built.0)
        (sym off) refl

  pub run_cons :
      (e : Event) (es : List Event) (p : Publisher) (o : Outcome)
      → handle encode send cfg e p ≡ o
      → run encode send cfg (e ∷ es) p
        ≡ ((run encode send cfg es o.state).0, o.sent ++ (run encode send cfg es o.state).1)
  unfolding run
  run_cons e es p o h =
      ap (λ r. ((run encode send cfg es r.state).0, r.sent ++ (run encode send cfg es r.state).1)) h

  -- In the acyclic mode, while the transport is connected: each input makes one message, with the
  -- next number modulo 2 ^ 16, its time and its values; of these, just those that neither the
  -- encoder nor send() refuses are sent, in their order.
  pub run-numbers_from :
      (l : List (Date × Members)) (p : Publisher)
      → cfg.cyclic ≡ false
      → p.connected ≡ true
      → (ms : List Message) × AreOf cfg (suc p.nm_seq) l ms
        × (map message_number ms ≡ numbers_from (suc p.nm_seq) (length l))
        × ((run encode send cfg (inputs l) p).1 ≡ all_taken encode send cfg ms)
  unfolding build next_sequence run
  run-numbers_from [] p off on = ([], tt, refl, refl)
  run-numbers_from ((now, source) ∷ l) p off on =
      let built = build keyframe cfg now source p in
      let b = is_taken encode send cfg built.1 in
      let o = offered encode send cfg built.1 built.0 b in
      let offer =
        handle-received now source p off ∙ emit-offered encode send cfg built.1 built.0 on in
      let number = offered_state encode send cfg built.1 built.0 (λ q. q.nm_seq) refl refl b in
      let open_gate =
        offered_state encode send cfg built.1 built.0 (λ q. q.connected) refl refl b in
      let (ms, of, numbers, sent) = run-numbers_from l o.state off (open_gate ∙ on) in
      (
        built.1 ∷ ms,
        (
          record { numbered = omega arith; filled = frames-fields_of source cfg.writers p.dsm_seq },
          refl,
          AreOf-same cfg _ (suc (suc p.nm_seq)) l ms (omega (arith, number)) of,
        ),
        ap (◌∷◌ ((p.nm_seq + 1) % 2 ^ 16))
              (numbers ∙ ap (λ n. numbers_from (suc n) (length l)) number)
            ∙ numbers_next p.nm_seq (length l),
        ap (λ r. r.1) (run_cons (received now source) (inputs l) p _ offer)
            ∙ offered_first encode send cfg built.1 built.0 _ b
            ∙ ap (λ rest. if b then built.1 ∷ rest else rest) sent,
      )
