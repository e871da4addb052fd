-- ===== src/Publisher/Cyclic.antt =====
-- The cyclic mode of nodes/opcua-publisher.js: keyframes, keep-alives, and what is lost.
use node_red_contrib_opcua_s.Prelude.{
  ℕ, Bool, true, false, if◌then◌else◌, Option, none, some, List, [], ◌∷◌, All, All-append, ◌≡◌,
  refl, sym, ◌∙◌, subst, if-cases,
}
use node_red_contrib_opcua_s.Uadp.Text.{Text}
use node_red_contrib_opcua_s.Uadp.DateTime.{Date}
use node_red_contrib_opcua_s.Uadp.DataSet.Object.{same_text_refl}
use node_red_contrib_opcua_s.Connection.{connected, disconnected, reconnecting, error}
use node_red_contrib_opcua_s.Publisher.Emit.{emit-cases}
use node_red_contrib_opcua_s.Publisher.Json.{object, Members, no_members, stringify, copy_members}
use node_red_contrib_opcua_s.Publisher.Json.Copy.{stringify-copy}
use node_red_contrib_opcua_s.Publisher.{
  Writer, Config, keyframe, keepalive, Message, Publisher, frame, frames, build, values_changed,
  differ, Outcome, fail, quiet, emit, flush, status_cb, publish_keyframe, publish, emit_copied,
  publish_keepalive, tick, status, ticked, received, Event, handle, run,
}

-- The last keyframe holds what is latest, as far as it is printed.
abbrev pub IsPublished : Publisher → Type 0
IsPublished p = values_changed p.latest_values p.published_snapshot ≡ some false

pub copied :
    (ms : Members) (s : Text)
    → stringify (object ms) ≡ some s
    → values_changed ms (some (copy_members ms)) ≡ some false
unfolding values_changed differ
copied ms s e = rw (stringify-copy ms, e, same_text_refl s) refl

abbrev pub IsKeepalive : Message → Type 0
IsKeepalive m = All (λ f. f.message_type ≡ keepalive) m.payload

-- A message that is pending, if there is one, has no keyframe.
abbrev pub IsPending : Option Message → Type 0
IsPending none = Unit {0}
IsPending (some m) = IsKeepalive m

-- Nothing is left to be published: what is latest was, and what is pending has no keyframe.
abbrev pub IsDone : Publisher → Type 0
IsDone p = IsPublished p × IsPending p.pending_send

abbrev pub NoInput : Event → Type 0
NoInput (status s) = Unit {0}
NoInput (ticked now) = Unit {0}
NoInput (received now source) = ⊥

pub frames_keepalive :
    (source : Members) (ws : List Writer) (seqs : List (ℕ × ℕ))
    → All (λ f. f.message_type ≡ keepalive) (frames keepalive source ws seqs).1
unfolding frames frame
frames_keepalive source [] seqs = tt
frames_keepalive source (w ∷ ws) seqs = (refl, frames_keepalive source ws _)

module _ (encode : ℕ → Message → Option (List (List ℕ))) (send : List (List ℕ) → Bool)
    (cfg : Config) where
  -- A handler that ends in a state that is done, and sent no keyframe.
  abbrev IsQuiet : Outcome → Type 0
  IsQuiet o = IsDone o.state × All IsKeepalive o.sent

  emit-IsQuiet :
      (m : Message) (p : Publisher) → IsDone p → IsKeepalive m → IsQuiet (emit encode send cfg m p)
  unfolding fail
  emit-IsQuiet m p (done, pending) h =
      emit-cases encode send cfg m p IsQuiet (λ off. ((done, h), tt)) (λ on. ((done, pending), tt))
        (λ on. ((done, pending), (h, tt)))

  flush-IsQuiet :
      (o : Option Message) (p : Publisher)
      → IsDone p
      → IsPending o
      → IsQuiet (flush encode send cfg o p)
  unfolding flush
  flush-IsQuiet none p h pending = (h, tt)
  flush-IsQuiet (some m) p (done, _) pending = emit-IsQuiet m _ (done, tt) pending

  tick-IsQuiet : (now : Date) (p : Publisher) → IsDone p → IsQuiet (tick encode send cfg now p)
  unfolding tick publish publish_keepalive build
  tick-IsQuiet now p (done, pending) =
      subst (λ c. IsQuiet (publish encode send cfg now c p)) (sym done)
        (emit-IsQuiet _ _ (done, pending) (frames_keepalive no_members cfg.writers p.dsm_seq))

  handle-IsQuiet :
      (e : Event) (p : Publisher) → NoInput e → IsDone p → IsQuiet (handle encode send cfg e p)
  unfolding handle status_cb
  handle-IsQuiet (status connected) p n h = flush-IsQuiet p.pending_send _ h h.1
  handle-IsQuiet (status disconnected) p n h = (h, tt)
  handle-IsQuiet (status reconnecting) p n h = (h, tt)
  handle-IsQuiet (status error) p n h = (h, tt)
  handle-IsQuiet (ticked now) p n h = if-cases IsQuiet cfg.cyclic (tick-IsQuiet now p h) (h, tt)
  handle-IsQuiet (received now source) p n h = absurd n

  run-IsQuiet :
      (es : List Event) (p : Publisher)
      → All NoInput es
      → IsDone p
      → All IsKeepalive (run encode send cfg es p).1
  unfolding run
  run-IsQuiet [] p ns h = tt
  run-IsQuiet (e ∷ es) p (n, ns) h =
      let first = handle-IsQuiet e p n h in
      All-append IsKeepalive _ _ first.1 (run-IsQuiet es _ ns first.0)

  -- A handler that sent nothing, and stays disconnected in a state with a property.
  abbrev IsHeld : (Publisher → Type 0) → Outcome → Type 0
  IsHeld Q o = (o.sent ≡ []) × ((o.state.connected ≡ false) × Q o.state)

  emit-IsHeld :
      (Q : Publisher → Type 0) (m : Message) (p : Publisher)
      → p.connected ≡ false
      → Q (record p { pending_send = some m })
      → IsHeld Q (emit encode send cfg m p)
  unfolding fail
  emit-IsHeld Q m p off q =
      emit-cases encode send cfg m p (IsHeld Q) (λ e. (refl, (off, q)))
        (λ on. absurd (cc (sym on ∙ off))) (λ on. absurd (cc (sym on ∙ off)))

  keyframe-IsHeld :
      (now : Date) (p : Publisher) (s : Text)
      → p.connected ≡ false
      → stringify (object p.latest_values) ≡ some s
      → IsHeld IsPublished (publish_keyframe encode send cfg now p)
  unfolding publish_keyframe emit_copied build
  keyframe-IsHeld now p s off e =
      subst
        (λ o. IsHeld IsPublished (
          emit_copied encode send cfg (build keyframe cfg now p.latest_values p).1 o
            (build keyframe cfg now p.latest_values p).0))
        (sym e) (emit-IsHeld IsPublished _ _ off (copied p.latest_values s e))

  first_tick-IsHeld :
      (now : Date) (p : Publisher) (s : Text)
      → p.connected ≡ false
      → p.published_snapshot ≡ none
      → stringify (object p.latest_values) ≡ some s
      → IsHeld IsPublished (tick encode send cfg now p)
  unfolding tick publish values_changed
  first_tick-IsHeld now p s off new e =
      subst
        (λ n. IsHeld IsPublished (publish encode send cfg now (values_changed p.latest_values n) p))
        (sym new) (keyframe-IsHeld now p s off e)

  second_tick-IsHeld :
      (now : Date) (p : Publisher)
      → p.connected ≡ false
      → IsPublished p
      → IsHeld IsDone (tick encode send cfg now p)
  unfolding tick publish publish_keepalive build
  second_tick-IsHeld now p off done =
      subst (λ c. IsHeld IsDone (publish encode send cfg now c p)) (sym done)
        (emit-IsHeld IsDone _ _ off (done, frames_keepalive no_members cfg.writers p.dsm_seq))

  handle-ticked :
      (now : Date) (p : Publisher)
      → cfg.cyclic ≡ true
      → tick encode send cfg now p ≡ handle encode send cfg (ticked now) p
  unfolding handle
  handle-ticked now p on =
      subst (λ c. tick encode send cfg now p ≡ (if c then tick encode send cfg now p else quiet p))
        (sym on) refl

  run_quiet :
      (e : Event) (es : List Event) (p : Publisher)
      → (handle encode send cfg e p).sent ≡ []
      → All IsKeepalive (run encode send cfg es (handle encode send cfg e p).state).1
      → All IsKeepalive (run encode send cfg (e ∷ es) p).1
  unfolding run
  run_quiet e es p none_sent h =
      All-append IsKeepalive _ _ (subst (All IsKeepalive) (sym none_sent) tt) h

  -- A cyclic publisher that has published nothing, whose transport is not yet connected at two ticks:
  -- whatever ticks and status changes follow, as long as no input does, it sends no keyframe. Its
  -- values are lost.
  pub run_lost :
      (a b : Date) (es : List Event) (p : Publisher) (s : Text)
      → cfg.cyclic ≡ true
      → p.connected ≡ false
      → p.published_snapshot ≡ none
      → stringify (object p.latest_values) ≡ some s
      → All NoInput es
      → All IsKeepalive (run encode send cfg (ticked a ∷ ticked b ∷ es) p).1
  run_lost a b es p s cyclic off new e ns =
      let first =
        subst (IsHeld IsPublished) (handle-ticked a p cyclic) (first_tick-IsHeld a p s off new e) in
      let q = (handle encode send cfg (ticked a) p).state in
      let second =
        subst (IsHeld IsDone) (handle-ticked b q cyclic)
          (second_tick-IsHeld b q first.1.0 first.1.1) in
      run_quiet (ticked a) (ticked b ∷ es) p first.0 (
        run_quiet (ticked b) es q second.0
          (run-IsQuiet es (handle encode send cfg (ticked b) q).state ns second.1.1))
