-- ===== src/Publisher/Stuck.antt =====
-- The cyclic mode of nodes/opcua-publisher.js, where the latest values hold a BigInt.
use node_red_contrib_opcua_s.Prelude.{
  ℕ, Bool, true, if◌then◌else◌, Option, none, some, List, [], ◌∷◌, map, ◌≡◌, refl, sym, ap, ◌∙◌,
  subst,
}
use node_red_contrib_opcua_s.Uadp.DateTime.{Date}
use node_red_contrib_opcua_s.Publisher.Json.{object, Members, stringify}
use node_red_contrib_opcua_s.Publisher.{
  Config, keyframe, Message, Publisher, build, values_changed, differ, Outcome, fail, publish,
  publish_keyframe, emit_copied, tick, ticked, handle, run, quiet,
}

module _ (encode : ℕ → Message → Option (List (List ℕ))) (send : List (List ℕ) → Bool)
    (cfg : Config) where
  -- Nothing sent, the `catch` reached, and the same values again.
  abbrev IsStuck : Publisher → Outcome → Type 0
  IsStuck p o = (o.sent ≡ []) × ((o.failed ≡ true) × (o.state.latest_values ≡ p.latest_values))

  keyframe-IsStuck :
      (now : Date) (p : Publisher)
      → stringify (object p.latest_values) ≡ none
      → IsStuck p (publish_keyframe encode send cfg now p)
  unfolding publish_keyframe emit_copied build fail
  keyframe-IsStuck now p e =
      subst
        (λ o. IsStuck p (
          emit_copied encode send cfg (build keyframe cfg now p.latest_values p).1 o
            (build keyframe cfg now p.latest_values p).0))
        (sym e) (refl, (refl, refl))

  publish-IsStuck :
      (now : Date) (p : Publisher) (snapshot : Option Members)
      → stringify (object p.latest_values) ≡ none
      → IsStuck p (publish encode send cfg now (values_changed p.latest_values snapshot) p)
  unfolding publish values_changed differ fail
  publish-IsStuck now p none e = keyframe-IsStuck now p e
  publish-IsStuck now p (some old) e =
      subst (λ o. IsStuck p (publish encode send cfg now (differ o (stringify (object old))) p))
        (sym e) (refl, (refl, refl))

  tick-IsStuck :
      (now : Date) (p : Publisher)
      → stringify (object p.latest_values) ≡ none
      → IsStuck p (tick encode send cfg now p)
  unfolding tick
  tick-IsStuck now p e = publish-IsStuck now p p.published_snapshot e

  -- Where JSON.stringify throws on the latest values (they hold a BigInt), every tick ends in its
  -- `catch`, and no number of ticks sends a message.
  pub run_stuck :
      (times : List Date) (p : Publisher)
      → cfg.cyclic ≡ true
      → stringify (object p.latest_values) ≡ none
      → (run encode send cfg (map ticked times) p).1 ≡ []
  unfolding run handle
  run_stuck [] p on e = refl
  run_stuck (now ∷ times) p on e =
      let stuck =
        subst (λ c. IsStuck p (if c then tick encode send cfg now p else quiet p)) (sym on)
          (tick-IsStuck now p e) in
      let rest =
        run_stuck times (handle encode send cfg (ticked now) p).state on
          (ap (λ ms. stringify (object ms)) stuck.1.1 ∙ e) in
      rw (stuck.0, rest) refl
