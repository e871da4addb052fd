-- ===== src/Publisher/Emit.antt =====
-- What _emit of nodes/opcua-publisher.js can end in.
use node_red_contrib_opcua_s.Prelude.{
  ℕ, Bool, true, false, not, if◌then◌else◌, if-cases, Option, none, some, List, [], ◌∷◌, ◌++◌, ◌≡◌,
  refl, sym, subst,
}
use node_red_contrib_opcua_s.Publisher.{
  Config, Message, Publisher, publishing, failing, Outcome, fail, quiet, deliver, emit,
}

-- Whether the encoder returns, and send() then takes what it returned.
abbrev taken_bytes : (List (List ℕ) → Bool) → Option (List (List ℕ)) → Bool
taken_bytes send none = false
taken_bytes send (some bytes) = send bytes

abbrev pub is_taken :
    (ℕ → Message → Option (List (List ℕ))) → (List (List ℕ) → Bool) → Config → Message → Bool
is_taken encode send cfg m = taken_bytes send (encode cfg.max_network_message_size m)

-- Of some messages, those that neither the encoder nor send() refuses.
abbrev pub all_taken :
    (ℕ → Message → Option (List (List ℕ)))
    → (List (List ℕ) → Bool)
    → Config
    → List Message
    → List Message
all_taken encode send cfg [] = []
all_taken encode send cfg (m ∷ ms) =
    let rest = all_taken encode send cfg ms in if is_taken encode send cfg m then m ∷ rest else rest

module _ (encode : ℕ → Message → Option (List (List ℕ))) (send : List (List ℕ) → Bool)
    (cfg : Config) (m : Message) (p : Publisher) where
  abbrev pub delivered : Outcome
  delivered = record { state = record p { shown = publishing }; sent = m ∷ []; failed = false }

  deliver-cases :
      (P : Outcome → Type 0) (o : Option (List (List ℕ)))
      → P (fail p [])
      → P delivered
      → P (deliver encode send cfg m o p)
  unfolding deliver
  deliver-cases P none h k = h
  deliver-cases P (some bytes) h k = if-cases P (send bytes) k h

  pub emit-cases :
      (P : Outcome → Type 0)
      → (p.connected ≡ false → P (quiet (record p { pending_send = some m })))
      → (p.connected ≡ true → P (fail p []))
      → (p.connected ≡ true → P delivered)
      → P (emit encode send cfg m p)
  unfolding emit
  emit-cases P held thrown sent = go p.connected refl
    where
      go :
          (b : Bool)
          → p.connected ≡ b
          → P (
              if not b
              then quiet (record p { pending_send = some m })
              else deliver encode send cfg m (encode cfg.max_network_message_size m) p)
      go false e = held e
      go true e = deliver-cases P (encode cfg.max_network_message_size m) (thrown e) (sent e)

  -- A message that was offered to the encoder and to send().
  abbrev pub offered : Bool → Outcome
  offered true = delivered
  offered false = fail p []

  deliver-offered :
      (o : Option (List (List ℕ))) → deliver encode send cfg m o p ≡ offered (taken_bytes send o)
  unfolding deliver
  deliver-offered none = refl
  deliver-offered (some bytes) = by_send (send bytes)
    where
      by_send : (b : Bool) → (if b then delivered else fail p []) ≡ offered b
      by_send true = refl
      by_send false = refl

  -- A message that is emitted while connected is offered.
  pub emit-offered :
      p.connected ≡ true → emit encode send cfg m p ≡ offered (is_taken encode send cfg m)
  unfolding emit
  emit-offered on =
      subst
        (λ b.
          (if not b
            then quiet (record p { pending_send = some m })
            else deliver encode send cfg m (encode cfg.max_network_message_size m) p)
          ≡ offered (is_taken encode send cfg m))
        (sym on) (deliver-offered _)

  pub emit_held :
      p.connected ≡ false → emit encode send cfg m p ≡ quiet (record p { pending_send = some m })
  unfolding emit
  emit_held off =
      subst
        (λ b.
          (if not b
            then quiet (record p { pending_send = some m })
            else deliver encode send cfg m (encode cfg.max_network_message_size m) p)
          ≡ quiet (record p { pending_send = some m }))
        (sym off) refl

  -- What was offered goes out in front of the rest, if it is taken.
  pub offered_first :
      (rest : List Message) (b : Bool) → (offered b).sent ++ rest ≡ (if b then m ∷ rest else rest)
  unfolding fail
  offered_first rest true = refl
  offered_first rest false = refl

  -- Taken or not, a message that was offered leaves the rest of the state.
  pub offered_state :
      {A : Type 0} (f : Publisher → A)
      → f (record p { shown = publishing }) ≡ f p
      → f (record p { shown = failing }) ≡ f p
      → (b : Bool) → f (offered b).state ≡ f p
  unfolding fail
  offered_state f h k true = h
  offered_state f h k false = k
