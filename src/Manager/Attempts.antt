-- ===== src/Manager/Attempts.antt =====
-- The outcomes of a connect attempt of lib/opcua-client-manager.js.
use node_red_contrib_opcua_s.Prelude.{
  if-split, remove, contains, ℕ, ◌==◌, true, false, some, is_some, ◌∷◌, ◌≡◌, refl, sym, ap, ◌∙◌,
  subst, arith, inl, inr, Bool-cases, Option-cases,
}
use node_red_contrib_opcua_s.Manager.{
  cleaning, creating, Attempt, Manager, dispose_client, close_session, same_client, fail_attempt,
  opened, adopt_session, drop_session, drop_client, session_created, session_refused,
}
use node_red_contrib_opcua_s.Manager.Steps.{Phase, in_use, closing, IsOwned, IsBare}
use node_red_contrib_opcua_s.Manager.Teardown.{
  removed, all_removed, no_sessions, retry-IsOwned, abort-IsBare, bare-IsOwned, timer_off,
  bare_fail,
}

module _ (p : Phase) (a : Attempt) (m : Manager) (h : IsOwned p m) (e : m.attempt ≡ some a)
    (waits : a.stage ≡ cleaning → ⊥) where
  -- An attempt of the current lifecycle: the manager is in use.
  at_present : (a.life == m.life) ≡ true → p ≡ in_use
  at_present now = go p h
    where
      go : (q : Phase) → IsOwned q m → q ≡ in_use
      go in_use k = refl
      go closing k = absurd (cc (sym now ∙ k.stopped.1 a e))

  has_client : is_some m.client ≡ true
  has_client = elim (Bool-cases (is_some m.client)) [
    | inl there ↦ there
    | inr absent ↦ absurd (waits (h.waiting a e (ap is_some (h.attempt_client a e) ∙ absent)))
  ]

  -- An aborted attempt that ends, behind a change of the sessions that leaves none open.
  aborted-IsOwned :
      (n : Manager)
      → n.client ≡ m.client
      → n.open_clients ≡ m.open_clients
      → n.reconnect_timer ≡ m.reconnect_timer
      → ((s : ℕ) → contains s n.open_sessions ≡ false)
      → (a.life == n.life) ≡ false
      → IsOwned p (fail_attempt a n)
  aborted-IsOwned n same clients timer none_open old =
      let own = λ (i : ℕ) (there : contains i n.open_clients ≡ true).
        same ∙ h.own_client i (ap (contains i) (sym clients) ∙ there) in
      let b = abort-IsBare a n own none_open (h.attempt_client a e ∙ sym same) old in
      bare-IsOwned p (fail_attempt a n) b.0 b.1 (λ c. b.2 ∙ timer ∙ timer_off p h c)

  present :
      (n : Manager)
      → (IsOwned in_use m → IsOwned in_use n)
      → (a.life == m.life) ≡ true
      → IsOwned p n
  present n keeps now =
      let q = at_present now in
      subst (λ q. IsOwned q n) (sym q) (keeps (subst (λ q. IsOwned q m) q h))

  open_now :
      IsOwned in_use m
      → IsOwned in_use (record m { attempt = some (record a { stage = creating }) })
  open_now k =
      let own = h.attempt_client a e in
      let none_open = no_sessions a m h e waits in
      let has = has_client in
      let le = h.not_later a e in ground (arith, k.own_client, own, none_open, has, le)

  pub opened-IsOwned : IsOwned p (opened a m)
  unfolding opened
  opened-IsOwned =
      if-split (IsOwned p) (a.life == m.life) (present _ open_now)
        (λ old. aborted-IsOwned m refl refl refl (no_sessions a m h e waits) old)

  adopt_now : IsOwned in_use m → IsOwned in_use (adopt_session m)
  unfolding adopt_session contains
  adopt_now k =
      let none_open = no_sessions a m h e waits in
      let has = has_client in ground (arith, k.own_client, none_open, has)

  dropped : (s : ℕ) → contains s (remove m.next_number (m.next_number ∷ m.open_sessions)) ≡ false
  unfolding contains
  dropped s =
      let absent = no_sessions a m h e waits s in
      removed s m.next_number (m.next_number ∷ m.open_sessions)
        (λ there. ground (arith, there, absent))

  pub created-IsOwned : IsOwned p (session_created a m)
  unfolding session_created drop_session close_session
  created-IsOwned =
      if-split (IsOwned p) (a.life == m.life) (present _ adopt_now)
        (λ old. aborted-IsOwned (drop_session m) refl refl refl dropped old)

  pub fail_open-IsOwned : IsOwned p (fail_attempt a m)
  fail_open-IsOwned = elim (Bool-cases (a.life == m.life)) [
    | inl now ↦ present _ (λ k. retry-IsOwned a m k now) now
    | inr old ↦ aborted-IsOwned m refl refl refl (no_sessions a m h e waits) old
  ]

  refused-IsBare :
      IsBare (drop_client a.own_client (dispose_client a.own_client m))
      × ((drop_client a.own_client (dispose_client a.own_client m)).reconnect_timer
          ≡ m.reconnect_timer)
      × ((drop_client a.own_client (dispose_client a.own_client m)).life ≡ m.life)
  unfolding drop_client dispose_client same_client
  refused-IsBare = elim (Option-cases m.client) [
    | inl ce ↦ absurd (cc (sym (ap is_some ce) ∙ has_client))
    | inr (i, ce) ↦
        let no_clients = all_removed m.client i m.open_clients h.own_client ce in
        let none_open = no_sessions a m h e waits in
        let own = h.attempt_client a e in ground (arith, no_clients, none_open, own)
  ]

pub refused-IsOwned :
    (p : Phase) (a : Attempt) (m : Manager)
    → IsOwned p m
    → m.attempt ≡ some a
    → (a.stage ≡ cleaning → ⊥)
    → IsOwned p (session_refused a m)
unfolding session_refused
refused-IsOwned p a m h e waits =
    let (b, timer, life) = refused-IsBare p a m h e waits in
    bare_fail p a _ b (λ c. (timer ∙ timer_off p h c, ap (λ l. a.life == l) life ∙ old_life p h c))
  where
    old_life : (q : Phase) → IsOwned q m → q ≡ closing → (a.life == m.life) ≡ false
    old_life in_use k c = absurd (cc c)
    old_life closing k c = k.stopped.1 a e
