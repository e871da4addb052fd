-- ===== src/Manager/Retry.antt =====
-- The retry loop of reconnect() in lib/opcua-client-manager.js, on the outcomes of its attempts.
use node_red_contrib_opcua_s.Prelude.{
  ℕ, suc, ◌+◌, ◌*◌, ◌≤◌, ◌<◌, leb, ◌==◌, min, max, not, ◌&&◌, if◌then◌else◌, if-split, Option, none,
  some, List, [], ◌∷◌, length, All, ◌≡◌, ◌≢◌, refl, ap, arith,
}

-- An attempt connects, fails with an error, or is cut off: an abort came before it, in it, or in the
-- wait in front of it.
pub data Outcome : Type 0 where
  connects : Outcome
  fails : ℕ → Outcome
  aborts : Outcome

-- How the loop ended; `running` is a loop that goes on behind the outcomes.
pub data Ended : Type 0 where
  reconnected : ℕ → Ended
  reconnect_failed : ℕ → ℕ → Ended
  reconnect_aborted : Ended
  running : Ended

-- `opts.maxAttempts !== undefined ? … : Math.max(1, this.maxReconnectAttempts)`
unfoldable pub attempts_allowed : Option ℕ → ℕ → ℕ
attempts_allowed (some n) configured = n
attempts_allowed none configured = max 1 configured

-- `opts.initialDelay || …` and `opts.maxDelay || …`
unfoldable pub or_default_delay : Option ℕ → ℕ → ℕ
or_default_delay (some n) fallback = if n == 0 then fallback else n
or_default_delay none fallback = fallback

-- The loop behind `attempt` attempts: the delays that it waits, and how it ends.
unfoldable pub retry_from : ℕ → ℕ → ℕ → ℕ → List Outcome → List ℕ × Ended
retry_from max_attempts initial_delay max_delay attempt [] = ([], running)
retry_from max_attempts initial_delay max_delay attempt (connects ∷ os) =
    ([], reconnected (suc attempt))
retry_from max_attempts initial_delay max_delay attempt (aborts ∷ os) = ([], reconnect_aborted)
retry_from max_attempts initial_delay max_delay attempt (fails e ∷ os) =
    let rest = retry_from max_attempts initial_delay max_delay (suc attempt) os in
    if not (max_attempts == 0) && leb max_attempts (suc attempt)
    then ([], reconnect_failed (suc attempt) e)
    else (min (initial_delay * suc attempt) max_delay ∷ rest.0, rest.1)

-- The rest of a loop: it has ended, with less waits than attempts were left, none of them too long.
abbrev IsOver : ℕ → ℕ → ℕ → List ℕ × Ended → Type 0
IsOver max_attempts max_delay attempt r =
    (r.1 ≢ running) × ((attempt + length r.0 < max_attempts) × All (λ d. d ≤ max_delay) r.0)

retry-IsOver :
    (m i d attempt : ℕ) (os : List Outcome)
    → attempt < m
    → m ≤ attempt + length os
    → IsOver m d attempt (retry_from m i d attempt os)
unfolding retry_from
retry-IsOver m i d attempt [] lt enough = absurd (omega arith)
retry-IsOver m i d attempt (connects ∷ os) lt enough = (λ e. cc e, (omega arith, tt))
retry-IsOver m i d attempt (aborts ∷ os) lt enough = (λ e. cc e, (omega arith, tt))
retry-IsOver m i d attempt (fails e ∷ os) lt enough =
    if-split (IsOver m d attempt) (not (m == 0) && leb m (suc attempt))
      (λ last. (λ e. cc e, (omega arith, tt)))
      (λ more.
        let below : suc attempt < m = ground arith in
        let (over, (few, short)) = retry-IsOver m i d (suc attempt) os below (omega arith) in
        (over, (omega (arith, few), (omega arith, short))))

-- With a bound on the attempts, as many outcomes as the bound end the loop, whatever they are; it has waited
-- less often than that, and never longer than the maximal delay.
pub retry_from-ends :
    (m i d : ℕ) (os : List Outcome)
    → 0 < m
    → m ≤ length os
    → let r = retry_from m i d 0 os in (r.1 ≢ running) × ((length r.0 < m) × All (λ w. w ≤ d) r.0)
retry_from-ends m i d os pos enough =
    let (over, (few, short)) = retry-IsOver m i d 0 os pos (omega arith) in
    (over, (omega (arith, few), short))

abbrev pub IsFailure : Outcome → Type 0
IsFailure (fails e) = Unit {0}
IsFailure _ = ⊥

-- Without a bound the loop goes on as long as its attempts fail, with a wait behind each.
pub retry_forever :
    (i d attempt : ℕ) (os : List Outcome)
    → All IsFailure os
    → ((retry_from 0 i d attempt os).1 ≡ running)
      × (length (retry_from 0 i d attempt os).0 ≡ length os)
unfolding retry_from
retry_forever i d attempt [] h = (refl, refl)
retry_forever i d attempt (connects ∷ os) (h, hs) = absurd h
retry_forever i d attempt (aborts ∷ os) (h, hs) = absurd h
retry_forever i d attempt (fails e ∷ os) (h, hs) =
    let (runs, waits) = retry_forever i d (suc attempt) os hs in (runs, ap suc waits)
