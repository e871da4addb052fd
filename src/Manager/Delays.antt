-- ===== src/Manager/Delays.antt =====
-- How long lib/opcua-client-manager.js waits: the options of a connect attempt, and the delay of the
-- background reconnect. Delays are whole milliseconds.
use native.Mathlib.Nat.{le-mul_of_pos_right, one-le-pow, mul-le-mul_left, pow-le-pow_right}
use node_red_contrib_opcua_s.Prelude.{
  ℕ, suc, ◌-◌, ◌*◌, ◌/◌, ◌^◌, ◌≤◌, ◌<◌, ◌==◌, min, max, if◌then◌else◌, Option, none, some, arith,
}

-- BACKGROUND_RECONNECT_MAX_DELAY_MS
abbrev pub background_reconnect_max_delay_ms : ℕ
background_reconnect_max_delay_ms = 60000

-- `none` is a value that is missing or "", `some none` one that is no finite number from 0 on, and
-- `some (some n)` one whose whole part is n.
unfoldable pub to_count : Option (Option ℕ) → ℕ → ℕ
to_count (some (some n)) fallback = n
to_count _ fallback = fallback

-- `toCount(config.reconnectDelay, 5000) || 5000`
unfoldable pub reconnect_delay : Option (Option ℕ) → ℕ
reconnect_delay value = if to_count value 5000 == 0 then 5000 else to_count value 5000

pub record Strategy : Type 0 where
  pub initial_delay : ℕ
  pub max_retry : ℕ
  pub max_delay : ℕ

unfoldable pub connection_strategy : ℕ → ℕ → Strategy
connection_strategy delay max_reconnect_attempts = record {
  initial_delay = min 1000 (max delay 2 / 2);
  max_retry = max_reconnect_attempts;
  max_delay = max delay 2;
}

-- Attempts are counted from 1.
unfoldable pub background_reconnect_delay : ℕ → ℕ → ℕ
background_reconnect_delay delay attempt =
    min (delay * 2 ^ min (attempt - 1) 16) (max background_reconnect_max_delay_ms delay)

reconnect_delay_pos : (value : Option (Option ℕ)) → 0 < reconnect_delay value
unfolding reconnect_delay to_count
reconnect_delay_pos none = ground arith
reconnect_delay_pos (some none) = ground arith
reconnect_delay_pos (some (some n)) = ground arith

-- node-opcua asks for an initial delay below the maximal one: whatever is configured, it gets that,
-- and an initial delay of at least a millisecond.
pub connection_strategy_ordered :
    (value : Option (Option ℕ)) (retries : ℕ)
    → let s = connection_strategy (reconnect_delay value) retries in
      (0 < s.initial_delay) × (s.initial_delay < s.max_delay)
unfolding connection_strategy
connection_strategy_ordered value retries =
    let pos = reconnect_delay_pos value in (omega (arith, pos), omega (arith, pos))

capped :
    (delay cap now next : ℕ)
    → delay ≤ now
    → now ≤ next
    → (delay ≤ min now (max cap delay))
      × ((min now (max cap delay) ≤ max cap delay)
          × (min now (max cap delay) ≤ min next (max cap delay)))
capped delay cap now next a b = (omega arith, (omega arith, omega arith))

-- The wait in front of a background reconnect is never shorter than the configured delay, never
-- longer than a minute (or the configured delay, where that is longer), and never shorter than the one before.
pub background_reconnect_delay_bounded :
    (delay attempt : ℕ)
    → let now = background_reconnect_delay delay attempt in
      let cap = max background_reconnect_max_delay_ms delay in
      (delay ≤ now) × ((now ≤ cap) × (now ≤ background_reconnect_delay delay (suc attempt)))
unfolding background_reconnect_delay
background_reconnect_delay_bounded delay attempt =
    let e = min (attempt - 1) 16 in
    let f = min (suc attempt - 1) 16 in
    let two_pos : 0 < 2 = omega arith in
    let grows : e ≤ f = omega arith in
    capped delay background_reconnect_max_delay_ms (delay * 2 ^ e) (delay * 2 ^ f)
      (le-mul_of_pos_right delay (one-le-pow e 2 two_pos))
      (mul-le-mul_left delay (pow-le-pow_right two_pos grows))
