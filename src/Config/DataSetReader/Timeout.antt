-- ===== src/Config/DataSetReader/Timeout.antt =====
-- The filter and the receive timeout of the DataSetReader factory in lib/pubsub-config.js.
use node_red_contrib_opcua_s.Prelude.{
  ℕ, ◌*◌, ◌≤◌, ◌<◌, max, Bool, true, false, not, ◌≡◌, refl, sym, ap, subst, ◌∙◌, arith,
}
use node_red_contrib_opcua_s.Config.{one, made}
use node_red_contrib_opcua_s.Config.Issues.{
  IsUnits, IsPositive, no_issues, no_issue_if, optional, is_positive_number-IsPositive,
  or_default-IsUnits, make-made, one_pos,
}
use node_red_contrib_opcua_s.Config.DataSetReader.{
  DataSetReaderConfig, has_filter, validate_data_set_reader, positive_units, default_timeout,
  reader_with_defaults, data_set_reader,
}

default_timeout-IsUnits :
    (cfg : DataSetReaderConfig)
    → IsUnits
        (λ n. (5000 * one ≤ n) × (3 * positive_units cfg.keep_alive_time ≤ n))
        (default_timeout cfg)
unfolding default_timeout
default_timeout-IsUnits cfg =
    (max (3 * positive_units cfg.keep_alive_time) (5000 * one), refl, (omega arith, omega arith))

default_timeout-IsPositive : (cfg : DataSetReaderConfig) → IsPositive (default_timeout cfg)
default_timeout-IsPositive cfg =
    let (n, e, (floor, factor)) = default_timeout-IsUnits cfg in (n, e, above n floor)
  where
    above : (n : ℕ) → 5000 * one ≤ n → 0 < n
    above n h = let p = one_pos in omega (arith, p, h)

-- A reader that the factory returns names a publisher, a writer group or a writer, and has a receive
-- timeout above 0.
pub data_set_reader-IsPositive :
    (cfg out : DataSetReaderConfig)
    → data_set_reader cfg ≡ made out
    → (has_filter out ≡ true) × IsPositive out.message_receive_timeout
unfolding data_set_reader validate_data_set_reader has_filter reader_with_defaults
data_set_reader-IsPositive cfg out h =
    let (valid, e) = make-made _ _ out h in
    let (f, rest) = (no_issues _ _).0 valid in
    let (ka, rest2) = (no_issues _ _).0 rest in
    let (t, m) = (no_issues _ _).0 rest2 in
    let timeout =
      or_default-IsUnits (λ n. 0 < n) cfg.message_receive_timeout (default_timeout cfg)
        ((optional IsPositive cfg.message_receive_timeout _
            (is_positive_number-IsPositive cfg.message_receive_timeout)).0
          ((no_issue_if _ _ _).0 t))
        (default_timeout-IsPositive cfg) in
    (
      ap has_filter (sym e) ∙ negated _ ((no_issue_if _ _ _).0 f),
      subst IsPositive (ap (λ r. r.message_receive_timeout) e) timeout,
    )
  where
    negated : (b : Bool) → not b ≡ false → b ≡ true
    negated b h = ground arith
