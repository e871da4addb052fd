-- ===== src/Config/WriterGroup/Spec.antt =====
-- What a valid WriterGroup configuration is, said without the validator of lib/pubsub-config.js.
use node_red_contrib_opcua_s.Prelude.{
  ℕ, ◌*◌, ◌≤◌, ◌<◌, ltb, ◌==◌, ◌%◌, Bool, true, false, not, ◌&&◌, if◌then◌else◌, [], ◌≡◌, refl,
  arith, ◌↔◌,
}
use node_red_contrib_opcua_s.Config.{
  Js, undefined, is_positive_number, is_integer, is_between_zero_and, is_uint16, is_zero,
  is_defined, is_less, one, Issue, issue, issue_if, make, made, must_be_positive_number,
  must_be_gte_publishing_interval, must_be_byte_range, must_be_uint16, must_be_nonzero_uint16,
}
use node_red_contrib_opcua_s.Config
use node_red_contrib_opcua_s.Config.Issues.{
  units, IsPositive, IsWholeUpTo, IfDefined, is_positive_number-IsPositive, is_whole-IsWholeUpTo,
  IsUnits,
}
use node_red_contrib_opcua_s.Config.WriterGroup.{
  WriterGroupConfig, keep_alive_issues, writer_group_id_issues,
}

-- A number that is not below `m` units.
abbrev pub IsAtLeast : ℕ → Js → Type 0
IsAtLeast m = IsUnits (λ n. m ≤ n)

-- 1..65535
abbrev pub IsId : Js → Type 0
IsId = IsUnits (λ n. (n % one ≡ 0) × (0 < n) × (n ≤ 0xffff * one))

-- The interval is above 0, the keep-alive time not below it, the size above 0, the priority a byte
-- and the id a UInt16 that is not 0; the three in the middle may be left out.
pub record IsWriterGroup (cfg : WriterGroupConfig) : Type 0 where
  pub interval : ℕ
  pub interval_set : cfg.publishing_interval ≡ units interval
  pub interval_pos : 0 < interval
  pub keep_alive : IfDefined (IsAtLeast interval) cfg.keep_alive_time
  pub size : IfDefined IsPositive cfg.max_network_message_size
  pub byte_priority : IfDefined (IsWholeUpTo 255) cfg.priority
  pub id : IsId cfg.writer_group_id

is_less-units : (m n : ℕ) → is_less (units m) (units n) ≡ ltb m n
unfolding is_less
is_less-units m n = refl

is_zero-units : (n : ℕ) → is_zero (units n) ≡ (n == 0)
unfolding is_zero
is_zero-units n = refl

pub keep_alive_test :
    (interval v : Js) (m : ℕ)
    → interval ≡ units m
    → 0 < m
    → ((is_positive_number v && not (is_positive_number interval && is_less v interval)) ≡ true)
      ↔ IsAtLeast m v
keep_alive_test interval v m e pos_m = (there, back)
  where
    interval_pos : is_positive_number interval ≡ true
    interval_pos = (is_positive_number-IsPositive interval).1 (m, e, pos_m)

    less : (n : ℕ) → v ≡ units n → is_less v interval ≡ ltb n m
    less n q = rw (q, e) (is_less-units n m)

    there :
        (is_positive_number v && not (is_positive_number interval && is_less v interval)) ≡ true
        → IsAtLeast m v
    there h =
        let (n, q, pos_n) = (is_positive_number-IsPositive v).0 (ground arith) in
        (n, q, ground (arith, less n q, interval_pos))

    back :
        IsAtLeast m v
        → (is_positive_number v && not (is_positive_number interval && is_less v interval)) ≡ true
    back (n, q, le) =
        let p = (is_positive_number-IsPositive v).1 (n, q, omega arith) in
        ground (arith, less n q, p)

pub keep_alive_none :
    (cfg : WriterGroupConfig)
    → (keep_alive_issues cfg ≡ []) ↔ (
        (is_defined cfg.keep_alive_time
          && not (
              is_positive_number cfg.keep_alive_time
              && not (
                  is_positive_number cfg.publishing_interval
                  && is_less cfg.keep_alive_time cfg.publishing_interval)))
        ≡ false)
unfolding keep_alive_issues issue_if
keep_alive_none cfg = go (is_defined cfg.keep_alive_time) (is_positive_number cfg.keep_alive_time) (
    is_positive_number cfg.publishing_interval
    && is_less cfg.keep_alive_time cfg.publishing_interval)
  where
    go :
        (d p l : Bool)
        → ((if d
              then (if not p
                  then issue Config.keep_alive_time must_be_positive_number
                  else issue_if l Config.keep_alive_time must_be_gte_publishing_interval)
              else [])
            ≡ [])
          ↔ ((d && not (p && not l)) ≡ false)
    go false p l = (λ h. refl, λ h. refl)
    go true false l = (λ h. absurd (cc h), λ h. absurd (cc h))
    go true true true = (λ h. absurd (cc h), λ h. absurd (cc h))
    go true true false = (λ h. refl, λ h. refl)

pub id_none : (v : Js) → (writer_group_id_issues v ≡ []) ↔ ((is_uint16 v && not (is_zero v)) ≡ true)
unfolding writer_group_id_issues issue_if
id_none v = go (is_uint16 v) (is_zero v)
  where
    go :
        (u z : Bool)
        → ((if not u
              then issue Config.writer_group_id must_be_uint16
              else issue_if z Config.writer_group_id must_be_nonzero_uint16)
            ≡ [])
          ↔ ((u && not z) ≡ true)
    go false z = (λ h. absurd (cc h), λ h. absurd (cc h))
    go true true = (λ h. absurd (cc h), λ h. absurd (cc h))
    go true false = (λ h. refl, λ h. refl)

pub is_uint16-IsId : (v : Js) → ((is_uint16 v && not (is_zero v)) ≡ true) ↔ IsId v
unfolding is_uint16
is_uint16-IsId v = (there, back)
  where
    zero_test : (n : ℕ) → v ≡ units n → is_zero v ≡ (n == 0)
    zero_test n q = rw q (is_zero-units n)

    there : ((is_integer v && is_between_zero_and 0xffff v) && not (is_zero v)) ≡ true → IsId v
    there h =
        let (n, q, (whole, le)) = (is_whole-IsWholeUpTo 0xffff v).0 (ground arith) in
        (n, q, (whole, ground (arith, zero_test n q), le))

    back : IsId v → ((is_integer v && is_between_zero_and 0xffff v) && not (is_zero v)) ≡ true
    back (n, q, (whole, pos_n, le)) =
        let u = (is_whole-IsWholeUpTo 0xffff v).1 (n, q, (whole, le)) in
        ground (arith, zero_test n q, u)
