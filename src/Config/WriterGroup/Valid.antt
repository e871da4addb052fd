-- ===== src/Config/WriterGroup/Valid.antt =====
-- validateWriterGroup and the WriterGroup factory of lib/pubsub-config.js against IsWriterGroup.
use node_red_contrib_opcua_s.Prelude.{
  ℕ, ◌*◌, ◌^◌, ◌≤◌, ◌<◌, ◌%◌, Bool, true, false, not, ◌&&◌, ◌||◌, some, [], ◌≡◌, refl, subst, arith,
  inr, ◌↔◌,
}
use node_red_contrib_opcua_s.Config.{
  Js, is_positive_number, is_integer, is_between_zero_and, is_defined, literal, one, made,
}
use node_red_contrib_opcua_s.Config.Issues.{
  units, IsPositive, IsWholeUpTo, IfDefined, is_positive_number-IsPositive, is_whole-IsWholeUpTo,
  no_issues, no_issue_if, optional, or_default-IsUnits, or_default_same, make-made, make-nil,
}
use node_red_contrib_opcua_s.Config.WriterGroup.{
  WriterGroupConfig, writer_group_issues, validate_writer_group, with_defaults, writer_group,
}
use node_red_contrib_opcua_s.Config.WriterGroup.Spec.{
  IsAtLeast, IsId, IsWriterGroup, keep_alive_test, keep_alive_none, id_none, is_uint16-IsId,
}

priority_test :
    (v : Js)
    → ((is_defined v && (not (is_integer v) || not (is_between_zero_and 255 v))) ≡ false)
      ↔ IfDefined (IsWholeUpTo 255) v
priority_test v =
    let (to, from) = optional (IsWholeUpTo 255) v _ (is_whole-IsWholeUpTo 255 v) in
    (λ h. to (ground arith), λ h. let k = from h in ground arith)

-- An object has no issue in validateWriterGroup just when it meets IsWriterGroup.
pub validate_writer_group-IsWriterGroup :
    (cfg : WriterGroupConfig) → (validate_writer_group (some cfg) ≡ []) ↔ IsWriterGroup cfg
unfolding validate_writer_group writer_group_issues
validate_writer_group-IsWriterGroup cfg = (there, back)
  where
    negated : (b : Bool) → not b ≡ false → b ≡ true
    negated b h = ground arith

    there : writer_group_issues cfg ≡ [] → IsWriterGroup cfg
    there h =
        let (i, h1) = (no_issues _ _).0 h in
        let (k, h2) = (no_issues _ _).0 h1 in
        let (s, h3) = (no_issues _ _).0 h2 in
        let (p, id) = (no_issues _ _).0 h3 in
        let i_true : is_positive_number cfg.publishing_interval ≡ true =
          negated _ ((no_issue_if _ _ _).0 i) in
        let (m, e, pos_m) = (is_positive_number-IsPositive cfg.publishing_interval).0 i_true in
        record {
          interval = m;
          interval_set = e;
          interval_pos = pos_m;
          keep_alive =
              (optional (IsAtLeast m) cfg.keep_alive_time _
                  (keep_alive_test cfg.publishing_interval cfg.keep_alive_time m e pos_m)).0
                ((keep_alive_none cfg).0 k);
          size =
              (optional IsPositive cfg.max_network_message_size _
                  (is_positive_number-IsPositive cfg.max_network_message_size)).0
                ((no_issue_if _ _ _).0 s);
          byte_priority = (priority_test cfg.priority).0 ((no_issue_if _ _ _).0 p);
          id = (is_uint16-IsId cfg.writer_group_id).0 ((id_none cfg.writer_group_id).0 id);
        }

    back : IsWriterGroup cfg → writer_group_issues cfg ≡ []
    back g =
        let i =
          (is_positive_number-IsPositive cfg.publishing_interval).1
            (g.interval, g.interval_set, g.interval_pos) in
        (no_issues _ _).1 (
          (no_issue_if _ _ _).1 (ground arith),
          (no_issues _ _).1 (
            (keep_alive_none cfg).1 (
                (optional (IsAtLeast g.interval) cfg.keep_alive_time _ (
                    keep_alive_test cfg.publishing_interval cfg.keep_alive_time g.interval
                      g.interval_set g.interval_pos)).1
                  g.keep_alive),
            (no_issues _ _).1 (
              (no_issue_if _ _ _).1 (
                  (optional IsPositive cfg.max_network_message_size _
                      (is_positive_number-IsPositive cfg.max_network_message_size)).1
                    g.size),
              (no_issues _ _).1 (
                (no_issue_if _ _ _).1 ((priority_test cfg.priority).1 g.byte_priority),
                (id_none cfg.writer_group_id).1 ((is_uint16-IsId cfg.writer_group_id).1 g.id),
              ),
            ),
          ),
        )

-- What the factory returns: every member is set, and as IsWriterGroup asks.
pub record IsCompleteWriterGroup (cfg : WriterGroupConfig) : Type 0 where
  pub interval : ℕ
  pub interval_set : cfg.publishing_interval ≡ units interval
  pub interval_pos : 0 < interval
  pub keep_alive : IsAtLeast interval cfg.keep_alive_time
  pub size : IsPositive cfg.max_network_message_size
  pub byte_priority : IsWholeUpTo 255 cfg.priority
  pub id : IsId cfg.writer_group_id

default_size : IsPositive (literal 1400)
unfolding one
default_size = (1400 * 2 ^ 1074, refl, ground arith)

default_priority : IsWholeUpTo 255 (literal 128)
unfolding one
default_priority = (128 * 2 ^ 1074, refl, (refl, ground arith))

with_defaults-IsCompleteWriterGroup :
    (cfg : WriterGroupConfig) → IsWriterGroup cfg → IsCompleteWriterGroup (with_defaults cfg)
unfolding with_defaults
with_defaults-IsCompleteWriterGroup cfg g = record {
  interval = g.interval;
  interval_set = g.interval_set;
  interval_pos = g.interval_pos;
  keep_alive =
      or_default-IsUnits (λ n. g.interval ≤ n) _ _ g.keep_alive
        (g.interval, g.interval_set, omega arith);
  size = or_default-IsUnits (λ n. 0 < n) _ _ g.size default_size;
  byte_priority =
      or_default-IsUnits (λ n. (n % one ≡ 0) × (n ≤ 255 * one)) _ _ g.byte_priority
        default_priority;
  id = g.id;
}

complete-IsWriterGroup : (cfg : WriterGroupConfig) → IsCompleteWriterGroup cfg → IsWriterGroup cfg
complete-IsWriterGroup cfg c = record {
  interval = c.interval;
  interval_set = c.interval_set;
  interval_pos = c.interval_pos;
  keep_alive = inr c.keep_alive;
  size = inr c.size;
  byte_priority = inr c.byte_priority;
  id = c.id;
}

with_defaults_again :
    (cfg : WriterGroupConfig) → IsCompleteWriterGroup cfg → with_defaults cfg ≡ cfg
unfolding with_defaults
with_defaults_again cfg c = cc (
  or_default_same (λ n. c.interval ≤ n) cfg.keep_alive_time cfg.publishing_interval c.keep_alive,
  or_default_same (λ n. 0 < n) cfg.max_network_message_size (literal 1400) c.size,
  or_default_same (λ n. (n % one ≡ 0) × (n ≤ 255 * one)) cfg.priority (literal 128) c.byte_priority,
)

-- What the WriterGroup factory returns has every member set as IsWriterGroup asks, and the factory
-- returns it unchanged when it gets it again.
pub writer_group-IsCompleteWriterGroup :
    (cfg out : WriterGroupConfig)
    → writer_group cfg ≡ made out
    → IsCompleteWriterGroup out × (writer_group out ≡ made out)
unfolding writer_group
writer_group-IsCompleteWriterGroup cfg out h =
    let (valid, e) = make-made _ _ out h in
    let c = subst IsCompleteWriterGroup e (
      with_defaults-IsCompleteWriterGroup cfg
        ((validate_writer_group-IsWriterGroup cfg).0 valid)) in
    (
      c,
      rw
          (
            (validate_writer_group-IsWriterGroup out).1 (complete-IsWriterGroup out c),
            with_defaults_again out c,
          )
          (make-nil out),
    )
