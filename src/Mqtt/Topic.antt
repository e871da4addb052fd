-- ===== src/Mqtt/Topic.antt =====
-- The levels of a topic of lib/transports/mqtt-transport.js are the components that it was built of.
use node_red_contrib_opcua_s.Prelude.{
  length, ◌<◌, ◌≢◌, ℕ, ◌==◌, true, false, ◌&&◌, if◌then◌else◌, if-split, Option, none, some, List,
  [], ◌∷◌, ◌++◌, All, ◌≡◌, refl, sym, ap, ◌∙◌, subst, arith,
}
use node_red_contrib_opcua_s.Uadp.Text.{Text}
use node_red_contrib_opcua_s.Mqtt.{
  Config, SendOptions, is_forbidden, has_forbidden, is_valid_component, prefix_of, text_of, topic,
  build_topic,
}

-- A text put in front of the first of some levels.
abbrev pub extend : ℕ → List Text → List Text
extend c [] = (c ∷ []) ∷ []
extend c (l ∷ ls) = (c ∷ l) ∷ ls

-- The levels of a topic, as a broker separates them.
abbrev pub levels : Text → List Text
levels [] = [] ∷ []
levels (c ∷ cs) = if c == 47 then [] ∷ levels cs else extend c (levels cs)

-- A character that is no wildcard (`+` and `#`), no separator, no control character up to 31 and no
-- DEL. (The code forbids no control character behind DEL.)
pub record IsPlain (c : ℕ) : Type 0 where
  pub no_plus : c ≢ 43
  pub no_hash : c ≢ 35
  pub no_slash : c ≢ 47
  pub printable : 31 < c
  pub no_del : c ≢ 127

-- A level that is not empty, of plain characters.
abbrev pub IsLevel : Text → Type 0
IsLevel s = (0 < length s) × All IsPlain s

levels-append : (s t : Text) → has_forbidden s ≡ false → levels (s ++ (47 ∷ t)) ≡ s ∷ levels t
unfolding has_forbidden is_forbidden
levels-append [] t h = refl
levels-append (c ∷ cs) t h =
    let other : (c == 47) ≡ false = ground arith in
    rw (other, levels-append cs t (ground arith)) refl

levels_alone : (s : Text) → has_forbidden s ≡ false → levels s ≡ s ∷ []
unfolding has_forbidden is_forbidden
levels_alone [] h = refl
levels_alone (c ∷ cs) h =
    let other : (c == 47) ≡ false = ground arith in rw (other, levels_alone cs (ground arith)) refl

plain : (o : Option Text) → is_valid_component o ≡ true → has_forbidden (text_of o) ≡ false
unfolding is_valid_component
plain none h = absurd (cc h)
plain (some []) h = absurd (cc h)
plain (some (c ∷ cs)) h = ground arith

all-IsPlain : (s : Text) → has_forbidden s ≡ false → All IsPlain s
unfolding has_forbidden is_forbidden
all-IsPlain [] h = tt
all-IsPlain (c ∷ cs) h = (ground arith, all-IsPlain cs (ground arith))

level : (o : Option Text) → is_valid_component o ≡ true → IsLevel (text_of o)
unfolding is_valid_component
level none h = absurd (cc h)
level (some []) h = absurd (cc h)
level (some (c ∷ cs)) h = (omega arith, all-IsPlain (c ∷ cs) (ground arith))

levels-topic :
    (a b c d : Text)
    → has_forbidden a ≡ false
    → has_forbidden b ≡ false
    → has_forbidden c ≡ false
    → has_forbidden d ≡ false
    → levels (topic a b c d) ≡ a ∷ b ∷ c ∷ d ∷ []
unfolding topic
levels-topic a b c d ha hb hc hd =
    levels-append a _ ha
    ∙ ap (◌∷◌ a)
        (levels-append b _ hb ∙ ap (◌∷◌ b) (levels-append c d hc ∙ ap (◌∷◌ c) (levels_alone d hd)))

-- What a topic that is built looks like.
abbrev pub IsTopic : Config → SendOptions → Option Text → Type 0
IsTopic cfg opts none = Unit {0}
IsTopic cfg opts (some t) =
    (levels t
      ≡ text_of (prefix_of cfg.topic_prefix)
        ∷ text_of cfg.publisher_id
        ∷ text_of opts.writer_group_id
        ∷ text_of opts.data_set_writer_id
        ∷ [])
    × All IsLevel (levels t)

-- A topic that _buildTopic returns has the prefix, the publisher, the group and the writer as its four
-- levels, none of them empty, and none with a separator, a wildcard or a control character.
pub build_topic-IsTopic :
    (cfg : Config) (opts : SendOptions) (t : Text)
    → build_topic cfg opts ≡ some t
    → (levels t
        ≡ text_of (prefix_of cfg.topic_prefix)
          ∷ text_of cfg.publisher_id
          ∷ text_of opts.writer_group_id
          ∷ text_of opts.data_set_writer_id
          ∷ [])
      × All IsLevel (levels t)
unfolding build_topic
build_topic-IsTopic cfg opts t h = subst (IsTopic cfg opts) h (
    if-split (IsTopic cfg opts)
      (is_valid_component (prefix_of cfg.topic_prefix)
        && (is_valid_component cfg.publisher_id
            && (is_valid_component opts.writer_group_id
                && is_valid_component opts.data_set_writer_id)))
      (λ valid.
        let p : is_valid_component (prefix_of cfg.topic_prefix) ≡ true = ground arith in
        let i : is_valid_component cfg.publisher_id ≡ true = ground arith in
        let g : is_valid_component opts.writer_group_id ≡ true = ground arith in
        let w : is_valid_component opts.data_set_writer_id ≡ true = ground arith in
        let e = levels-topic _ _ _ _ (plain _ p) (plain _ i) (plain _ g) (plain _ w) in
        (e, subst (All IsLevel) (sym e) (level _ p, (level _ i, (level _ g, (level _ w, tt))))))
      (λ refused. tt))
