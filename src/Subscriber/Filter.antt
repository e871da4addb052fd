-- ===== src/Subscriber/Filter.antt =====
-- Which DataSetMessages the filter of nodes/opcua-subscriber.js lets through.
use node_red_contrib_opcua_s.Prelude.{
  ℕ, true, Option, none, some, List, [], ◌∷◌, ◌≡◌, refl, ◌↔◌, arith,
}
use node_red_contrib_opcua_s.Uadp.Text.{Text}
use node_red_contrib_opcua_s.Uadp.DateTime.{Date}
use node_red_contrib_opcua_s.Uadp.DataSet.{ConfigurationVersion, DataSetMessage}
use node_red_contrib_opcua_s.Uadp.DataSet.Object.{same_text_iff}
use node_red_contrib_opcua_s.Uadp.Network.{NetworkMessage, PublisherId}
use node_red_contrib_opcua_s.Reassembler.Key.{show_id}
use node_red_contrib_opcua_s.Subscriber.{
  ExpectedVersion, Config, Event, sent, group_id, same_number, passes, passes_publisher, is_wanted,
  is_version, wrong_version, output_of, handle_one,
}

-- A number that is there, twice.
abbrev pub IsNumber : Option ℕ → Option ℕ → Type 0
IsNumber (some a) (some b) = a ≡ b
IsNumber _ _ = ⊥

-- A member of the filter that is set has that number.
abbrev pub IfSet : Option (Option ℕ) → Option ℕ → Type 0
IfSet none got = Unit {0}
IfSet (some want) got = IsNumber want got

abbrev pub IfPublisher : Option Text → Option PublisherId → Type 0
IfPublisher none id = Unit {0}
IfPublisher (some want) id = want ≡ show_id id

abbrev pub IfVersion : Option ExpectedVersion → Option ConfigurationVersion → Type 0
IfVersion (some want) (some got) = IsNumber want.major got.major × IsNumber want.minor got.minor
IfVersion _ _ = Unit {0}

-- The ids that the reader asks for, and the version that is expected, as far as they are set.
pub record IsAccepted (cfg : Config) (nm : NetworkMessage) (id : Option ℕ) (dsm : DataSetMessage)
    : Type 0 where
  pub publisher : IfPublisher cfg.reader.publisher_id nm.publisher_id
  pub group : IfSet cfg.reader.writer_group_id (group_id nm.group_header)
  pub writer : IfSet cfg.reader.data_set_writer_id id
  pub version : IfVersion cfg.expected_version dsm.configuration_version

same_number_iff : (a b : Option ℕ) → (same_number a b ≡ true) ↔ IsNumber a b
unfolding same_number
same_number_iff (some a) (some b) = (λ h. ground arith, λ h. ground arith)
same_number_iff (some a) none = (λ h. absurd (cc h), λ h. absurd h)
same_number_iff none b = (λ h. absurd (cc h), λ h. absurd h)

passes_iff : (want : Option (Option ℕ)) (got : Option ℕ) → (passes want got ≡ true) ↔ IfSet want got
unfolding passes
passes_iff none got = (λ h. tt, λ h. refl)
passes_iff (some want) got = same_number_iff want got

passes_publisher_iff :
    (want : Option Text) (id : Option PublisherId)
    → (passes_publisher want id ≡ true) ↔ IfPublisher want id
unfolding passes_publisher
passes_publisher_iff none id = (λ h. tt, λ h. refl)
passes_publisher_iff (some want) id = same_text_iff want (show_id id)

wrong_version_iff :
    (want : Option ExpectedVersion) (got : Option ConfigurationVersion)
    → (wrong_version want got ≡ none) ↔ IfVersion want got
unfolding wrong_version is_version
wrong_version_iff none got = (λ h. tt, λ h. refl)
wrong_version_iff (some want) none = (λ h. tt, λ h. refl)
wrong_version_iff (some want) (some got) =
    let (m, n) = same_number_iff want.major got.major in
    let (k, l) = same_number_iff want.minor got.minor in
    (λ h. (m (ground arith), k (ground arith)), λ (a, b). rw (n a, l b) refl)

-- A DataSetMessage is sent, with what is made of it, just where the filter and the version accept it.
pub handle_one-IsAccepted :
    (cfg : Config) (now : Date) (topic : Option Text) (nm : NetworkMessage) (id : Option ℕ)
    (dsm : DataSetMessage)
    → (handle_one cfg now topic nm id dsm ≡ sent (output_of cfg now topic nm id dsm) ∷ [])
      ↔ IsAccepted cfg nm id dsm
unfolding handle_one is_wanted
handle_one-IsAccepted cfg now topic nm id dsm = (there, back)
  where
    out : List Event
    out = sent (output_of cfg now topic nm id dsm) ∷ []

    there : handle_one cfg now topic nm id dsm ≡ out → IsAccepted cfg nm id dsm
    there h = record {
      publisher =
          (passes_publisher_iff cfg.reader.publisher_id nm.publisher_id).0 (ground (arith, h));
      group =
          (passes_iff cfg.reader.writer_group_id (group_id nm.group_header)).0 (ground (arith, h));
      writer = (passes_iff cfg.reader.data_set_writer_id id).0 (ground (arith, h));
      version =
          (wrong_version_iff cfg.expected_version dsm.configuration_version).0 (ground (arith, h));
    }

    back : IsAccepted cfg nm id dsm → handle_one cfg now topic nm id dsm ≡ out
    back a =
        let p = (passes_publisher_iff cfg.reader.publisher_id nm.publisher_id).1 a.publisher in
        let g = (passes_iff cfg.reader.writer_group_id (group_id nm.group_header)).1 a.group in
        let w = (passes_iff cfg.reader.data_set_writer_id id).1 a.writer in
        let v = (wrong_version_iff cfg.expected_version dsm.configuration_version).1 a.version in
        ground (arith, p, g, w, v)
