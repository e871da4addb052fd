-- ===== src/Config/PublishedDataSet.antt =====
-- validatePublishedDataSet and PublishedDataSet of lib/pubsub-config.js.
use node_red_contrib_opcua_s.Prelude.{
  ℕ, suc, Bool, true, false, not, ◌||◌, Option, none, some, List, [], ◌∷◌, ◌++◌,
}
use node_red_contrib_opcua_s.Config.{
  Js, text, is_integer, literal, Issue, issue, issue_if, Made, make, must_be_object,
  must_be_non_empty_string, must_be_non_empty_array, must_be_string, must_be_version_pair, whole,
}
use node_red_contrib_opcua_s.Config

-- The members that the code looks at.
pub record FieldConfig : Type 0 where
  pub name : Js
  pub data_type : Js
  pub max_string_length : Js

-- An element of `fields`: null or undefined, another value that is no object, or an object.
pub data FieldValue : Type 0 where
  nullish primitive : FieldValue
  object : FieldConfig → FieldValue

pub record VersionPair : Type 0 where
  pub major : Js
  pub minor : Js

-- `fields` is `none` where it is no array. A version is absent, no object, or a pair.
pub data VersionConfig : Type 0 where
  absent not_object : VersionConfig
  pair : VersionPair → VersionConfig

pub record PublishedDataSetConfig : Type 0 where
  pub name : Js
  pub fields : Option (List FieldValue)
  pub configuration_version : VersionConfig

-- `typeof v === "string" && v.length > 0`, and `typeof v === "string"`
unfoldable pub is_name : Js → Bool
is_name (text (c ∷ cs)) = true
is_name _ = false

unfoldable pub is_string : Js → Bool
is_string (text s) = true
is_string _ = false

unfoldable pub field_issues : ℕ → FieldValue → List Issue
field_issues i nullish = issue (Config.field i) must_be_object
field_issues i primitive = issue (Config.field i) must_be_object
field_issues i (object f) =
    issue_if (not (is_name f.name)) (Config.field_name i) must_be_non_empty_string
    ++ issue_if (not (is_string f.data_type)) (Config.field_data_type i) must_be_string

-- The `forEach`, from index `i` on.
unfoldable pub all_field_issues : ℕ → List FieldValue → List Issue
all_field_issues i [] = []
all_field_issues i (f ∷ fs) = field_issues i f ++ all_field_issues (suc i) fs

unfoldable pub fields_issues : Option (List FieldValue) → List Issue
fields_issues none = issue Config.fields must_be_non_empty_array
fields_issues (some []) = issue Config.fields must_be_non_empty_array
fields_issues (some (f ∷ fs)) = all_field_issues 0 (f ∷ fs)

unfoldable pub version_issues : VersionConfig → List Issue
version_issues absent = []
version_issues not_object = issue Config.configuration_version must_be_version_pair
version_issues (pair v) =
    issue_if (not (is_integer v.major) || not (is_integer v.minor)) Config.configuration_version
      must_be_version_pair

unfoldable pub validate_published_data_set : Option PublishedDataSetConfig → List Issue
validate_published_data_set none = issue whole must_be_object
validate_published_data_set (some cfg) =
    issue_if (not (is_name cfg.name)) Config.name must_be_non_empty_string
    ++ (fields_issues cfg.fields ++ version_issues cfg.configuration_version)

-- DEFAULT_PUBLISHED_DS_VERSION
unfoldable pub version_or_default : VersionConfig → VersionConfig
version_or_default absent = pair (record { major = literal 1; minor = literal 0 })
version_or_default v = v

unfoldable pub published_data_set : PublishedDataSetConfig → Made PublishedDataSetConfig
published_data_set cfg =
    make (validate_published_data_set (some cfg))
      (record cfg { configuration_version = version_or_default cfg.configuration_version })
