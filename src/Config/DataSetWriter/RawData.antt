-- ===== src/Config/DataSetWriter/RawData.antt =====
-- The RawData cross-validation of validateDataSetWriter in lib/pubsub-config.js.
use node_red_contrib_opcua_s.Prelude.{
  ℕ, suc, Bool, true, false, not, ◌&&◌, ◌||◌, Option, none, some, List, [], ◌∷◌, ◌≡◌, refl, sym, ap,
  ◌∙◌, arith, All, inl, inr, Option-cases,
}
use node_red_contrib_opcua_s.Config.{
  Js, is_nonnegative_int, is_defined, Issue, issue, raw_data_requires_published_ds,
}
use node_red_contrib_opcua_s.Config
use node_red_contrib_opcua_s.Config.Issues.{no_issues, no_issue_if}
use node_red_contrib_opcua_s.Config.PublishedDataSet.{
  FieldConfig, FieldValue, nullish, primitive, object, PublishedDataSetConfig,
}
use node_red_contrib_opcua_s.Config.DataSetWriter.{
  DataSetWriterConfig, Checked, type_error, checked, has_raw_data_bit, is_abstract_type,
  is_string_type, raw_field_issues, prepend, all_raw_field_issues, raw_data_issues, own_issues,
  validate_data_set_writer,
}

-- A field that RawData can encode: a concrete type, and a length for a string.
abbrev pub IsRawField : FieldValue → Type 0
IsRawField nullish = ⊥
IsRawField primitive = Unit {0}
IsRawField (object f) =
    (is_abstract_type f.data_type ≡ false)
    × ((is_string_type f.data_type && not (is_nonnegative_int f.max_string_length)) ≡ false)

-- There is a data set, its fields are an array, and each of them is such a field.
abbrev pub IsRawDataSet : Option PublishedDataSetConfig → Type 0
IsRawDataSet none = ⊥
IsRawDataSet (some pds) = (fs : List FieldValue) × (pds.fields ≡ some fs) × All IsRawField fs

prepend-inverse :
    (xs : List Issue) (r : Checked (List Issue))
    → prepend xs r ≡ checked []
    → (xs ≡ []) × (r ≡ checked [])
prepend-inverse xs type_error h = absurd (cc h)
prepend-inverse xs (checked ys) h = let (a, b) = (no_issues xs ys).0 (cc h) in (a, ap checked b)

raw_field : (i : ℕ) (f : FieldConfig) → raw_field_issues i f ≡ [] → IsRawField (object f)
unfolding raw_field_issues
raw_field i f h =
    let (a, b) = (no_issues _ _).0 h in
    let string = (no_issue_if _ _ _).0 b in ((no_issue_if _ _ _).0 a, drop_defined _ _ _ string)
  where
    drop_defined : (s d n : Bool) → (s && (not d || not n)) ≡ false → (s && not n) ≡ false
    drop_defined s d n h = ground arith

raw_fields :
    (i : ℕ) (fs : List FieldValue) → all_raw_field_issues i fs ≡ checked [] → All IsRawField fs
unfolding all_raw_field_issues
raw_fields i [] h = tt
raw_fields i (nullish ∷ fs) h = absurd (cc h)
raw_fields i (primitive ∷ fs) h = (tt, raw_fields (suc i) fs h)
raw_fields i (object f ∷ fs) h =
    let (a, b) = prepend-inverse _ _ h in (raw_field i f a, raw_fields (suc i) fs b)

raw_data_set : (o : Option PublishedDataSetConfig) → raw_data_issues o ≡ checked [] → IsRawDataSet o
unfolding raw_data_issues
raw_data_set none h = absurd (cc h)
raw_data_set (some pds) h = elim (Option-cases pds.fields) [
  | inl e ↦ absurd (cc (sym (no_array e) ∙ h))
  | inr (fs, e) ↦ (fs, e, raw_fields 0 fs (sym (array fs e) ∙ h))
]
  where
    no_array :
        pds.fields ≡ none
        → raw_data_issues (some pds)
          ≡ checked (issue Config.published_data_set raw_data_requires_published_ds)
    no_array e = rw (e, raw_data_issues) refl

    array :
        (fs : List FieldValue)
        → pds.fields ≡ some fs
        → raw_data_issues (some pds) ≡ all_raw_field_issues 0 fs
    array fs e = rw (e, raw_data_issues) refl

-- When the RawData bit of the content mask is set and validateDataSetWriter finds no issue, there is
-- a published data set with an array of fields, none of them null, none of an abstract type, and each
-- String field has a non-negative integer as its maxStringLength.
pub validate_data_set_writer-IsRawDataSet :
    (cfg : DataSetWriterConfig)
    → has_raw_data_bit cfg.data_set_field_content_mask ≡ true
    → validate_data_set_writer (some cfg) ≡ checked []
    → IsRawDataSet cfg.published_data_set
unfolding validate_data_set_writer
validate_data_set_writer-IsRawDataSet cfg bit h =
    let go : validate_data_set_writer (some cfg)
        ≡ prepend (own_issues cfg) (raw_data_issues cfg.published_data_set) =
      rw (bit, validate_data_set_writer) refl in
    raw_data_set cfg.published_data_set (prepend-inverse _ _ (sym go ∙ h)).1
