-- ===== src/Uadp/DataSet/Object.antt =====
-- The object that decodeDataSetMessage of lib/uadp-encoder.js fills by `dsm.fields[name] = …`, as
-- the list of its own entries.
use node_red_contrib_opcua_s.Prelude.{
  ℕ, ◌↔◌, arith, List, [], ◌∷◌, ◌++◌, ◌==◌, Bool, true, false, ◌&&◌, if◌then◌else◌, ◌≡◌, refl, ap,
  ◌∙◌, append_assoc, append-nil,
}
use node_red_contrib_opcua_s.Uadp.Text.{Text}

unfoldable pub same_text : Text → Text → Bool
same_text [] [] = true
same_text (c ∷ cs) (d ∷ ds) = (c == d) && same_text cs ds
same_text _ _ = false

pub same_text_refl : (t : Text) → same_text t t ≡ true
unfolding same_text
same_text_refl [] = refl
same_text_refl (c ∷ cs) = ground (arith, same_text_refl cs)

cons_iff :
    (c d : ℕ) (cs ds : Text)
    → (same_text cs ds ≡ true) ↔ (cs ≡ ds)
    → (((c == d) && same_text cs ds) ≡ true) ↔ ((c ∷ cs) ≡ (d ∷ ds))
cons_iff c d cs ds (to, from) = (there, back)
  where
    there : ((c == d) && same_text cs ds) ≡ true → (c ∷ cs) ≡ (d ∷ ds)
    there h = let e : c ≡ d = ground arith in let es = to (ground arith) in cc (e, es)

    back : (c ∷ cs) ≡ (d ∷ ds) → ((c == d) && same_text cs ds) ≡ true
    back h = let e : c ≡ d = cc h in let es = from (cc h) in ground (arith, e, es)

pub same_text_iff : (s t : Text) → (same_text s t ≡ true) ↔ (s ≡ t)
unfolding same_text
same_text_iff [] [] = (λ h. refl, λ h. refl)
same_text_iff [] (d ∷ ds) = (λ h. absurd (cc h), λ h. absurd (cc h))
same_text_iff (c ∷ cs) [] = (λ h. absurd (cc h), λ h. absurd (cc h))
same_text_iff (c ∷ cs) (d ∷ ds) = cons_iff c d cs ds (same_text_iff cs ds)

-- The name of the prototype.
abbrev pub proto : Text
proto = 95 ∷ 95 ∷ b'p' ∷ b'r' ∷ b'o' ∷ b't' ∷ b'o' ∷ 95 ∷ 95 ∷ []

module _ {A : Type 0} where
  -- A name that is there already keeps its place.
  unfoldable pub put_entry : Text → A → List (Text × A) → List (Text × A)
  put_entry name v [] = (name, v) ∷ []
  put_entry name v ((k, w) ∷ l) =
      if same_text name k then (k, v) ∷ l else (k, w) ∷ put_entry name v l

  -- An assignment to the prototype's name sets that, or nothing, and makes no entry.
  unfoldable pub set_field : Text → A → List (Text × A) → List (Text × A)
  set_field name v l = if same_text name proto then l else put_entry name v l

  unfoldable pub set_fields : List (Text × A) → List (Text × A) → List (Text × A)
  set_fields l [] = l
  set_fields l ((name, v) ∷ entries) = set_fields (set_field name v l) entries

  unfoldable pub from_entries : List (Text × A) → List (Text × A)
  from_entries entries = set_fields [] entries

  abbrev pub IsFresh : Text → List (Text × A) → Type 0
  IsFresh name [] = Unit {0}
  IsFresh name ((k, w) ∷ l) = (same_text name k ≡ false) × IsFresh name l

  -- No name of the second list stands before it, in the first list or in the second, and none is the
  -- prototype's.
  abbrev pub Distinct : List (Text × A) → List (Text × A) → Type 0
  Distinct l [] = Unit {0}
  Distinct l ((name, v) ∷ entries) =
      (same_text name proto ≡ false) × IsFresh name l × Distinct (l ++ ((name, v) ∷ [])) entries

  put_entry-fresh :
      (name : Text) (v : A) (l : List (Text × A))
      → IsFresh name l
      → put_entry name v l ≡ l ++ ((name, v) ∷ [])
  unfolding put_entry
  put_entry-fresh name v [] h = refl
  put_entry-fresh name v ((k, w) ∷ l) (hk, hl) =
      rw hk (ap (◌∷◌ (k, w)) (put_entry-fresh name v l hl))

  set_field-fresh :
      (name : Text) (v : A) (l : List (Text × A))
      → same_text name proto ≡ false
      → IsFresh name l
      → set_field name v l ≡ l ++ ((name, v) ∷ [])
  unfolding set_field
  set_field-fresh name v l own h = rw own (put_entry-fresh name v l h)

  set_fields-Distinct :
      (l entries : List (Text × A)) → Distinct l entries → set_fields l entries ≡ l ++ entries
  unfolding set_fields
  set_fields-Distinct l [] h = rw append-nil
  set_fields-Distinct l ((name, v) ∷ entries) (own, fresh, h) =
      ap (λ m. set_fields m entries) (set_field-fresh name v l own fresh)
      ∙ set_fields-Distinct (l ++ ((name, v) ∷ [])) entries h
      ∙ append_assoc l ((name, v) ∷ []) entries

  -- With distinct names, none of them the prototype's, the object has the entries in their order.
  pub from_entries-Distinct :
      (entries : List (Text × A)) → Distinct [] entries → from_entries entries ≡ entries
  unfolding from_entries
  from_entries-Distinct entries h = set_fields-Distinct [] entries h
