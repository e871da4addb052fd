-- ===== src/Uadp/Result.antt =====
-- What the functions of lib/uadp-encoder.js throw, and their results.
use node_red_contrib_opcua_s.Prelude.{ℕ, List, [], ◌++◌, ◌≡◌, refl, ◌⊎◌, inl, inr, ap, append_assoc}

-- One constructor for each error code, with the numbers that the message quotes.
-- `out_of_range` is the RangeError of a Buffer write.
pub data Error : Type 0 where
  truncated : (offset need have : ℕ) → Error
  out_of_range : Error
  invalid_guid : Error
  unsupported_builtin_type : ℕ → Error
  unknown_type : Error
  invalid_publisher_id publisher_id_too_large publisher_id_type : Error
  invalid_publisher_id_type : ℕ → Error
  invalid_field_encoding invalid_message_type : Error
  raw_data_unknown_type raw_data_requires_metadata : Error
  mtu_too_small : Error
  unsupported_version : ℕ → Error
  not_yet_implemented : Error

pub data Result {ℓ} (A : Type ℓ) : Type ℓ where
  ok : A → Result A
  err : Error → Result A

-- What a writer leaves in its buffer, or the error that it throws.
abbrev pub Written : Type 0
Written = Result (List ℕ)

-- One write after another: the first error ends it.
infixr 60 ◌⨟◌
abbrev append_to : List ℕ → Written → Written
append_to bs (ok cs) = ok (bs ++ cs)
append_to bs (err e) = err e

unfoldable pub ◌⨟◌ : Written → Written → Written
ok bs ⨟ w = append_to bs w
err e ⨟ w = err e

-- A sequence that succeeds is two writes that succeed.
pub ⨟-eq-ok :
    (v w : Written) {bs : List ℕ}
    → (v ⨟ w) ≡ ok bs
    → (cs : List ℕ) × (ds : List ℕ) × (v ≡ ok cs) × (w ≡ ok ds) × (bs ≡ cs ++ ds)
unfolding ◌⨟◌
⨟-eq-ok (ok cs) (ok ds) h = (cs, ds, refl, refl, cc)
⨟-eq-ok (ok cs) (err e) h = cc
⨟-eq-ok (err e) w h = cc

pub ⨟_assoc : (u v w : Written) → ((u ⨟ v) ⨟ w) ≡ (u ⨟ v ⨟ w)
unfolding ◌⨟◌
⨟_assoc (ok xs) (ok bs) (ok cs) = ap ok (append_assoc xs bs cs)
⨟_assoc (ok xs) (ok bs) (err e) = refl
⨟_assoc (ok xs) (err e) w = refl
⨟_assoc (err e) v w = refl

pub nil-⨟ : (w : Written) → (ok [] ⨟ w) ≡ w
unfolding ◌⨟◌
nil-⨟ (ok bs) = refl
nil-⨟ (err e) = refl

pub Result-cases {ℓ} :
    {A : Type ℓ} (r : Result A) → ((a : A) × (r ≡ ok a)) ⊎ ((e : Error) × (r ≡ err e))
Result-cases (ok a) = inl (a, refl)
Result-cases (err e) = inr (e, refl)
