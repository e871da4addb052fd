-- ===== src/Config/Issues.antt =====
-- Laws of the tests and of the issue lists of lib/pubsub-config.js.
use node_red_contrib_opcua_s.Prelude.{
  ℕ, ◌*◌, ◌%◌, ◌≤◌, ◌<◌, leb, ltb, ◌==◌, Bool, true, false, not, ◌&&◌, List, [], ◌∷◌, ◌++◌, ◌≡◌,
  refl, sym, subst, ◌∙◌, arith, inl, inr, ◌⊎◌, ◌↔◌, ap,
}
use node_red_contrib_opcua_s.Prelude.Int.{pos, negsuc}
use node_red_contrib_opcua_s.Config.{
  finite, nan, plus_infinity, minus_infinity, Js, undefined, null, other, boolean, number, text,
  one, is_positive_number, is_integer, is_between_zero_and, is_defined, or_default, Place, Code,
  Issue, issue_if, made, make,
}

-- A number of `n` units, none of them negative.
abbrev pub units : ℕ → Js
units n = number (finite (pos n))

-- A number of units with a property.
abbrev pub IsUnits : (ℕ → Type 0) → Js → Type 0
IsUnits Q v = (n : ℕ) × (v ≡ units n) × Q n

-- A finite number above 0.
abbrev pub IsPositive : Js → Type 0
IsPositive = IsUnits (λ n. 0 < n)

-- A whole number from 0 to `k`.
abbrev pub IsWholeUpTo : ℕ → Js → Type 0
IsWholeUpTo k = IsUnits (λ n. (n % one ≡ 0) × (n ≤ k * one))

-- A value that is left out, or is as `P` asks.
abbrev pub IfDefined : (Js → Type 0) → Js → Type 0
IfDefined P v = (v ≡ undefined) ⊎ P v

-- No test takes a value that is no number from 0 on.
record IsOther (v : Js) : Type 0 where
  pub not_positive : is_positive_number v ≡ false
  pub not_between : (k : ℕ) → is_between_zero_and k v ≡ false

units-cases : (v : Js) → ((n : ℕ) × (v ≡ units n)) ⊎ IsOther v
unfolding is_positive_number is_between_zero_and
units-cases (number (finite (pos n))) = inl (n, refl)
units-cases (number (finite (negsuc n))) =
    inr (record { not_positive = refl; not_between = λ k. refl })
units-cases (number nan) = inr (record { not_positive = refl; not_between = λ k. refl })
units-cases (number plus_infinity) = inr (record { not_positive = refl; not_between = λ k. refl })
units-cases (number minus_infinity) = inr (record { not_positive = refl; not_between = λ k. refl })
units-cases undefined = inr (record { not_positive = refl; not_between = λ k. refl })
units-cases null = inr (record { not_positive = refl; not_between = λ k. refl })
units-cases other = inr (record { not_positive = refl; not_between = λ k. refl })
units-cases (boolean b) = inr (record { not_positive = refl; not_between = λ k. refl })
units-cases (text s) = inr (record { not_positive = refl; not_between = λ k. refl })

pub is_positive_number-units : (n : ℕ) → is_positive_number (units n) ≡ ltb 0 n
unfolding is_positive_number
is_positive_number-units n = refl

pub is_integer-units : (n : ℕ) → is_integer (units n) ≡ (n % one == 0)
unfolding is_integer
is_integer-units n = refl

pub is_between-units : (k n : ℕ) → is_between_zero_and k (units n) ≡ leb n (k * one)
unfolding is_between_zero_and
is_between-units k n = refl

pub is_positive_number-IsPositive : (v : Js) → (is_positive_number v ≡ true) ↔ IsPositive v
is_positive_number-IsPositive v = (there, back)
  where
    there : is_positive_number v ≡ true → IsPositive v
    there h = elim (units-cases v) [
      | inl (n, e) ↦
          let p : ltb 0 n ≡ true =
            sym (is_positive_number-units n) ∙ subst (λ u. is_positive_number u ≡ true) e h in
          (n, e, ground arith)
      | inr o ↦ absurd (cc (h, o.not_positive))
    ]

    back : IsPositive v → is_positive_number v ≡ true
    back (n, e, p) =
        subst (λ u. is_positive_number u ≡ true) (sym e) (is_positive_number-units n ∙ ground arith)

pub is_whole-IsWholeUpTo :
    (k : ℕ) (v : Js) → ((is_integer v && is_between_zero_and k v) ≡ true) ↔ IsWholeUpTo k v
is_whole-IsWholeUpTo k v = (there, back)
  where
    whole_units :
        (n : ℕ)
        → (is_integer (units n) && is_between_zero_and k (units n))
          ≡ ((n % one == 0) && leb n (k * one))
    whole_units n = rw (is_integer-units n, is_between-units k n) refl

    rejected : (a : Bool) → {b : Bool} → b ≡ false → (a && b) ≡ true → ⊥
    rejected a e h = ground arith

    there : (is_integer v && is_between_zero_and k v) ≡ true → IsWholeUpTo k v
    there h = elim (units-cases v) [
      | inl (n, e) ↦
          let p : ((n % one == 0) && leb n (k * one)) ≡ true =
            sym (whole_units n)
            ∙ subst (λ u. (is_integer u && is_between_zero_and k u) ≡ true) e h in
          (n, e, (ground arith, ground arith))
      | inr o ↦ absurd (rejected (is_integer v) (o.not_between k) h)
    ]

    back : IsWholeUpTo k v → (is_integer v && is_between_zero_and k v) ≡ true
    back (n, e, (whole, le)) =
        subst (λ u. (is_integer u && is_between_zero_and k u) ≡ true) (sym e)
          (whole_units n ∙ ground arith)

-- Issues of a part and of the rest.
pub no_issues : (xs ys : List Issue) → (xs ++ ys ≡ []) ↔ ((xs ≡ []) × (ys ≡ []))
no_issues [] ys = (λ h. (refl, h), λ h. h.1)
no_issues (x ∷ xs) ys = (λ h. absurd (cc h), λ h. absurd (cc h.0))

pub no_issue_if : (b : Bool) (p : Place) (c : Code) → (issue_if b p c ≡ []) ↔ (b ≡ false)
unfolding issue_if
no_issue_if true p c = (λ h. absurd (cc h), λ h. absurd (cc h))
no_issue_if false p c = (λ h. refl, λ h. refl)

pub make-made :
    {A : Type 0} (issues : List Issue) (a out : A)
    → make issues a ≡ made out
    → (issues ≡ []) × (a ≡ out)
unfolding make
make-made [] a out h = (refl, cc h)
make-made (i ∷ issues) a out h = absurd (cc h)

pub make-nil : {A : Type 0} (a : A) → make [] a ≡ made a
unfolding make
make-nil a = refl

is_defined-cases : (v : Js) → (v ≡ undefined) ⊎ (is_defined v ≡ true)
unfolding is_defined
is_defined-cases undefined = inl refl
is_defined-cases null = inr refl
is_defined-cases other = inr refl
is_defined-cases (boolean b) = inr refl
is_defined-cases (number n) = inr refl
is_defined-cases (text s) = inr refl

is_defined-undefined : is_defined undefined ≡ false
unfolding is_defined
is_defined-undefined = refl

-- The guard of an optional member, for a test `b` that says `P`.
pub optional :
    (P : Js → Type 0) (v : Js) (b : Bool)
    → (b ≡ true) ↔ P v
    → ((is_defined v && not b) ≡ false) ↔ IfDefined P v
optional P v b (to, from) = (there, back)
  where
    there : (is_defined v && not b) ≡ false → IfDefined P v
    there h = elim (is_defined-cases v) [ inl e ↦ inl e | inr d ↦ inr (to (ground arith)) ]

    back : IfDefined P v → (is_defined v && not b) ≡ false
    back (inl e) =
        let d : is_defined v ≡ false = ap is_defined e ∙ is_defined-undefined in ground arith
    back (inr p) = let h = from p in ground arith

or_default-units : (n : ℕ) (d : Js) → or_default (units n) d ≡ units n
unfolding or_default
or_default-units n d = refl

pub or_default-undefined : (d : Js) → or_default undefined d ≡ d
unfolding or_default
or_default-undefined d = refl

pub or_default-IsUnits :
    (Q : ℕ → Type 0) (v d : Js) → IfDefined (IsUnits Q) v → IsUnits Q d → IsUnits Q (or_default v d)
or_default-IsUnits Q v d (inl e) p =
    subst (IsUnits Q) (sym (ap (λ u. or_default u d) e ∙ or_default-undefined d)) p
or_default-IsUnits Q v d (inr (n, e, q)) p =
    (n, ap (λ u. or_default u d) e ∙ or_default-units n d, q)

pub or_default_same : (Q : ℕ → Type 0) (v d : Js) → IsUnits Q v → or_default v d ≡ v
or_default_same Q v d (n, e, q) = ap (λ u. or_default u d) e ∙ or_default-units n d ∙ sym e

pub one_pos : 0 < one
unfolding one
one_pos = ground arith
