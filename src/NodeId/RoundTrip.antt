-- ===== src/NodeId/RoundTrip.antt =====
-- A NodeId of lib/opcua-utils.js is parsed from what it is printed as.
use node_red_contrib_opcua_s.Prelude.{
  ℕ, zero, suc, ◌+◌, ◌-◌, ◌*◌, ◌/◌, ◌%◌, ◌≤◌, ◌<◌, ltb, ◌==◌, true, false, some, [], ◌∷◌, ◌++◌, All,
  All-append, if◌then◌else◌, subst, ◌≡◌, refl, sym, ap, ◌∙◌, arith, inl, inr, Bool-cases,
  append_assoc, append-nil,
}
use node_red_contrib_opcua_s.Prelude.Int.{ℤ, pos, negsuc}
use node_red_contrib_opcua_s.Uadp.Text.{Text}
use node_red_contrib_opcua_s.Uadp.Guid.{is_space, is_wide_space, skip_spaces}
use node_red_contrib_opcua_s.Uadp.DataSet.Object.{same_text}
use node_red_contrib_opcua_s.Reassembler.Key.{digits, show_nat, show_int}
use node_red_contrib_opcua_s.NodeId.{
  Number, whole, other, is_safe, or_nan, as_number, show_number, Identifier, numeric, string, guid,
  byte_string, NodeId, resolve, is_digit, read_digits, starts_with_digit, negated, signed,
  parse_int, strip_prefix, parse_identifier, split_first, parse_in, parse_split, parse_resolved,
  parse_node_id, show_identifier, node_id_to_string,
}

read_digit :
    (n d : ℕ) (cs : Text) → d < 10 → read_digits n ((b'0' + d) ∷ cs) ≡ read_digits (n * 10 + d) cs
unfolding read_digits
read_digit n d cs lt =
    let digit : is_digit (b'0' + d) ≡ true = ground arith in
    let same : b'0' + d - b'0' ≡ d = omega arith in rw (digit, same) refl

-- The digits of a number are read behind each other.
read_digits-digits :
    (f n : ℕ) (rest : Text) → n < f → read_digits 0 (digits f n ++ rest) ≡ read_digits n rest
unfolding digits
read_digits-digits zero n rest lt = absurd (omega arith)
read_digits-digits (suc f) n rest lt = elim (Bool-cases (ltb n 10)) [
  | inl short ↦
      let small : n < 10 = ground arith in
      let same : 0 * 10 + n ≡ n = omega arith in
      rw short (read_digit 0 n rest small ∙ ap (λ k. read_digits k rest) same)
  | inr long ↦
      let big : 10 ≤ n = ground arith in
      let last : n % 10 < 10 = omega arith in
      let same : n / 10 * 10 + n % 10 ≡ n = omega arith in
      rw long (
        ap (read_digits 0) (append_assoc (digits f (n / 10)) ((b'0' + n % 10) ∷ []) rest)
        ∙ read_digits-digits f (n / 10) ((b'0' + n % 10) ∷ rest) (omega arith)
        ∙ read_digit (n / 10) (n % 10) rest last
        ∙ ap (λ k. read_digits k rest) same)
]

-- A digit is no sign, no space and no semicolon.
abbrev IsDigit : ℕ → Type 0
IsDigit c = is_digit c ≡ true

digits-IsDigit : (f n : ℕ) → All IsDigit (digits f n)
unfolding digits
digits-IsDigit zero n = tt
digits-IsDigit (suc f) n = elim (Bool-cases (ltb n 10)) [
  | inl short ↦ rw short ((ground arith, tt))
  | inr long ↦ rw long (
      All-append IsDigit (digits f (n / 10)) ((b'0' + n % 10) ∷ []) (digits-IsDigit f (n / 10))
        ((last_digit n, tt)))
]
  where
    last_digit : (n : ℕ) → IsDigit (b'0' + n % 10)
    last_digit n = ground arith

starts-append : (s t : Text) → starts_with_digit s ≡ true → starts_with_digit (s ++ t) ≡ true
starts-append [] t h = absurd (cc h)
starts-append (c ∷ cs) t h = h

digits_start : (f n : ℕ) → n < f → starts_with_digit (digits f n) ≡ true
unfolding digits
digits_start zero n lt = absurd (omega arith)
digits_start (suc f) n lt = elim (Bool-cases (ltb n 10)) [
  | inl short ↦ rw short (ground arith)
  | inr long ↦
      let big : 10 ≤ n = ground arith in
      rw long (
        starts-append (digits f (n / 10)) ((b'0' + n % 10) ∷ [])
          (digits_start f (n / 10) (omega arith)))
]

skip_spaces-digit : (s : Text) → starts_with_digit s ≡ true → skip_spaces s ≡ s
unfolding skip_spaces is_space is_wide_space
skip_spaces-digit [] h = refl
skip_spaces-digit (c ∷ cs) h = ground arith

signed-digit : (s : Text) → starts_with_digit s ≡ true → signed s ≡ (false, s)
unfolding signed
signed-digit [] h = refl
signed-digit (c ∷ cs) h = ground arith

read_show_nat : (n : ℕ) → read_digits 0 (show_nat n) ≡ n
unfolding show_nat read_digits
read_show_nat n =
    ap (read_digits 0) (sym (append-nil (digits (suc n) n)))
    ∙ read_digits-digits (suc n) n [] (omega arith)

show_nat_start : (n : ℕ) → starts_with_digit (show_nat n) ≡ true
unfolding show_nat
show_nat_start n = digits_start (suc n) n (omega arith)

-- A text without a semicolon is what stands before the first one.
abbrev IsOther : ℕ → Type 0
IsOther c = (c == 59) ≡ false

split_first-append : (s t : Text) → All IsOther s → split_first (s ++ (59 ∷ t)) ≡ some (s, t)
unfolding split_first
split_first-append [] t h = refl
split_first-append (c ∷ cs) t (hc, h) = rw (hc, split_first-append cs t h) refl

All-digits : (s : Text) → All IsDigit s → All IsOther s
All-digits [] h = tt
All-digits (c ∷ cs) (hc, h) = (ground arith, All-digits cs h)

module _ (print_double : ℤ → Text) where
  parse_int_minus :
      (s : Text)
      → starts_with_digit s ≡ true
      → parse_int print_double (b'-' ∷ s)
        ≡ some (as_number print_double (negated (read_digits 0 s)))
  unfolding parse_int skip_spaces is_space is_wide_space signed
  parse_int_minus s h = rw h refl

  parse_int_plain :
      (s : Text)
      → starts_with_digit s ≡ true
      → parse_int print_double s ≡ some (as_number print_double (pos (read_digits 0 s)))
  unfolding parse_int
  parse_int_plain s h = rw (skip_spaces-digit s h, signed-digit s h, h) refl

  parse_int-show_int :
      (i : ℤ) → parse_int print_double (show_int i) ≡ some (as_number print_double i)
  unfolding show_int
  parse_int-show_int (pos n) =
      parse_int_plain (show_nat n) (show_nat_start n)
      ∙ ap (λ k. some (as_number print_double (pos k))) (read_show_nat n)
  parse_int-show_int (negsuc n) =
      parse_int_minus (show_nat (suc n)) (show_nat_start (suc n))
      ∙ ap (λ k. some (as_number print_double (negated k))) (read_show_nat (suc n))
      ∙ negated_suc n
    where
      negated_suc :
          (n : ℕ)
          → some (as_number print_double (negated (suc n)))
            ≡ some (as_number print_double (negsuc n))
      negated_suc n = unfold negated in refl

  show_int-IsOther : (i : ℤ) → All IsOther (show_int i)
  unfolding show_int show_nat
  show_int-IsOther (pos n) = All-digits _ (digits-IsDigit (suc n) n)
  show_int-IsOther (negsuc n) = (refl, All-digits _ (digits-IsDigit (suc (suc n)) (suc n)))

  -- A number that is a safe integer.
  abbrev pub IsSafe : Number → Type 0
  IsSafe (whole i) = is_safe i ≡ true
  IsSafe (other s) = ⊥

  -- An identifier that is a number is a safe integer.
  abbrev pub IsWhole : Identifier → Type 0
  IsWhole (numeric n) = IsSafe n
  IsWhole _ = Unit {0}

  parse_int-show_number :
      (n : Number) → IsSafe n → parse_int print_double (show_number print_double n) ≡ some n
  unfolding show_number as_number
  parse_int-show_number (other s) h = absurd h
  parse_int-show_number (whole i) h =
      ap (λ b. parse_int print_double (if b then show_int i else print_double i)) h
      ∙ parse_int-show_int i
      ∙ ap (λ b. some (if b then whole i else other (print_double i))) h

  show_number-IsOther : (n : Number) → IsSafe n → All IsOther (show_number print_double n)
  unfolding show_number
  show_number-IsOther (other s) h = absurd h
  show_number-IsOther (whole i) h =
      subst (λ b. All IsOther (if b then show_int i else print_double i)) (sym h)
        (show_int-IsOther i)

  parse_identifier-show_identifier :
      (id : Identifier) (ns : Number)
      → IsWhole id
      → parse_identifier print_double (show_identifier print_double id) ns
        ≡ some (record { namespace_index = ns; identifier = id })
  unfolding parse_identifier show_identifier strip_prefix
  parse_identifier-show_identifier (numeric n) ns h =
      ap (λ o. some (record { namespace_index = ns; identifier = numeric (or_nan o) }))
        (parse_int-show_number n h)
  parse_identifier-show_identifier (string s) ns h = refl
  parse_identifier-show_identifier (guid s) ns h = refl
  parse_identifier-show_identifier (byte_string s) ns h = refl

  parse_split-namespace :
      (ns : Number) (text rest : Text)
      → IsSafe ns
      → parse_split print_double text
          (some (b'n' ∷ b's' ∷ b'=' ∷ show_number print_double ns, rest))
        ≡ parse_identifier print_double rest ns
  unfolding parse_split strip_prefix parse_in
  parse_split-namespace (other s) text rest h = absurd h
  parse_split-namespace (whole i) text rest h = rw (parse_int-show_number (whole i) h) refl

  -- What nodeIdToString prints of a NodeId is parsed to it again: the namespace is a safe integer, and
  -- the identifier is a safe integer too, or any text that is a string, a GUID or a ByteString, also
  -- with semicolons in it.
  pub parse_node_id-node_id_to_string :
      (id : NodeId)
      → IsSafe id.namespace_index
      → IsWhole id.identifier
      → parse_node_id print_double (node_id_to_string print_double id) ≡ some id
  unfolding parse_node_id node_id_to_string resolve same_text parse_resolved
  parse_node_id-node_id_to_string id safe whole_id =
      ap (parse_split print_double _) (
        split_first-append (b'n' ∷ b's' ∷ b'=' ∷ show_number print_double id.namespace_index)
          (show_identifier print_double id.identifier)
          (refl, (refl, (refl, show_number-IsOther id.namespace_index safe))))
      ∙ parse_split-namespace id.namespace_index _ (show_identifier print_double id.identifier) safe
      ∙ parse_identifier-show_identifier id.identifier id.namespace_index whole_id
