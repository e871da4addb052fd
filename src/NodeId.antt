-- ===== src/NodeId.antt =====
-- NodeIds as text in lib/opcua-utils.js. How the engine rounds and prints an integer that is not safe
-- is an argument. The names that
-- every object inherits (as "constructor") are left out of the well-known names.
pub mod RoundTrip
mod Tests
use node_red_contrib_opcua_s.Prelude.{
  ℕ, zero, suc, ◌+◌, ◌-◌, ◌*◌, ◌^◌, leb, ltb, ◌==◌, Bool, true, false, ◌&&◌, ◌||◌, if◌then◌else◌,
  Option, none, some, List, [], ◌∷◌, ◌++◌,
}
use node_red_contrib_opcua_s.Prelude.Int.{ℤ, pos, negsuc}
use node_red_contrib_opcua_s.Uadp.Text.{Text}
use node_red_contrib_opcua_s.Uadp.Guid.{skip_spaces}
use node_red_contrib_opcua_s.Uadp.DataSet.Object.{same_text}
use node_red_contrib_opcua_s.Reassembler.Key.{show_int}

-- A number that is a safe integer, or what any other one (also NaN) is printed as.
pub data Number : Type 0 where
  whole : ℤ → Number
  other : Text → Number

abbrev pub is_safe : ℤ → Bool
is_safe (pos n) = ltb n (2 ^ 53)
is_safe (negsuc n) = ltb (n + 1) (2 ^ 53)

abbrev pub not_a_number : Number
not_a_number = other (b'N' ∷ b'a' ∷ b'N' ∷ [])

abbrev infinity : Text
infinity = b'I' ∷ b'n' ∷ b'f' ∷ b'i' ∷ b'n' ∷ b'i' ∷ b't' ∷ b'y' ∷ []

abbrev is_infinite : Text → Bool
is_infinite t = same_text t infinity || same_text t (b'-' ∷ infinity)

-- The number that parseInt returns, where NaN is `none`.
abbrev pub or_nan : Option Number → Number
or_nan none = not_a_number
or_nan (some n) = n

pub data Identifier : Type 0 where
  numeric : Number → Identifier
  string guid byte_string : Text → Identifier

pub record NodeId : Type 0 where
  pub namespace_index : Number
  pub identifier : Identifier

-- WELL_KNOWN_NODES
abbrev pub well_known_nodes : List (Text × Text)
well_known_nodes =
    (
      b'R' ∷ b'o' ∷ b'o' ∷ b't' ∷ b'F' ∷ b'o' ∷ b'l' ∷ b'd' ∷ b'e' ∷ b'r' ∷ [],
      b'i' ∷ b'=' ∷ b'8' ∷ b'4' ∷ [],
    )
    ∷ (
      b'O' ∷ b'b' ∷ b'j' ∷ b'e' ∷ b'c' ∷ b't' ∷ b's' ∷ b'F' ∷ b'o' ∷ b'l' ∷ b'd' ∷ b'e' ∷ b'r' ∷ [],
      b'i' ∷ b'=' ∷ b'8' ∷ b'5' ∷ [],
    )
    ∷ (
      b'T' ∷ b'y' ∷ b'p' ∷ b'e' ∷ b's' ∷ b'F' ∷ b'o' ∷ b'l' ∷ b'd' ∷ b'e' ∷ b'r' ∷ [],
      b'i' ∷ b'=' ∷ b'8' ∷ b'6' ∷ [],
    )
    ∷ (
      b'V' ∷ b'i' ∷ b'e' ∷ b'w' ∷ b's' ∷ b'F' ∷ b'o' ∷ b'l' ∷ b'd' ∷ b'e' ∷ b'r' ∷ [],
      b'i' ∷ b'=' ∷ b'8' ∷ b'7' ∷ [],
    )
    ∷ (
      b'O' ∷ b'b' ∷ b'j' ∷ b'e' ∷ b'c' ∷ b't' ∷ b'T' ∷ b'y' ∷ b'p' ∷ b'e' ∷ b's' ∷ b'F' ∷ b'o'
          ∷ b'l' ∷ b'd' ∷ b'e' ∷ b'r' ∷ [],
      b'i' ∷ b'=' ∷ b'8' ∷ b'8' ∷ [],
    )
    ∷ (
      b'V' ∷ b'a' ∷ b'r' ∷ b'i' ∷ b'a' ∷ b'b' ∷ b'l' ∷ b'e' ∷ b'T' ∷ b'y' ∷ b'p' ∷ b'e' ∷ b's'
          ∷ b'F' ∷ b'o' ∷ b'l' ∷ b'd' ∷ b'e' ∷ b'r' ∷ [],
      b'i' ∷ b'=' ∷ b'8' ∷ b'9' ∷ [],
    )
    ∷ (
      b'D' ∷ b'a' ∷ b't' ∷ b'a' ∷ b'T' ∷ b'y' ∷ b'p' ∷ b'e' ∷ b's' ∷ b'F' ∷ b'o' ∷ b'l' ∷ b'd'
          ∷ b'e' ∷ b'r' ∷ [],
      b'i' ∷ b'=' ∷ b'9' ∷ b'0' ∷ [],
    )
    ∷ (
      b'R' ∷ b'e' ∷ b'f' ∷ b'e' ∷ b'r' ∷ b'e' ∷ b'n' ∷ b'c' ∷ b'e' ∷ b'T' ∷ b'y' ∷ b'p' ∷ b'e'
          ∷ b's' ∷ b'F' ∷ b'o' ∷ b'l' ∷ b'd' ∷ b'e' ∷ b'r' ∷ [],
      b'i' ∷ b'=' ∷ b'9' ∷ b'1' ∷ [],
    )
    ∷ (b'S' ∷ b'e' ∷ b'r' ∷ b'v' ∷ b'e' ∷ b'r' ∷ [], b'i' ∷ b'=' ∷ b'2' ∷ b'2' ∷ b'5' ∷ b'3' ∷ [])
    ∷ (
      b'S' ∷ b'e' ∷ b'r' ∷ b'v' ∷ b'e' ∷ b'r' ∷ b'S' ∷ b't' ∷ b'a' ∷ b't' ∷ b'u' ∷ b's' ∷ [],
      b'i' ∷ b'=' ∷ b'2' ∷ b'2' ∷ b'5' ∷ b'6' ∷ [],
    )
    ∷ []

-- The text that a well-known name stands for, and any other text itself.
unfoldable pub resolve : Text → List (Text × Text) → Text
resolve s [] = s
resolve s ((name, id) ∷ l) = if same_text s name then id else resolve s l

abbrev pub is_digit : ℕ → Bool
is_digit c = leb b'0' c && leb c b'9'

-- The digits that a text begins with, as a number behind another one.
unfoldable pub read_digits : ℕ → Text → ℕ
read_digits n [] = n
read_digits n (c ∷ cs) =
    let more = read_digits (n * 10 + (c - b'0')) cs in if is_digit c then more else n

abbrev pub starts_with_digit : Text → Bool
starts_with_digit [] = false
starts_with_digit (c ∷ cs) = is_digit c

unfoldable pub negated : ℕ → ℤ
negated zero = pos zero
negated (suc n) = negsuc n

-- The sign of a number, and what stands behind it.
unfoldable pub signed : Text → Bool × Text
signed [] = (false, [])
signed (c ∷ cs) =
    if c == b'-' then (true, cs) else if c == b'+' then (false, cs) else (false, c ∷ cs)

-- What stands behind a prefix.
unfoldable pub strip_prefix : Text → Text → Option Text
strip_prefix [] s = some s
strip_prefix (p ∷ ps) [] = none
strip_prefix (p ∷ ps) (c ∷ cs) = let rest = strip_prefix ps cs in if p == c then rest else none

abbrev pub prefixed : ℕ → Text
prefixed c = c ∷ b'=' ∷ []

-- The text before the first semicolon, and behind it.
unfoldable pub split_first : Text → Option (Text × Text)
split_first [] = none
split_first (c ∷ cs) =
    if c == 59
    then some ([], cs)
    else (elim (split_first cs) [ none ↦ none | some r ↦ some (c ∷ r.0, r.1) ])

abbrev pub all_digits : Text → Bool
all_digits [] = true
all_digits (c ∷ cs) = is_digit c && all_digits cs

-- `/^\d+$/` and `/^[sibg]=/`
abbrev pub is_number : Text → Bool
is_number [] = false
is_number (c ∷ cs) = is_digit c && all_digits cs

abbrev pub is_typed : Text → Bool
is_typed (c ∷ d ∷ cs) = (c == b's' || (c == b'i' || (c == b'b' || c == b'g'))) && (d == b'=')
is_typed _ = false

module _ (print_double : ℤ → Text) where
  unfoldable pub as_number : ℤ → Number
  as_number i = if is_safe i then whole i else other (print_double i)

  -- `parseInt(s, 10)`: the value is rounded to a double, which `print_double` prints.
  unfoldable pub parse_int : Text → Option Number
  parse_int s =
      let t = signed (skip_spaces s) in
      if starts_with_digit t.1
      then some (as_number (if t.0 then negated (read_digits 0 t.1) else pos (read_digits 0 t.1)))
      else none

  -- parseIdentifier: the first prefix that fits.
  unfoldable pub parse_identifier : Text → Number → Option NodeId
  parse_identifier s ns = elim (strip_prefix (prefixed b's') s) [
    | some v ↦ some (record { namespace_index = ns; identifier = string v })
    | none ↦ elim (strip_prefix (prefixed b'i') s) [
      | some v ↦ some (record { namespace_index = ns; identifier = numeric (or_nan (parse_int v)) })
      | none ↦ elim (strip_prefix (prefixed b'g') s) [
        | some v ↦ some (record { namespace_index = ns; identifier = guid v })
        | none ↦ elim (strip_prefix (prefixed b'b') s) [
          | some v ↦ some (record { namespace_index = ns; identifier = byte_string v })
          | none ↦ none
        ]
      ]
    ]
  ]

  unfoldable pub parse_plain : Text → Option NodeId
  parse_plain s =
      if is_typed s
      then parse_identifier s (whole (pos 0))
      else if is_number s
      then some
          (record { namespace_index = whole (pos 0); identifier = numeric (or_nan (parse_int s)) })
      else some (record { namespace_index = whole (pos 0); identifier = string s })

  -- A namespace that is no number, or not finite, makes it null.
  unfoldable pub parse_in : Text → Option Number → Option NodeId
  parse_in s none = none
  parse_in s (some (whole i)) = parse_identifier s (whole i)
  parse_in s (some (other t)) = if is_infinite t then none else parse_identifier s (other t)

  unfoldable pub parse_split : Text → Option (Text × Text) → Option NodeId
  parse_split s none = parse_plain s
  parse_split s (some (head, rest)) = elim (strip_prefix (b'n' ∷ b's' ∷ b'=' ∷ []) head) [
    | some number ↦ parse_in rest (parse_int number)
    | none ↦ parse_identifier s (whole (pos 0))
  ]

  unfoldable pub parse_resolved : Text → Option NodeId
  parse_resolved s = parse_split s (split_first s)

  -- parseNodeId
  unfoldable pub parse_node_id : Text → Option NodeId
  parse_node_id [] = none
  parse_node_id (c ∷ cs) = parse_resolved (resolve (c ∷ cs) well_known_nodes)

  unfoldable pub show_number : Number → Text
  show_number (whole i) = if is_safe i then show_int i else print_double i
  show_number (other s) = s

  unfoldable pub show_identifier : Identifier → Text
  show_identifier (numeric n) = b'i' ∷ b'=' ∷ show_number n
  show_identifier (string s) = b's' ∷ b'=' ∷ s
  show_identifier (guid s) = b'g' ∷ b'=' ∷ s
  show_identifier (byte_string s) = b'b' ∷ b'=' ∷ s

  -- nodeIdToString, of an object that has its members.
  unfoldable pub node_id_to_string : NodeId → Text
  node_id_to_string id =
      (b'n' ∷ b's' ∷ b'=' ∷ [])
      ++ (show_number id.namespace_index ++ (59 ∷ show_identifier id.identifier))
