-- ===== src/Publisher/Json.antt =====
-- The values of a Node-RED message, with what JSON.stringify and JSON.parse make of them.
-- A number is the text that it is printed as, an object the list of its own entries over
-- Object.prototype. Values that hold themselves, objects with a toJSON method, and a prototype that
-- was replaced, are left out.
pub mod Copy
use node_red_contrib_opcua_s.Prelude.{
  ℕ, ◌+◌, ◌-◌, ◌/◌, ◌%◌, ltb, leb, ◌==◌, Bool, true, false, ◌&&◌, ◌||◌, if◌then◌else◌, Option, none,
  some, List, [], ◌∷◌, ◌++◌,
}
use node_red_contrib_opcua_s.Uadp.Text.{Text}
use node_red_contrib_opcua_s.Uadp.DataSet.Object.{same_text, proto}

-- `function` is any function or symbol, `not_finite` NaN or an infinity, `bigint` any BigInt.
mutual
  pub data Value : Type 0 where
    undefined null not_finite function : Value
    boolean : Bool → Value
    number string bigint : Text → Value
    array : Items → Value
    object : Members → Value

  pub data Items : Type 0 where
    no_items : Items
    item : Value → Items → Items

  pub data Members : Type 0 where
    no_members : Members
    member : Text → Value → Members → Members

-- The methods that every object inherits.
abbrev inherited_methods : List Text
inherited_methods =
    (b'c' ∷ b'o' ∷ b'n' ∷ b's' ∷ b't' ∷ b'r' ∷ b'u' ∷ b'c' ∷ b't' ∷ b'o' ∷ b'r' ∷ [])
    ∷ (b'h' ∷ b'a' ∷ b's' ∷ b'O' ∷ b'w' ∷ b'n' ∷ b'P' ∷ b'r' ∷ b'o' ∷ b'p' ∷ b'e' ∷ b'r' ∷ b't'
        ∷ b'y' ∷ [])
    ∷ (b'i' ∷ b's' ∷ b'P' ∷ b'r' ∷ b'o' ∷ b't' ∷ b'o' ∷ b't' ∷ b'y' ∷ b'p' ∷ b'e' ∷ b'O' ∷ b'f'
        ∷ [])
    ∷ (b'p' ∷ b'r' ∷ b'o' ∷ b'p' ∷ b'e' ∷ b'r' ∷ b't' ∷ b'y' ∷ b'I' ∷ b's' ∷ b'E' ∷ b'n' ∷ b'u'
        ∷ b'm' ∷ b'e' ∷ b'r' ∷ b'a' ∷ b'b' ∷ b'l' ∷ b'e' ∷ [])
    ∷ (b't' ∷ b'o' ∷ b'L' ∷ b'o' ∷ b'c' ∷ b'a' ∷ b'l' ∷ b'e' ∷ b'S' ∷ b't' ∷ b'r' ∷ b'i' ∷ b'n'
        ∷ b'g' ∷ [])
    ∷ (b't' ∷ b'o' ∷ b'S' ∷ b't' ∷ b'r' ∷ b'i' ∷ b'n' ∷ b'g' ∷ [])
    ∷ (b'v' ∷ b'a' ∷ b'l' ∷ b'u' ∷ b'e' ∷ b'O' ∷ b'f' ∷ [])
    ∷ (95 ∷ 95 ∷ b'd' ∷ b'e' ∷ b'f' ∷ b'i' ∷ b'n' ∷ b'e' ∷ b'G' ∷ b'e' ∷ b't' ∷ b't' ∷ b'e' ∷ b'r'
        ∷ 95 ∷ 95 ∷ [])
    ∷ (95 ∷ 95 ∷ b'd' ∷ b'e' ∷ b'f' ∷ b'i' ∷ b'n' ∷ b'e' ∷ b'S' ∷ b'e' ∷ b't' ∷ b't' ∷ b'e' ∷ b'r'
        ∷ 95 ∷ 95 ∷ [])
    ∷ (95 ∷ 95 ∷ b'l' ∷ b'o' ∷ b'o' ∷ b'k' ∷ b'u' ∷ b'p' ∷ b'G' ∷ b'e' ∷ b't' ∷ b't' ∷ b'e' ∷ b'r'
        ∷ 95 ∷ 95 ∷ [])
    ∷ (95 ∷ 95 ∷ b'l' ∷ b'o' ∷ b'o' ∷ b'k' ∷ b'u' ∷ b'p' ∷ b'S' ∷ b'e' ∷ b't' ∷ b't' ∷ b'e' ∷ b'r'
        ∷ 95 ∷ 95 ∷ [])
    ∷ []

unfoldable pub is_among : Text → List Text → Bool
is_among name [] = false
is_among name (n ∷ ns) = same_text name n || is_among name ns

-- What every object inherits from Object.prototype, which is itself the value of `o.__proto__`.
unfoldable pub inherited : Text → Value
inherited name =
    if is_among name inherited_methods
    then function
    else if same_text name proto
    then object no_members
    else undefined

-- `o[name]`
unfoldable pub lookup : Text → Members → Value
lookup name no_members = inherited name
lookup name (member k v ms) = if same_text name k then v else lookup name ms

unfoldable pub is_undefined : Value → Bool
is_undefined undefined = true
is_undefined _ = false

-- What JSON.stringify leaves out of an object.
unfoldable pub is_unprinted : Value → Bool
is_unprinted undefined = true
is_unprinted function = true
is_unprinted _ = false

unfoldable pub put_member : Text → Value → Members → Members
put_member name v no_members = member name v no_members
put_member name v (member k w ms) =
    if same_text name k then member k v ms else member k w (put_member name v ms)

-- `o[name] = v`: the prototype's name makes no entry.
unfoldable pub set_member : Text → Value → Members → Members
set_member name v o = if same_text name proto then o else put_member name v o

-- `Object.assign(o, source)`
unfoldable pub assign : Members → Members → Members
assign o no_members = o
assign o (member k v ms) = assign (set_member k v o) ms

abbrev hex_unit : ℕ → ℕ
hex_unit d = if ltb d 10 then b'0' + d else b'a' + (d - 10)

-- `\u` and four hexadecimal digits
abbrev pub escape_unit : ℕ → Text
escape_unit c =
    92
    ∷ b'u'
    ∷ hex_unit (c / 4096)
    ∷ hex_unit (c / 256 % 16)
    ∷ hex_unit (c / 16 % 16)
    ∷ hex_unit (c % 16)
    ∷ []

-- What a character is printed as: control characters and lone surrogates are escaped.
unfoldable pub quote_char : ℕ → Text
quote_char c =
    if c == 34
    then 92 ∷ 34 ∷ []
    else if c == 92
    then 92 ∷ 92 ∷ []
    else if c == 8
    then 92 ∷ 98 ∷ []
    else if c == 9
    then 92 ∷ 116 ∷ []
    else if c == 10
    then 92 ∷ 110 ∷ []
    else if c == 12
    then 92 ∷ 102 ∷ []
    else if c == 13
    then 92 ∷ 114 ∷ []
    else if ltb c 32
    then escape_unit c
    else if leb 0xd800 c && ltb c 0xe000
    then escape_unit c
    else c ∷ []

unfoldable pub quote_chars : Text → Text
quote_chars [] = 34 ∷ []
quote_chars (c ∷ cs) = quote_char c ++ quote_chars cs

abbrev pub quote : Text → Text
quote s = 34 ∷ quote_chars s

-- The printed entries with commas between them.
unfoldable pub comma_separated : List Text → Text
comma_separated [] = []
comma_separated (s ∷ []) = s
comma_separated (s ∷ t ∷ ts) = s ++ (44 ∷ comma_separated (t ∷ ts))

-- Two characters around the entries; `none` is the TypeError of a BigInt.
unfoldable pub enclose : ℕ → ℕ → Option (List Text) → Option Text
enclose left right none = none
enclose left right (some ss) = some (left ∷ (comma_separated ss ++ (right ∷ [])))

unfoldable pub print_item : Option Text → Option (List Text) → Option (List Text)
print_item (some s) (some ss) = some (s ∷ ss)
print_item _ _ = none

-- An entry that is undefined, or a function, is left out.
unfoldable pub print_member :
    (undef : Bool) → Text → Option Text → Option (List Text) → Option (List Text)
print_member true k s ss = ss
print_member false k (some s) (some ss) = some ((quote k ++ (58 ∷ s)) ∷ ss)
print_member false k _ _ = none

unfoldable mutual
  pub stringify : Value → Option Text
  stringify undefined = some (110 ∷ 117 ∷ 108 ∷ 108 ∷ [])
  stringify null = some (110 ∷ 117 ∷ 108 ∷ 108 ∷ [])
  stringify function = some (110 ∷ 117 ∷ 108 ∷ 108 ∷ [])
  stringify not_finite = some (110 ∷ 117 ∷ 108 ∷ 108 ∷ [])
  stringify (boolean true) = some (116 ∷ 114 ∷ 117 ∷ 101 ∷ [])
  stringify (boolean false) = some (102 ∷ 97 ∷ 108 ∷ 115 ∷ 101 ∷ [])
  stringify (number s) = some s
  stringify (string s) = some (quote s)
  stringify (bigint s) = none
  stringify (array vs) = enclose 91 93 (print_items vs)
  stringify (object ms) = enclose 123 125 (print_members ms)

  pub print_items : Items → Option (List Text)
  print_items no_items = some []
  print_items (item v vs) = print_item (stringify v) (print_items vs)

  pub print_members : Members → Option (List Text)
  print_members no_members = some []
  print_members (member k v ms) = print_member (is_unprinted v) k (stringify v) (print_members ms)

unfoldable pub copy_member : (undef : Bool) → Text → Value → Members → Members
copy_member true k v ms = ms
copy_member false k v ms = member k v ms

-- `JSON.parse(JSON.stringify(o))`, where that does not throw.
unfoldable mutual
  pub copy : Value → Value
  copy undefined = null
  copy null = null
  copy function = null
  copy not_finite = null
  copy (boolean b) = boolean b
  copy (number s) = number s
  copy (string s) = string s
  copy (bigint s) = bigint s
  copy (array vs) = array (copy_items vs)
  copy (object ms) = object (copy_members ms)

  pub copy_items : Items → Items
  copy_items no_items = no_items
  copy_items (item v vs) = item (copy v) (copy_items vs)

  pub copy_members : Members → Members
  copy_members no_members = no_members
  copy_members (member k v ms) = copy_member (is_unprinted v) k (copy v) (copy_members ms)
