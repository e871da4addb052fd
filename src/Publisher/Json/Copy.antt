-- ===== src/Publisher/Json/Copy.antt =====
-- A copy made by JSON.parse and JSON.stringify is printed as what it was made from.
use node_red_contrib_opcua_s.Prelude.{false, ◌≡◌, refl, ap, inl, inr, Bool-cases}
use node_red_contrib_opcua_s.Uadp.Text.{Text}
use node_red_contrib_opcua_s.Publisher.Json.{
  Value, undefined, null, function, not_finite, boolean, number, string, bigint, array, object,
  Items, no_items, item, Members, no_members, member, is_unprinted, stringify, print_items,
  print_members, print_member, enclose, copy_member, copy, copy_items, copy_members,
}

is_unprinted-copy : (v : Value) → is_unprinted (copy v) ≡ false
unfolding is_unprinted copy
is_unprinted-copy undefined = refl
is_unprinted-copy null = refl
is_unprinted-copy function = refl
is_unprinted-copy not_finite = refl
is_unprinted-copy (boolean b) = refl
is_unprinted-copy (number s) = refl
is_unprinted-copy (string s) = refl
is_unprinted-copy (bigint s) = refl
is_unprinted-copy (array vs) = refl
is_unprinted-copy (object ms) = refl

-- One entry, from its value and from the entries behind it.
print-copy_member :
    (k : Text) (v : Value) (ms : Members)
    → stringify (copy v) ≡ stringify v
    → print_members (copy_members ms) ≡ print_members ms
    → print_members (copy_member (is_unprinted v) k (copy v) (copy_members ms))
      ≡ print_member (is_unprinted v) k (stringify v) (print_members ms)
unfolding print_members print_member copy_member
print-copy_member k v ms hv hs = elim (Bool-cases (is_unprinted v)) [
  | inl u ↦ rw u hs
  | inr d ↦ rw (d, is_unprinted-copy v, hv, hs) refl
]

mutual
  unfolding stringify print_items print_members copy copy_items copy_members

  copy_value : (v : Value) → stringify (copy v) ≡ stringify v
  copy_value undefined = refl
  copy_value null = refl
  copy_value function = refl
  copy_value not_finite = refl
  copy_value (boolean b) = refl
  copy_value (number s) = refl
  copy_value (string s) = refl
  copy_value (bigint s) = refl
  copy_value (array vs) = ap (enclose 91 93) (copy_all vs)
  copy_value (object ms) = ap (enclose 123 125) (copy_object ms)

  copy_all : (vs : Items) → print_items (copy_items vs) ≡ print_items vs
  copy_all no_items = refl
  copy_all (item v vs) = rw (copy_value v, copy_all vs) refl

  copy_object : (ms : Members) → print_members (copy_members ms) ≡ print_members ms
  copy_object no_members = refl
  copy_object (member k v ms) = print-copy_member k v ms (copy_value v) (copy_object ms)

pub stringify-copy : (ms : Members) → stringify (object (copy_members ms)) ≡ stringify (object ms)
unfolding copy
stringify-copy ms = copy_value (object ms)
