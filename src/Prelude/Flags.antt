-- ===== src/Prelude/Flags.antt =====
-- Flag bytes: `f |= b` under a condition, `f & b` as a test, and statements about flag bytes that
-- are checked at every combination of the conditions.
use Prim.Native.Nat.{ℕ, zero, suc, ◌<◌, bit_and, bit_or}
use mathlib.Core.Path.{◌≡◌}
use mathlib.Core.Bool.{Bool, true, false, not, ◌&&◌}
use mathlib.Core.List.{List, [], ◌∷◌}
use native.Mathlib.Omega.{arith}
use node_red_contrib_opcua_s.Prelude.Tests.{◌==◌, if◌then◌else◌}

-- `if (c) f |= b`
abbrev pub set_flag : Bool → ℕ → ℕ → ℕ
set_flag c b f = if c then bit_or f b else f

-- `f & b` as a condition
abbrev pub has_flag : ℕ → ℕ → Bool
has_flag f b = not (bit_and f b == 0)

abbrev pub same : Bool → Bool → Bool
same true b = b
same false b = not b

pub same→eq : (a b : Bool) → same a b ≡ true → a ≡ b
same→eq a b h = ground arith

abbrev pub both : (Bool → Bool) → Bool
both p = p true && p false

pub both_sound : (p : Bool → Bool) → both p ≡ true → (b : Bool) → p b ≡ true
both_sound p h true = ground arith
both_sound p h false = ground arith

&&-left : (a b : Bool) → (a && b) ≡ true → a ≡ true
&&-left a b h = ground arith

&&-right : (a b : Bool) → (a && b) ≡ true → b ≡ true
&&-right a b h = ground arith

-- Several tests at once, and what each says.
abbrev pub checks : List Bool → Bool
checks [] = true
checks (b ∷ bs) = b && checks bs

abbrev pub AllTrue : List Bool → Type 0
AllTrue [] = Unit {0}
AllTrue (b ∷ bs) = (b ≡ true) × AllTrue bs

pub checks-AllTrue : (bs : List Bool) → checks bs ≡ true → AllTrue bs
checks-AllTrue [] h = tt
checks-AllTrue (b ∷ bs) h = (&&-left b (checks bs) h, checks-AllTrue bs (&&-right b (checks bs) h))

-- A statement about three conditions, checked at all eight combinations.
abbrev pub all3 : (Bool → Bool → Bool → Bool) → Bool
all3 p = both (λ a. both (λ b. both (λ c. p a b c)))

pub all3_sound : (p : Bool → Bool → Bool → Bool) → all3 p ≡ true → (a b c : Bool) → p a b c ≡ true
all3_sound p h a b c =
    both_sound (p a b)
      (both_sound (λ x. both (p a x)) (both_sound (λ x. both (λ y. both (p x y))) h a) b) c

-- The same for six.
abbrev pub all6 : (Bool → Bool → Bool → Bool → Bool → Bool → Bool) → Bool
all6 p = all3 (λ a b c. all3 (λ d e f. p a b c d e f))

pub all6_sound :
    (p : Bool → Bool → Bool → Bool → Bool → Bool → Bool)
    → all6 p ≡ true
    → (a b c d e f : Bool) → p a b c d e f ≡ true
all6_sound p h a b c d e f =
    all3_sound (p a b c) (all3_sound (λ x y z. all3 (p x y z)) h a b c) d e f

unfoldable pub all_below : ℕ → (ℕ → Bool) → Bool
all_below zero p = true
all_below (suc n) p = p n && all_below n p

pub all_below_sound : (n : ℕ) (p : ℕ → Bool) → all_below n p ≡ true → (x : ℕ) → x < n → p x ≡ true
unfolding all_below
all_below_sound zero p h x lt = absurd (omega arith)
all_below_sound (suc n) p h x lt = ground (arith, all_below_sound n p (ground arith) x)
