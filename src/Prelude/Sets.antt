-- ===== src/Prelude/Sets.antt =====
-- A set of numbers as a list: `clearTimeout`, `Set.delete` and `Set.has`.
use Prim.Native.Nat.{ℕ}
use mathlib.Core.Path.{◌≡◌}
use mathlib.Core.Bool.{Bool, true, false}
use mathlib.Core.List.{List, [], ◌∷◌}
use native.Mathlib.Omega.{arith}
use node_red_contrib_opcua_s.Prelude.Tests.{◌==◌, if◌then◌else◌}

unfoldable pub remove : ℕ → List ℕ → List ℕ
remove n [] = []
remove n (m ∷ ms) = if n == m then remove n ms else m ∷ remove n ms

unfoldable pub contains : ℕ → List ℕ → Bool
contains n [] = false
contains n (m ∷ ms) = if n == m then true else contains n ms

pub contains-remove :
    (t n : ℕ) (ts : List ℕ) → contains t (remove n ts) ≡ true → contains t ts ≡ true
unfolding contains remove
contains-remove t n [] h = h
contains-remove t n (m ∷ ms) h = ground (arith, contains-remove t n ms)

pub contains-remove_same : (n : ℕ) (ms : List ℕ) → contains n (remove n ms) ≡ false
unfolding contains remove
contains-remove_same n [] = ground arith
contains-remove_same n (m ∷ ms) = ground (arith, contains-remove_same n ms)
