-- ===== src/Uadp/Stream/RoundTrip.antt =====
-- Reads that take back what a write left, for the parts of lib/uadp-encoder.js to be put together.
use node_red_contrib_opcua_s.Prelude.{
  ℕ, ◌+◌, ◌-◌, ◌*◌, ◌/◌, ◌^◌, ◌<◌, List, [], ◌∷◌, ◌++◌, ◌≡◌, refl, sym, ap, subst, arith, length,
  All, Bool, true, false, if◌then◌else◌, Option, none, some, is_some, take-append, drop-append,
  length-append, append_assoc, append-nil, le→ltb, ltb→lt,
}
use node_red_contrib_opcua_s.Prelude.Int.{ℤ, pos, negsuc, wrap, signed, in_signed_range}
use node_red_contrib_opcua_s.Uadp.Result.{ok, err, Error, out_of_range, Written, ◌⨟◌, ⨟-eq-ok}
use node_red_contrib_opcua_s.Uadp.Bytes.{le_bytes, le_value, length-le_bytes, le_value-le_bytes}
use node_red_contrib_opcua_s.Uadp.Stream.{
  Stream, Read, ◌>>=◌, return, read_if, read_many, read_bytes, read_uint, read_int, write_uint,
  write_uint64, write_unsigned, read_unsigned, write_int, write_if, write_many,
}
use native.Mathlib.Nat.{mod-eq_of_lt}

abbrev pub at : ℕ → List ℕ → Stream
at p rest = record { position = p; rest = rest }

-- `m` takes exactly the bytes `bs` off any stream that starts with them, and answers `x`.
pub record Reads {A : Type 0} (m : Read A) (bs : List ℕ) (x : A) : Type 0 where
  pub run : (p : ℕ) (rest : List ℕ) → m (at p (bs ++ rest)) ≡ ok (x, at (p + length bs) rest)

-- Whatever the write `w` leaves, `m` reads back as `x`.
pub record RoundTrip {A : Type 0} (w : Written) (m : Read A) (x : A) : Type 0 where
  pub back : (bs : List ℕ) → w ≡ ok bs → Reads m bs x

pub Reads-return : {A : Type 0} (x : A) → Reads (return x) [] x
unfolding return
Reads-return x = record { run = λ p rest. ap (λ q. ok (x, at q rest)) (omega arith) }

pub Reads-bind :
    {A B : Type 0} {m : Read A} (f : A → Read B) {bs cs : List ℕ} {x : A} {y : B}
    → Reads m bs x
    → Reads (f x) cs y
    → Reads (m >>= f) (bs ++ cs) y
unfolding ◌>>=◌
Reads-bind {m = m} f {bs = bs} {cs = cs} {x = x} {y = y} r q = record {
  run = λ p rest.
      rw
        (
          append_assoc bs cs rest,
          r.run p (cs ++ rest),
          q.run (p + length bs) rest,
          length-append bs cs,
        )
        (ap (λ n. ok (y, at n rest)) (omega arith));
}

pub Reads-map :
    {A B : Type 0} {m : Read A} {bs : List ℕ} (g : A → B) {x : A}
    → Reads m bs x
    → Reads (m >>= λ a. return (g a)) bs (g x)
Reads-map {bs = bs} g {x = x} r = rw (← append-nil bs) (Reads-bind _ r (Reads-return (g x)))

pub RoundTrip-return : {A : Type 0} (x : A) → RoundTrip (ok []) (return x) x
RoundTrip-return x = record { back = λ bs e. subst_nil bs e }
  where
    subst_nil : (bs : List ℕ) → ok [] ≡ ok bs → Reads (return x) bs x
    subst_nil [] e = Reads-return x
    subst_nil (b ∷ bs) e = cc

-- One write and read after another.
pub RoundTrip-bind :
    {A B : Type 0} {v w : Written} {m : Read A} (f : A → Read B) {x : A} {y : B}
    → RoundTrip v m x
    → RoundTrip w (f x) y
    → RoundTrip (v ⨟ w) (m >>= f) y
RoundTrip-bind {v = v} {w = w} f r q = record {
  back = λ bs e.
      let (cs, ds, p, p', split) = ⨟-eq-ok v w e in
      rw split (Reads-bind _ (r.back cs p) (q.back ds p'));
}

-- The last read of a block.
pub RoundTrip-map :
    {A B : Type 0} {w : Written} {m : Read A} (g : A → B) {x : A}
    → RoundTrip w m x
    → RoundTrip w (m >>= λ a. return (g a)) (g x)
RoundTrip-map {w = w} g {x = x} r = record {
  back = λ bs e. rw (← append-nil bs) (Reads-bind _ (r.back bs e) (Reads-return (g x)));
}

pub RoundTrip-if :
    {A : Type 0} {w : A → Written} {m : Read A} (o : Option A)
    → ((x : A) → o ≡ some x → RoundTrip (w x) m x)
    → RoundTrip (write_if (is_some o) w o) (read_if (is_some o) m) o
unfolding write_if read_if
RoundTrip-if none h = RoundTrip-return none
RoundTrip-if (some x) h = RoundTrip-map some (h x refl)

pub Reads-bytes : (bs : List ℕ) → Reads (read_bytes (length bs)) bs bs
unfolding read_bytes
Reads-bytes bs = record {
  run = λ p rest. rw (
    le→ltb (length (bs ++ rest)) (length bs) (omega (arith, length-append bs rest)),
    take-append bs rest,
    drop-append bs rest,
  );
}

-- A write that cannot fail.
pub RoundTrip-ok :
    {A : Type 0} {m : Read A} {bs : List ℕ} {x : A} → Reads m bs x → RoundTrip (ok bs) m x
RoundTrip-ok {m = m} {bs = bs} {x = x} r = record {
  back = λ cs e. subst (λ ds. Reads m ds x) (ok_injective e) r;
}
  where
    ok_injective : {cs : List ℕ} → ok bs ≡ ok cs → bs ≡ cs
    ok_injective e = cc

-- A read that is followed by one that takes nothing.
pub RoundTrip-then :
    {A B : Type 0} {w : Written} {m : Read A} (f : A → Read B) {x : A} {y : B}
    → RoundTrip w m x
    → Reads (f x) [] y
    → RoundTrip w (m >>= f) y
RoundTrip-then {w = w} f r q = record {
  back = λ bs e. rw (← append-nil bs) (Reads-bind _ (r.back bs e) q);
}

pub Reads-exactly : (n : ℕ) (bs : List ℕ) → length bs ≡ n → Reads (read_bytes n) bs bs
Reads-exactly n bs e = subst (λ k. Reads (read_bytes k) bs bs) e (Reads-bytes bs)

pub Reads-le_bytes : (n v : ℕ) → v < 256 ^ n → Reads (read_uint n) (le_bytes n v) v
unfolding read_uint
Reads-le_bytes n v h =
    subst (λ k. Reads (read_uint k) (le_bytes n v) v) (length-le_bytes n v)
      (subst (λ u. Reads (read_uint (length (le_bytes n v))) (le_bytes n v) u)
        (le_value-le_bytes n v h)
        (subst (λ bs. Reads (read_uint (length (le_bytes n v))) bs (le_value (le_bytes n v)))
          (append-nil (le_bytes n v))
          (Reads-bind _ (Reads-bytes (le_bytes n v)) (Reads-return (le_value (le_bytes n v))))))

-- A write that succeeds under a test only.
pub RoundTrip-guard :
    {A : Type 0} (c : Bool) (bs : List ℕ) {m : Read A} {x : A}
    → (c ≡ true → Reads m bs x)
    → RoundTrip (if c then ok bs else err out_of_range) m x
RoundTrip-guard true bs h = RoundTrip-ok (h refl)
RoundTrip-guard false bs h = record { back = λ cs e. cc }

pub RoundTrip-uint : (n v : ℕ) → RoundTrip (write_uint n v) (read_uint n) v
unfolding write_uint
RoundTrip-uint n v =
    RoundTrip-guard _ (le_bytes n v) (λ e. Reads-le_bytes n v (ltb→lt v (256 ^ n) e))

pub RoundTrip-err : {A : Type 0} {m : Read A} {x : A} (e : Error) → RoundTrip (err e) m x
RoundTrip-err e = record { back = λ bs p. cc }

-- A loop that writes every element, and the counted loop that reads them.
pub RoundTrip-many :
    {A : Type 0} (P : A → Type 0) {w : A → Written} {m : Read A}
    → ((x : A) → P x → RoundTrip (w x) m x)
    → (xs : List A) → All P xs
    → RoundTrip (write_many w xs) (read_many (length xs) m) xs
unfolding write_many read_many
RoundTrip-many P h [] fits = RoundTrip-return []
RoundTrip-many P h (x ∷ xs) (fx, fits) =
    RoundTrip-bind _ (h x fx) (RoundTrip-map (λ rest. x ∷ rest) (RoundTrip-many P h xs fits))

-- Two's complement in 2 * h values.
wrap_lt : (h : ℕ) (i : ℤ) → in_signed_range h i ≡ true → wrap (2 * h) i < 2 * h
unfolding wrap
wrap_lt h (pos n) e = grind arith
wrap_lt h (negsuc n) e = grind arith

signed-wrap : (h : ℕ) (i : ℤ) → in_signed_range h i ≡ true → signed h (wrap (2 * h) i) ≡ i
unfolding wrap signed
signed-wrap h (pos n) e =
    rw (mod-eq_of_lt {n = n} {m = 2 * h} (omega (arith, ltb→lt n h e))) (rw (e, signed) refl)
signed-wrap h (negsuc n) e = rw (mod-eq_of_lt {n = n} {m = 2 * h} (omega (arith, ltb→lt n h e))) (
    rw (le→ltb (2 * h - 1 - n) h (omega (arith, ltb→lt n h e)), signed)
      (ap negsuc (omega (arith, ltb→lt n h e))))

-- The signed reads, at the sizes of which half is a number.
pub RoundTrip-int :
    (n : ℕ) (i : ℤ) → 256 ^ n ≡ 2 * (256 ^ n / 2) → RoundTrip (write_int n i) (read_int n) i
unfolding write_int read_int
RoundTrip-int n i even = RoundTrip-guard _ (le_bytes n (wrap (256 ^ n) i)) λ e.
    let h : ℕ = 256 ^ n / 2 in
    subst (Reads (read_int n) (le_bytes n (wrap (256 ^ n) i)))
      (subst (λ k. signed h (wrap k i) ≡ i) (sym even) (signed-wrap h i e))
      (subst (λ bs. Reads (read_int n) bs (signed h (wrap (256 ^ n) i))) (append-nil _)
        (Reads-bind _
          (Reads-le_bytes n (wrap (256 ^ n) i)
            (subst (λ k. wrap k i < k) (sym even) (wrap_lt h i e)))
          (Reads-return (signed h (wrap (256 ^ n) i)))))

pub RoundTrip-bigint : (n : ℕ) → RoundTrip (write_uint64 (pos n)) (read_uint 8) n
unfolding write_unsigned
RoundTrip-bigint n = RoundTrip-uint 8 n

pub RoundTrip-unsigned : (n : ℕ) (i : ℤ) → RoundTrip (write_unsigned n i) (read_unsigned n) i
unfolding write_unsigned read_unsigned
RoundTrip-unsigned n (pos v) = RoundTrip-map pos (RoundTrip-uint n v)
RoundTrip-unsigned n (negsuc v) = RoundTrip-err out_of_range
