-- ===== src/Uadp/Stream/Buffer.antt =====
-- The buffer of BinaryStream in write mode, in lib/uadp-encoder.js: _ensureWrite grows it. What
-- Buffer.allocUnsafe puts into a new buffer is an argument.
use node_red_contrib_opcua_s.Prelude.{
  ℕ, zero, suc, ◌+◌, ◌*◌, ◌≤◌, max, ltb, ◌==◌, if◌then◌else◌, List, [], ◌∷◌, ◌++◌, length, take,
  ◌≡◌, refl, sym, ap, ◌∙◌, arith, inl, inr, Bool-cases, append-nil, append_assoc,
}

-- `_buf`, all of it, and `_cursor`.
pub record WriteBuffer : Type 0 where
  pub buf : List ℕ
  pub cursor : ℕ

-- `source.copy(target, position)`: what does not fit the target is dropped.
unfoldable pub overwrite : List ℕ → ℕ → List ℕ → List ℕ
overwrite [] position bytes = []
overwrite (t ∷ ts) zero [] = t ∷ ts
overwrite (t ∷ ts) zero (b ∷ bytes) = b ∷ overwrite ts zero bytes
overwrite (t ∷ ts) (suc position) bytes = t ∷ overwrite ts position bytes

-- The bytes in front of the cursor.
abbrev pub to_buffer : WriteBuffer → List ℕ
to_buffer b = take b.cursor b.buf

module _ (alloc_unsafe : ℕ → List ℕ) where
  -- `Buffer.allocUnsafe(size || 1500)`
  abbrev pub new_buffer : ℕ → WriteBuffer
  new_buffer size = record { buf = alloc_unsafe (if size == 0 then 1500 else size); cursor = 0 }

  unfoldable pub ensure_write : ℕ → WriteBuffer → WriteBuffer
  ensure_write n b =
      if ltb (length b.buf) (b.cursor + n)
      then record b {
        buf =
            overwrite (alloc_unsafe (max (length b.buf * 2) (b.cursor + n))) 0
              (take b.cursor b.buf);
      }
      else b

  -- A write at the cursor, which it moves.
  unfoldable pub put : List ℕ → WriteBuffer → WriteBuffer
  put bytes b =
      let room = ensure_write (length bytes) b in
      record { buf = overwrite room.buf room.cursor bytes; cursor = room.cursor + length bytes }

  unfoldable pub put_all : List (List ℕ) → WriteBuffer → WriteBuffer
  put_all [] b = b
  put_all (bytes ∷ l) b = put_all l (put bytes b)

abbrev pub joined : List (List ℕ) → List ℕ
joined [] = []
joined (bytes ∷ l) = bytes ++ joined l

length-overwrite :
    (target : List ℕ) (position : ℕ) (bytes : List ℕ)
    → length (overwrite target position bytes) ≡ length target
unfolding overwrite
length-overwrite [] position bytes = refl
length-overwrite (t ∷ ts) zero [] = refl
length-overwrite (t ∷ ts) zero (b ∷ bytes) = ap suc (length-overwrite ts zero bytes)
length-overwrite (t ∷ ts) (suc position) bytes = ap suc (length-overwrite ts position bytes)

-- Bytes that fit are there, behind what was in front of the position.
take-overwrite :
    (target : List ℕ) (position : ℕ) (bytes : List ℕ) (end : ℕ)
    → end ≡ position + length bytes
    → end ≤ length target
    → take end (overwrite target position bytes) ≡ take position target ++ bytes
unfolding overwrite
take-overwrite target zero [] zero e h = refl
take-overwrite target zero [] (suc end) e h = absurd (omega (arith, e))
take-overwrite target zero (b ∷ bytes) zero e h = absurd (omega (arith, e))
take-overwrite [] zero (b ∷ bytes) (suc end) e h = absurd (omega arith)
take-overwrite (t ∷ ts) zero (b ∷ bytes) (suc end) e h =
    ap (◌∷◌ b) (take-overwrite ts zero bytes end (omega (arith, e)) (omega arith))
take-overwrite target (suc position) bytes zero e h = absurd (omega (arith, e))
take-overwrite [] (suc position) bytes (suc end) e h = absurd (omega arith)
take-overwrite (t ∷ ts) (suc position) bytes (suc end) e h =
    ap (◌∷◌ t) (take-overwrite ts position bytes end (omega (arith, e)) (omega arith))

length-take_all : (n : ℕ) (l : List ℕ) → n ≤ length l → length (take n l) ≡ n
length-take_all zero l h = refl
length-take_all (suc n) [] h = absurd (omega arith)
length-take_all (suc n) (x ∷ xs) h = ap suc (length-take_all n xs (omega arith))

-- A buffer that kept its bytes and its cursor, has room for `n` more and did not shrink.
record IsRoomy (n : ℕ) (b grown : WriteBuffer) : Type 0 where
  same_cursor : grown.cursor ≡ b.cursor
  same_bytes : to_buffer grown ≡ to_buffer b
  room : b.cursor + n ≤ length grown.buf
  no_shrink : length b.buf ≤ length grown.buf

module _ (alloc_unsafe : ℕ → List ℕ) (sized : (n : ℕ) → length (alloc_unsafe n) ≡ n) where
  ensure_write-IsRoomy :
      (n : ℕ) (b : WriteBuffer)
      → b.cursor ≤ length b.buf
      → IsRoomy n b (ensure_write alloc_unsafe n b)
  unfolding ensure_write
  ensure_write-IsRoomy n b inside = elim (Bool-cases (ltb (length b.buf) (b.cursor + n))) [
    | inl e ↦
        let size = max (length b.buf * 2) (b.cursor + n) in
        let fresh = alloc_unsafe size in
        let full : length fresh ≡ size = sized size in
        let front = length-take_all b.cursor b.buf inside in
        let same = length-overwrite fresh 0 (take b.cursor b.buf) in
        let kept =
          take-overwrite fresh 0 (take b.cursor b.buf) b.cursor (omega (arith, front))
            (omega (arith, full)) in
        rw (e, ensure_write)
          (record {
            same_cursor = refl;
            same_bytes = kept;
            room = omega (arith, same, full);
            no_shrink = omega (arith, same, full);
          })
    | inr e ↦
        rw (e, ensure_write)
          (record {
            same_cursor = refl;
            same_bytes = refl;
            room = ground arith;
            no_shrink = omega arith;
          })
  ]

  put_lem :
      (bytes : List ℕ) (b : WriteBuffer)
      → b.cursor ≤ length b.buf
      → ((put alloc_unsafe bytes b).cursor ≤ length (put alloc_unsafe bytes b).buf)
        × (length b.buf ≤ length (put alloc_unsafe bytes b).buf)
        × (to_buffer (put alloc_unsafe bytes b) ≡ to_buffer b ++ bytes)
  unfolding put
  put_lem bytes b inside =
      let r = ensure_write alloc_unsafe (length bytes) b in
      let h = ensure_write-IsRoomy (length bytes) b inside in
      let same = length-overwrite r.buf r.cursor bytes in
      (
        omega (arith, same, h.room, h.same_cursor),
        omega (arith, same, h.no_shrink),
        take-overwrite r.buf r.cursor bytes (r.cursor + length bytes) refl
              (omega (arith, h.room, h.same_cursor))
            ∙ ap (λ front. front ++ bytes) h.same_bytes,
      )

  -- Where allocUnsafe gives buffers of the size asked for, with whatever they hold, and the cursor is
  -- inside the buffer: however much is written, the cursor stays inside the buffer, the buffer never
  -- shrinks, and toBuffer returns the bytes in front of the former cursor and all the new ones in
  -- their order, also where the buffer was replaced by a larger one.
  pub put_all-to_buffer :
      (l : List (List ℕ)) (b : WriteBuffer)
      → b.cursor ≤ length b.buf
      → ((put_all alloc_unsafe l b).cursor ≤ length (put_all alloc_unsafe l b).buf)
        × (length b.buf ≤ length (put_all alloc_unsafe l b).buf)
        × (to_buffer (put_all alloc_unsafe l b) ≡ to_buffer b ++ joined l)
  unfolding put_all
  put_all-to_buffer [] b inside = (inside, omega arith, sym (append-nil (to_buffer b)))
  put_all-to_buffer (bytes ∷ l) b inside =
      let (room, more, kept_first) = put_lem bytes b inside in
      let (stays, grown, kept) = put_all-to_buffer l (put alloc_unsafe bytes b) room in
      (
        stays,
        omega (arith, more, grown),
        kept ∙ ap (λ w. w ++ joined l) kept_first ∙ append_assoc (to_buffer b) bytes (joined l),
      )
