-- ===== src/Uadp/DateTime.antt =====
-- writeDateTime and readDateTime of BinaryStream in lib/uadp-encoder.js. A valid Date is its
-- `getTime()`, the milliseconds since 1970.
use node_red_contrib_opcua_s.Prelude.{
  ℕ, suc, ◌+◌, ◌-◌, ◌*◌, ◌/◌, ltb, if◌then◌else◌, ◌≡◌, subst, arith, ◌<◌, ◌≤◌, Bool-cases, inl, inr,
  lt→ltb, ltb→lt, le→ltb,
}
use node_red_contrib_opcua_s.Prelude.Int.{ℤ, pos, negsuc, sub_ℕ}
use node_red_contrib_opcua_s.Uadp.Result.{Written, err, out_of_range}
use node_red_contrib_opcua_s.Uadp.Stream.{
  Read, ◌>>=◌, return, read_uint64, write_uint64, write_unsigned,
}
use node_red_contrib_opcua_s.Uadp.Stream.RoundTrip.{
  RoundTrip, RoundTrip-map, RoundTrip-bigint, RoundTrip-err,
}

abbrev pub Date : Type 0
Date = ℤ

-- 1601-01-01 to 1970-01-01 in ms, and 100 ns ticks per ms.
abbrev pub filetime_epoch_offset_ms : ℕ
filetime_epoch_offset_ms = 11644473600000

abbrev pub ticks_per_ms : ℕ
ticks_per_ms = 10000

-- `(ms + FILETIME_EPOCH_OFFSET_MS) * DATETIME_TICKS_PER_MS`
unfoldable pub date_ticks : Date → ℤ
date_ticks (pos n) = pos ((n + filetime_epoch_offset_ms) * ticks_per_ms)
date_ticks (negsuc n) =
    if ltb n filetime_epoch_offset_ms
    then pos ((filetime_epoch_offset_ms - suc n) * ticks_per_ms)
    else negsuc ((suc n - filetime_epoch_offset_ms) * ticks_per_ms - 1)

unfoldable pub write_date_time : Date → Written
write_date_time d = write_uint64 (date_ticks d)

-- `Number(ticks / DATETIME_TICKS_PER_MS) - Number(FILETIME_EPOCH_OFFSET_MS)`; a quotient of a UInt64
-- by 10000 is below 2 ^ 53, so the numbers are exact and the Date is valid.
unfoldable pub ticks_date : ℕ → Date
ticks_date t = sub_ℕ (t / ticks_per_ms) filetime_epoch_offset_ms

unfoldable pub read_date_time : Read Date
read_date_time = do t ← read_uint64; return (ticks_date t)

ticks_date-pos : (n : ℕ) → ticks_date ((n + filetime_epoch_offset_ms) * ticks_per_ms) ≡ pos n
unfolding ticks_date
ticks_date-pos n = ground arith

ticks_date-negsuc :
    (n : ℕ)
    → n < filetime_epoch_offset_ms
    → ticks_date ((filetime_epoch_offset_ms - suc n) * ticks_per_ms) ≡ negsuc n
unfolding ticks_date
ticks_date-negsuc n h = ground arith

date_ticks-negsuc :
    (n : ℕ)
    → n < filetime_epoch_offset_ms
    → date_ticks (negsuc n) ≡ pos ((filetime_epoch_offset_ms - suc n) * ticks_per_ms)
unfolding date_ticks
date_ticks-negsuc n h = rw (lt→ltb n filetime_epoch_offset_ms h)

date_ticks-before :
    (n : ℕ) → filetime_epoch_offset_ms ≤ n → write_uint64 (date_ticks (negsuc n)) ≡ err out_of_range
unfolding date_ticks write_unsigned
date_ticks-before n h = rw (le→ltb n filetime_epoch_offset_ms h)

back_from :
    (t : ℕ) (d : Date) → ticks_date t ≡ d → RoundTrip (write_uint64 (pos t)) read_date_time d
unfolding read_date_time
back_from t d e =
    subst (RoundTrip (write_uint64 (pos t)) read_date_time) e
      (RoundTrip-map ticks_date (RoundTrip-bigint t))

-- Every date that can be written is read back exactly, also before 1970.
pub RoundTrip-date_time : (d : Date) → RoundTrip (write_date_time d) read_date_time d
unfolding write_date_time
RoundTrip-date_time (pos n) = unfold date_ticks in back_from _ (pos n) (ticks_date-pos n)
RoundTrip-date_time (negsuc n) = elim (Bool-cases (ltb n filetime_epoch_offset_ms)) [
  | inl e ↦
      let h = ltb→lt n filetime_epoch_offset_ms e in
      rw (date_ticks-negsuc n h) (back_from _ (negsuc n) (ticks_date-negsuc n h))
  | inr e ↦ rw (date_ticks-before n (ground arith)) (RoundTrip-err out_of_range)
]
