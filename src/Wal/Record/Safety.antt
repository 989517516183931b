-- ===== src/Wal/Record/Safety.antt =====
-- `decode_record` on bytes that nobody vouches for, and on a record that was cut short.
use cachedb.Prelude.{
  ℕ, ◌+◌, ◌-◌, ◌<◌, ◌≤◌, ◌≡◌, refl, sym, ◌∙◌, ap, ◌⊎◌, [], ◌++◌, arith, ltb, if◌then◌else◌, length,
  take, drop, length-append, append_assoc, length-take, take-append_past, inl, inr, Bool-cases,
}
use cachedb.Prelude.Int.{to_u64, to_u64-lt}
use cachedb.Prelude.Bytes.{Bytes}
use cachedb.Prelude.Endian.{put_le, load_u32}
use cachedb.Wal.Crc.{crc32, crc32-lt}
use cachedb.Wal.Record.{
  Record, DecodeResult, ok, incomplete, corrupt, failed, extra_size, decode_fields, decode_record,
}
use cachedb.Wal.Record.Layout.{frame, length-frame, wire_op, wire_body, covered_bytes, record_bytes}
use cachedb.Wal.Record.RoundTrip.{IsEncodable, decode_record-frame, size}

-- What a caller may rely on for any input: a success stays inside the buffer and makes progress,
-- its checksum covers what was consumed, and a failure consumes nothing.
abbrev pub Sound : Bytes → DecodeResult → Type 0
Sound input r =
    ((r.status ≡ ok)
      × (21 ≤ r.consumed)
      × (r.consumed ≤ length input)
      × (21 + length r.decoded.key + length r.decoded.value ≤ r.consumed)
      × (crc32 (take (r.consumed - 4) (drop 4 input)) ≡ load_u32 input))
    ⊎ (((r.status ≡ incomplete) ⊎ (r.status ≡ corrupt)) × (r.consumed ≡ 0))

take_within : (n : ℕ) (xs : Bytes) → length (take n xs) ≤ n
take_within n xs = omega (arith, length-take n xs)

decode_fields-Sound :
    (input : Bytes) (timestamp op_byte klen vlen : ℕ)
    → Sound input (decode_fields input (load_u32 input) timestamp op_byte klen vlen)
unfolding decode_fields
decode_fields-Sound input timestamp op_byte klen vlen = ground (
  arith,
  take_within klen (drop (21 + extra_size op_byte) input),
  take_within vlen (drop (21 + extra_size op_byte + klen) input),
)

-- Whatever the bytes, `decode_record` answers soundly: a record that it accepts takes at least a
-- header and lies inside the buffer, key and value fit what it consumed, and the stored checksum
-- is that of the bytes behind it; a refusal consumes nothing.
pub decode_record-Sound : (input : Bytes) → Sound input (decode_record input)
decode_record-Sound input = elim (Bool-cases (ltb (length input) 21)) [
  | inl e ↦ unfold decode_record in rw (e, if◌then◌else◌) (inr (inl refl, refl))
  | inr e ↦ unfold decode_record in rw (e, if◌then◌else◌) (decode_fields-Sound input _ _ _ _)
]

-- A frame is its header and its body.
frame-split :
    (crc timestamp op_byte klen vlen : ℕ) (body : Bytes)
    → frame crc timestamp op_byte klen vlen body ≡ frame crc timestamp op_byte klen vlen [] ++ body
unfolding put_le
frame-split crc timestamp op_byte klen vlen body = refl

short_header : (input : Bytes) → length input < 21 → decode_record input ≡ failed incomplete
unfolding decode_record
short_header input h = ground arith

short_body :
    (input : Bytes) (crc timestamp op_byte klen vlen : ℕ)
    → length input < 21 + extra_size op_byte + klen + vlen
    → decode_fields input crc timestamp op_byte klen vlen ≡ failed incomplete
unfolding decode_fields
short_body input crc timestamp op_byte klen vlen h = ground arith

module _ (r : Record) (h : IsEncodable r) where
  header : Bytes → Bytes
  header =
      frame (crc32 (covered_bytes r)) (to_u64 r.timestamp_ms) (wire_op r) (length r.key)
        (length r.value)

  header-split : (body : Bytes) → header body ≡ header [] ++ body
  unfolding header
  header-split body = frame-split _ _ _ _ _ body

  length-header : (body : Bytes) → length (header body) ≡ 21 + length body
  unfolding header
  length-header body = length-frame _ _ _ _ _ body

  record_bytes-header : record_bytes r ≡ header (wire_body r)
  unfolding header record_bytes covered_bytes
  record_bytes-header = refl

  take-record_bytes :
      (n m : ℕ) → 21 + m ≡ n → take n (record_bytes r) ≡ header (take m (wire_body r))
  take-record_bytes n m e =
      ap (take n) (record_bytes-header ∙ header-split (wire_body r))
      ∙ take-append_past 21 m n (header []) (wire_body r) (length-header []) e
      ∙ sym (header-split (take m (wire_body r)))

  decode_record-header :
      (body : Bytes)
      → length body < extra_size (wire_op r) + length r.key + length r.value
      → decode_record (header body) ≡ failed incomplete
  unfolding header
  decode_record-header body short =
      decode_record-frame (crc32 (covered_bytes r)) (to_u64 r.timestamp_ms) (wire_op r)
        (length r.key) (length r.value) body (crc32-lt (covered_bytes r))
        (to_u64-lt r.timestamp_ms h.timestamp) h.klen h.vlen
      ∙ short_body _ _ _ _ _ _ (omega (arith, length-header body))

  -- Cut short anywhere, even between two fields of the header, a record is incomplete, not corrupt.
  pub decode_record-take :
      (n : ℕ) → n < size r → decode_record (take n (record_bytes r)) ≡ failed incomplete
  decode_record-take n short = elim (Bool-cases (ltb n 21)) [
    | inl e ↦
        short_header (take n (record_bytes r)) (ground (arith, length-take n (record_bytes r)))
    | inr e ↦ rw (take-record_bytes n (n - 21) (ground arith)) (
        decode_record-header (take (n - 21) (wire_body r))
          (ground (arith, take_within (n - 21) (wire_body r))))
  ]

  -- Nor does it become whole by bytes of other records behind it, while they are too few.
  pub decode_record-torn :
      (n : ℕ) (later : Bytes)
      → 21 ≤ n
      → n + length later < size r
      → decode_record (take n (record_bytes r) ++ later) ≡ failed incomplete
  decode_record-torn n later past short =
      let m = n - 21 in
      ap (λ b. decode_record (b ++ later))
        (take-record_bytes n m (omega arith) ∙ header-split (take m (wire_body r)))
      ∙ ap decode_record (
          append_assoc (header []) (take m (wire_body r)) later
          ∙ sym (header-split (take m (wire_body r) ++ later)))
      ∙ decode_record-header (take m (wire_body r) ++ later)
          (omega (arith, length-append (take m (wire_body r)) later, take_within m (wire_body r)))
