-- ===== src/Wal/Record/RoundTrip.antt =====
-- `decode_record` reads back what `encode_record` wrote, whatever follows it.
use cachedb.Prelude.{
  ℕ, ◌+◌, ◌-◌, ◌^◌, ◌<◌, ◌≤◌, ◌≡◌, refl, sym, ap, ◌∙◌, true, false, [], ◌++◌, arith, ltb, ◌==◌,
  if◌then◌else◌, length, get_or, take, drop, length-append, append_assoc, take-append_seam,
  drop-append_seam, drop-drop, inl, inr, Bool-cases,
}
use cachedb.Prelude.Int.{ℤ, pos, IsI64, to_u64, to_i64, to_i64-to_u64, to_u64-lt}
use cachedb.Prelude.Bytes.{Bytes}
use cachedb.Prelude.Endian.{put_le, load_u32, load_u64, length-put_le, load_u64-put_le}
use cachedb.Wal.Crc.{crc32, crc32-lt}
use cachedb.Wal.Record.{
  Op, k_set, k_delete, Record, DecodeResult, ok, k_set_ex_op_byte, op_code, op_of_code,
  carries_expiry, extra_size, decode_fields, decode_record,
}
use cachedb.Wal.Record.Layout.{
  payload, frame, length-frame, frame-crc, frame_timestamp, frame_op_byte, frame_klen, frame_vlen,
  frame-body, frame-payload, wire_op, wire_body, covered_bytes, record_bytes, encode, encode-append,
}

-- What the format can hold: 64-bit times, and lengths that fit their four bytes.
pub record IsEncodable (r : Record) : Type 0 where
  pub timestamp : IsI64 r.timestamp_ms
  pub expiry : IsI64 r.expires_at_ms
  pub klen : length r.key < 2 ^ 32
  pub vlen : length r.value < 2 ^ 32

-- An expiry is dropped where it has no place: with a delete.
abbrev pub canonical : Record → Record
canonical r = record r {
  expires_at_ms = if carries_expiry r.op r.expires_at_ms then r.expires_at_ms else pos 0;
}

pub decode_record-frame :
    (crc timestamp op_byte klen vlen : ℕ) (body : Bytes)
    → crc < 2 ^ 32
    → timestamp < 2 ^ 64
    → klen < 2 ^ 32
    → vlen < 2 ^ 32
    → let input = frame crc timestamp op_byte klen vlen body in
      decode_record input ≡ decode_fields input crc timestamp op_byte klen vlen
decode_record-frame crc ts op klen vlen body h1 h2 h3 h4 =
    step (frame crc ts op klen vlen body) crc ts op klen vlen
      (omega (arith, length-frame crc ts op klen vlen body)) (frame-crc crc ts op klen vlen body h1)
      (frame_timestamp crc ts op klen vlen body h2) (frame_op_byte crc ts op klen vlen body)
      (frame_klen crc ts op klen vlen body h3) (frame_vlen crc ts op klen vlen body h4)
  where
    step :
        (input : Bytes) (c t o k v : ℕ)
        → 21 ≤ length input
        → load_u32 input ≡ c
        → load_u64 (drop 4 input) ≡ t
        → get_or input 12 0 ≡ o
        → load_u32 (drop 13 input) ≡ k
        → load_u32 (drop 17 input) ≡ v
        → decode_record input ≡ decode_fields input c t o k v
    step input c t o k v h e1 e2 e3 e4 e5 = unfold decode_record in ground arith

module _ (timestamp op_byte : ℕ) (prefix key value rest : Bytes)
    (sized : length prefix ≡ extra_size op_byte) (known : op_byte ≤ k_set_ex_op_byte) where
  abbrev body : Bytes
  body = prefix ++ (key ++ value)

  abbrev crc : ℕ
  crc = crc32 (payload timestamp op_byte (length key) (length value) body)

  abbrev input : Bytes
  input = frame crc timestamp op_byte (length key) (length value) (body ++ rest)

  abbrev total : ℕ
  total = 21 + extra_size op_byte + length key + length value

  length-body : length body ≡ extra_size op_byte + length key + length value
  length-body = omega (arith, sized, length-append prefix (key ++ value), length-append key value)

  complete : ltb (length input) total ≡ false
  complete = ground (
    arith,
    length-frame crc timestamp op_byte (length key) (length value) (body ++ rest),
    length-append body rest,
    length-body,
  )

  length-payload : length (payload timestamp op_byte (length key) (length value) body) ≡ total - 4
  unfolding put_le
  length-payload = omega (arith, length-body)

  covered_lem :
      take (total - 4) (drop 4 input) ≡ payload timestamp op_byte (length key) (length value) body
  covered_lem =
      rw (frame-payload crc timestamp op_byte (length key) (length value) (body ++ rest)) (
        rw split (
          take-append_seam (total - 4) (payload timestamp op_byte (length key) (length value) body)
            rest length-payload))
    where
      split :
          payload timestamp op_byte (length key) (length value) (body ++ rest)
          ≡ payload timestamp op_byte (length key) (length value) body ++ rest
      split = unfold put_le in refl

  from_body : drop (21 + extra_size op_byte) input ≡ key ++ (value ++ rest)
  from_body =
      sym (drop-drop 21 (extra_size op_byte) (21 + extra_size op_byte) input refl)
      ∙ ap (drop (extra_size op_byte))
          (frame-body crc timestamp op_byte (length key) (length value) (body ++ rest))
      ∙ ap (drop (extra_size op_byte)) (simp append_assoc)
      ∙ drop-append_seam (extra_size op_byte) prefix (key ++ (value ++ rest)) sized

  key_lem : take (length key) (drop (21 + extra_size op_byte) input) ≡ key
  key_lem = rw from_body (take-append_seam (length key) key (value ++ rest) refl)

  value_lem : take (length value) (drop (21 + extra_size op_byte + length key) input) ≡ value
  value_lem =
      rw
        (
          ← drop-drop (21 + extra_size op_byte) (length key) (21 + extra_size op_byte + length key)
              input refl,
          from_body,
          drop-append_seam (length key) key (value ++ rest) refl,
        )
        (take-append_seam (length value) value rest refl)

  crc_agrees : (crc32 (take (total - 4) (drop 4 input)) == crc) ≡ true
  crc_agrees = rw covered_lem (ground arith)

  op_known : ltb k_set_ex_op_byte op_byte ≡ false
  op_known = ground arith

  decode_fields_lem :
      decode_fields input crc timestamp op_byte (length key) (length value) ≡ record {
        status = ok;
        consumed = total;
        decoded = record {
          op = if op_byte == k_set_ex_op_byte then k_set else op_of_code op_byte;
          timestamp_ms = to_i64 timestamp;
          expires_at_ms =
              if op_byte == k_set_ex_op_byte
              then to_i64 (load_u64 ((prefix ++ (key ++ value)) ++ rest))
              else pos 0;
          key = key;
          value = value;
        };
      }
  decode_fields_lem =
      run input crc timestamp op_byte (length key) (length value) complete crc_agrees op_known
        (frame-body crc timestamp op_byte (length key) (length value) (body ++ rest)) key_lem
        value_lem
    where
      run :
          (given : Bytes) (c t o k v : ℕ) {after ks vs : Bytes}
          → ltb (length given) (21 + extra_size o + k + v) ≡ false
          → (crc32 (take (21 + extra_size o + k + v - 4) (drop 4 given)) == c) ≡ true
          → ltb k_set_ex_op_byte o ≡ false
          → drop 21 given ≡ after
          → take k (drop (21 + extra_size o) given) ≡ ks
          → take v (drop (21 + extra_size o + k) given) ≡ vs
          → decode_fields given c t o k v ≡ record {
            status = ok;
            consumed = 21 + extra_size o + k + v;
            decoded = record {
              op = if o == k_set_ex_op_byte then k_set else op_of_code o;
              timestamp_ms = to_i64 t;
              expires_at_ms = if o == k_set_ex_op_byte then to_i64 (load_u64 after) else pos 0;
              key = ks;
              value = vs;
            };
          }
      run given c t o k v e1 e2 e3 e4 e5 e6 = unfold decode_fields in ground arith

-- The result of a decode that reads `op_byte`, a timestamp, and `after` behind the header.
abbrev read_back : ℕ → ℕ → Bytes → Bytes → Bytes → DecodeResult
read_back timestamp op_byte after key value = record {
  status = ok;
  consumed = 21 + extra_size op_byte + length key + length value;
  decoded = record {
    op = if op_byte == k_set_ex_op_byte then k_set else op_of_code op_byte;
    timestamp_ms = to_i64 timestamp;
    expires_at_ms = if op_byte == k_set_ex_op_byte then to_i64 (load_u64 after) else pos 0;
    key = key;
    value = value;
  };
}

pub record_bytes-frame :
    (r : Record) (rest : Bytes)
    → record_bytes r ++ rest
      ≡ frame
          (crc32 (covered_bytes r))
          (to_u64 r.timestamp_ms)
          (wire_op r)
          (length r.key)
          (length r.value)
          (wire_body r ++ rest)
unfolding record_bytes covered_bytes put_le
record_bytes-frame r rest = refl

decode-record_bytes :
    (r : Record) (rest : Bytes) (op_byte : ℕ) (prefix : Bytes)
    → wire_op r ≡ op_byte
    → wire_body r ≡ prefix ++ (r.key ++ r.value)
    → length prefix ≡ extra_size op_byte
    → op_byte ≤ k_set_ex_op_byte
    → IsEncodable r
    → decode_record (record_bytes r ++ rest)
      ≡ read_back
          (to_u64 r.timestamp_ms)
          op_byte
          ((prefix ++ (r.key ++ r.value)) ++ rest)
          r.key
          r.value
decode-record_bytes r rest op_byte prefix e1 e2 sized known h = rw (record_bytes-frame r rest) (
    decode_record-frame (crc32 (covered_bytes r)) (to_u64 r.timestamp_ms) (wire_op r) (length r.key)
      (length r.value) (wire_body r ++ rest) (crc32-lt (covered_bytes r))
      (to_u64-lt r.timestamp_ms h.timestamp) h.klen h.vlen
    ∙ (unfold covered_bytes in
        rw (e1, e2)
          (decode_fields_lem (to_u64 r.timestamp_ms) op_byte prefix r.key r.value rest sized
            known)))

carries-is_set : (op : Op) (x : ℤ) → carries_expiry op x ≡ true → op ≡ k_set
unfolding carries_expiry
carries-is_set k_set x h = refl
carries-is_set k_delete x h = cc

op_of_code-op_code : (op : Op) → op_of_code (op_code op) ≡ op
op_of_code-op_code k_set = refl
op_of_code-op_code k_delete = refl

op_code-le : (op : Op) → op_code op ≤ 1
op_code-le k_set = omega arith
op_code-le k_delete = omega arith

plain_op : (op : Op) → (op_code op == k_set_ex_op_byte) ≡ false
plain_op k_set = refl
plain_op k_delete = refl

-- The number of bytes that a record takes.
abbrev pub size : Record → ℕ
size r = 21 + extra_size (wire_op r) + length r.key + length r.value

pub length-record_bytes : (r : Record) → length (record_bytes r) ≡ size r
unfolding record_bytes covered_bytes put_le
length-record_bytes r = elim (Bool-cases (carries_expiry r.op r.expires_at_ms)) [
  | inl e ↦ rw (e, if◌then◌else◌) (omega (arith, length-append r.key r.value))
  | inr e ↦ rw (e, if◌then◌else◌) (ground (arith, plain_op r.op, length-append r.key r.value))
]

loaded_expiry :
    (x : ℤ) (tail rest : Bytes)
    → IsI64 x
    → to_i64 (load_u64 ((put_le 8 (to_u64 x) ++ tail) ++ rest)) ≡ x
loaded_expiry x tail rest h =
    rw
      (
        append_assoc (put_le 8 (to_u64 x)) tail rest,
        load_u64-put_le (to_u64 x) (tail ++ rest) (to_u64-lt x h),
      )
      (to_i64-to_u64 x h)

pub decode_record-record_bytes :
    (r : Record) (rest : Bytes)
    → IsEncodable r
    → decode_record (record_bytes r ++ rest)
      ≡ record { status = ok; consumed = size r; decoded = canonical r }
decode_record-record_bytes r rest h = elim (Bool-cases (carries_expiry r.op r.expires_at_ms)) [
  | inl e ↦
      decode-record_bytes r rest 2 (put_le 8 (to_u64 r.expires_at_ms)) (rw (e, if◌then◌else◌))
        (rw (e, if◌then◌else◌)) (length-put_le 8 (to_u64 r.expires_at_ms)) (omega arith) h
      ∙ ground (
        arith,
        e,
        carries-is_set r.op r.expires_at_ms,
        to_i64-to_u64 r.timestamp_ms h.timestamp,
        loaded_expiry r.expires_at_ms (r.key ++ r.value) rest h.expiry,
      )
  | inr e ↦
      decode-record_bytes r rest (op_code r.op) [] (rw (e, if◌then◌else◌)) (rw (e, if◌then◌else◌))
        (ground (arith, plain_op r.op)) (omega (arith, op_code-le r.op)) h
      ∙ ground (
        arith,
        e,
        plain_op r.op,
        op_of_code-op_code r.op,
        to_i64-to_u64 r.timestamp_ms h.timestamp,
      )
]

-- Decoding what `encode_record` wrote, whatever bytes follow, succeeds, consumes exactly the bytes
-- written and gives back the record, less an expiry that a delete cannot carry.
pub decode_record-encode :
    (r : Record) (rest : Bytes)
    → IsEncodable r
    → decode_record (encode [] r ++ rest)
      ≡ record { status = ok; consumed = length (encode [] r); decoded = canonical r }
decode_record-encode r rest h =
    rw (encode-append [] r, length-record_bytes r) (decode_record-record_bytes r rest h)
