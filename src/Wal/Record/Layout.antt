-- ===== src/Wal/Record/Layout.antt =====
-- The bytes of a record as one expression, and what the loads of `decode_record` find in them.
use cachedb.Prelude.{
  ℕ, ◌+◌, ◌^◌, ◌<◌, ◌≡◌, refl, ap, [], ◌∷◌, ◌++◌, arith, if◌then◌else◌, length, get_or, drop,
  length-append, append_assoc, inl, inr, Bool-cases, take-append_seam, drop-append_seam,
}
use cachedb.Prelude.Int.{to_u64}
use cachedb.Prelude.Bytes.{Bytes}
use cachedb.Prelude.Endian.{
  put_le, put_u32, put_u64, load_u32, load_u64, length-put_le, load_u32-put_le, load_u64-put_le,
}
use cachedb.Wal.Crc.{crc32}
use cachedb.Wal.Record.{
  Record, k_set_ex_op_byte, op_code, carries_expiry, replace, put_covered, encode_record,
}

-- timestamp, op byte, lengths, and what follows the header
abbrev pub payload : ℕ → ℕ → ℕ → ℕ → Bytes → Bytes
payload timestamp op_byte klen vlen body =
    put_le 8 timestamp ++ (op_byte ∷ (put_le 4 klen ++ (put_le 4 vlen ++ body)))

abbrev pub frame : ℕ → ℕ → ℕ → ℕ → ℕ → Bytes → Bytes
frame crc timestamp op_byte klen vlen body =
    put_le 4 crc ++ payload timestamp op_byte klen vlen body

module _ (crc timestamp op_byte klen vlen : ℕ) (body : Bytes) where
  pub length-frame : length (frame crc timestamp op_byte klen vlen body) ≡ 21 + length body
  unfolding put_le
  length-frame = omega arith

  pub frame-crc : crc < 2 ^ 32 → load_u32 (frame crc timestamp op_byte klen vlen body) ≡ crc
  frame-crc h = load_u32-put_le crc _ h

  pub frame_timestamp :
      timestamp < 2 ^ 64
      → load_u64 (drop 4 (frame crc timestamp op_byte klen vlen body)) ≡ timestamp
  frame_timestamp h =
      rw
        (drop-append_seam 4 (put_le 4 crc) (payload timestamp op_byte klen vlen body)
          (length-put_le 4 crc))
        (load_u64-put_le timestamp _ h)

  pub frame_op_byte : get_or (frame crc timestamp op_byte klen vlen body) 12 0 ≡ op_byte
  unfolding put_le
  frame_op_byte = refl

  from_klen :
      drop 13 (frame crc timestamp op_byte klen vlen body)
      ≡ put_le 4 klen ++ (put_le 4 vlen ++ body)
  unfolding put_le
  from_klen = refl

  from_vlen : drop 17 (frame crc timestamp op_byte klen vlen body) ≡ put_le 4 vlen ++ body
  unfolding put_le
  from_vlen = refl

  pub frame-body : drop 21 (frame crc timestamp op_byte klen vlen body) ≡ body
  unfolding put_le
  frame-body = refl

  pub frame_klen :
      klen < 2 ^ 32 → load_u32 (drop 13 (frame crc timestamp op_byte klen vlen body)) ≡ klen
  frame_klen h = rw from_klen (load_u32-put_le klen _ h)

  pub frame_vlen :
      vlen < 2 ^ 32 → load_u32 (drop 17 (frame crc timestamp op_byte klen vlen body)) ≡ vlen
  frame_vlen h = rw from_vlen (load_u32-put_le vlen _ h)

  pub frame-payload :
      drop 4 (frame crc timestamp op_byte klen vlen body) ≡ payload timestamp op_byte klen vlen body
  unfolding put_le
  frame-payload = refl

-- The op byte and the body that `encode_record` chooses.
abbrev pub wire_op : Record → ℕ
wire_op r = if carries_expiry r.op r.expires_at_ms then k_set_ex_op_byte else op_code r.op

abbrev pub wire_body : Record → Bytes
wire_body r =
    (if carries_expiry r.op r.expires_at_ms then put_le 8 (to_u64 r.expires_at_ms) else [])
    ++ (r.key ++ r.value)

unfoldable pub covered_bytes : Record → Bytes
covered_bytes r =
    payload (to_u64 r.timestamp_ms) (wire_op r) (length r.key) (length r.value) (wire_body r)

-- A record on disk.
unfoldable pub record_bytes : Record → Bytes
record_bytes r = put_le 4 (crc32 (covered_bytes r)) ++ covered_bytes r

-- `encode_record` at the fields of a record.
abbrev pub encode : Bytes → Record → Bytes
encode out r = encode_record out r.op r.timestamp_ms r.key r.value r.expires_at_ms

put_covered-append :
    (out : Bytes) (r : Record)
    → put_covered out r.op r.timestamp_ms r.key r.value r.expires_at_ms ≡ out ++ covered_bytes r
unfolding put_covered put_u32 put_u64 covered_bytes
put_covered-append out r = elim (Bool-cases (carries_expiry r.op r.expires_at_ms)) [
  | inl e ↦ rw (e, if◌then◌else◌) (simp append_assoc)
  | inr e ↦ rw (e, if◌then◌else◌) (simp append_assoc)
]

-- The placeholder is overwritten by the checksum of what follows it, and nothing else moves.
replace-placeholder :
    (out old new covered : Bytes)
    → length old ≡ 4
    → replace ((out ++ old) ++ covered) (length out) 4 new ≡ out ++ (new ++ covered)
replace-placeholder out old new covered h =
    rw (append_assoc out old covered, take-append_seam (length out) out (old ++ covered) refl)
      (ap (λ rest. out ++ (new ++ rest))
        (rw (← append_assoc out old covered) (
          drop-append_seam (length out + 4) (out ++ old) covered
            (omega (arith, length-append out old)))))

-- `encode_record` appends the record's bytes to the buffer and leaves what was there.
pub encode-append : (out : Bytes) (r : Record) → encode out r ≡ out ++ record_bytes r
unfolding encode_record put_u32 record_bytes
encode-append out r =
    rw
      (
        put_covered-append (out ++ put_le 4 0) r,
        drop-append_seam (length (out ++ put_le 4 0)) (out ++ put_le 4 0) (covered_bytes r) refl,
      )
      (replace-placeholder out (put_le 4 0) (put_le 4 (crc32 (covered_bytes r))) (covered_bytes r)
        (length-put_le 4 0))
