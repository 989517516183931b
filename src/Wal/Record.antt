-- ===== src/Wal/Record.antt =====
-- src/wal.h, `Record`, `DecodeStatus` and `DecodeResult`; src/wal.cpp, `encode_record` and
-- `decode_record`. The proofs are in the modules below.
pub mod Layout
pub mod RoundTrip
pub mod Safety
use cachedb.Prelude.{
  ℕ, ◌+◌, ◌-◌, Bool, true, false, not, ◌&&◌, List, [], ◌∷◌, ◌++◌, ltb, ◌==◌, if◌then◌else◌, length,
  get_or, take, drop,
}
use cachedb.Prelude.Int.{ℤ, pos, is_zero, to_u64, to_i64}
use cachedb.Prelude.Bytes.{Bytes}
use cachedb.Prelude.Endian.{put_u32, put_u64, load_u32, load_u64}
use cachedb.Wal.Crc.{crc32}

pub data Op : Type 0 where
  k_set k_delete : Op

pub record Record : Type 0 where
  pub op : Op
  pub timestamp_ms : ℤ
  pub expires_at_ms : ℤ
  pub key : Bytes
  pub value : Bytes

abbrev pub k_record_header_size : ℕ
k_record_header_size = 21

abbrev pub k_expiry_size : ℕ
k_expiry_size = 8

-- The op byte for a SET that carries an expiry.
abbrev pub k_set_ex_op_byte : ℕ
k_set_ex_op_byte = 2

-- static_cast<uint8_t>(op), and the cast back of a byte that is not above kSetExOpByte
abbrev pub op_code : Op → ℕ
op_code k_set = 0
op_code k_delete = 1

abbrev pub op_of_code : ℕ → Op
op_of_code code = if code == 0 then k_set else k_delete

abbrev pub is_set : Op → Bool
is_set k_set = true
is_set k_delete = false

-- op == Record::Op::kSet && expires_at_ms != 0
unfoldable pub carries_expiry : Op → ℤ → Bool
carries_expiry op expires_at_ms = is_set op && not (is_zero expires_at_ms)

-- out.replace(at, count, with)
abbrev pub replace : Bytes → ℕ → ℕ → Bytes → Bytes
replace out at count with = take at out ++ (with ++ drop (at + count) out)

-- Everything that is appended behind the place of the checksum.
unfoldable pub put_covered : Bytes → Op → ℤ → Bytes → Bytes → ℤ → Bytes
unfolding carries_expiry
put_covered out op timestamp_ms key value expires_at_ms =
    let carries = carries_expiry op expires_at_ms in
    let op_byte = if carries then k_set_ex_op_byte else op_code op in
    let stamped = put_u64 out (to_u64 timestamp_ms) ++ op_byte ∷ [] in
    let sized = put_u32 (put_u32 stamped (length key)) (length value) in
    let expiring = if carries then put_u64 sized (to_u64 expires_at_ms) else sized in
    (expiring ++ key) ++ value

unfoldable pub encode_record : Bytes → Op → ℤ → Bytes → Bytes → ℤ → Bytes
encode_record out op timestamp_ms key value expires_at_ms =
    let crc_pos = length out in
    let reserved = put_u32 out 0 in
    let covered_from = length reserved in
    let filled = put_covered reserved op timestamp_ms key value expires_at_ms in
    let crc = crc32 (drop covered_from filled) in replace filled crc_pos 4 (put_u32 [] crc)

pub data DecodeStatus : Type 0 where
  ok incomplete corrupt : DecodeStatus

-- `decoded` is the source's field `record`, meaningful only when the status is `ok`.
pub record DecodeResult : Type 0 where
  pub status : DecodeStatus
  pub consumed : ℕ
  pub decoded : Record

-- Record{}
abbrev no_record : Record
no_record = record { op = k_set; timestamp_ms = pos 0; expires_at_ms = pos 0; key = []; value = [] }

-- {status, 0, {}}
abbrev pub failed : DecodeStatus → DecodeResult
failed status = record { status = status; consumed = 0; decoded = no_record }

-- The bytes between the header and the key.
abbrev pub extra_size : ℕ → ℕ
extra_size op_byte = if op_byte == k_set_ex_op_byte then k_expiry_size else 0

-- `decode_record` from where the header has been read.
unfoldable pub decode_fields : Bytes → ℕ → ℕ → ℕ → ℕ → ℕ → DecodeResult
decode_fields input stored_crc timestamp op_byte klen vlen =
    let extra = extra_size op_byte in
    let total = k_record_header_size + extra + klen + vlen in
    let covered = take (total - 4) (drop 4 input) in
    let body = k_record_header_size + extra in
    if ltb (length input) total
    then failed incomplete
    else if not (crc32 covered == stored_crc)
    then failed corrupt
    else if ltb k_set_ex_op_byte op_byte
    then failed corrupt
    else record {
      status = ok;
      consumed = total;
      decoded = record {
        op = if op_byte == k_set_ex_op_byte then k_set else op_of_code op_byte;
        timestamp_ms = to_i64 timestamp;
        expires_at_ms =
            if op_byte == k_set_ex_op_byte
            then to_i64 (load_u64 (drop k_record_header_size input))
            else pos 0;
        key = take klen (drop body input);
        value = take vlen (drop (body + klen) input);
      };
    }

unfoldable pub decode_record : Bytes → DecodeResult
unfolding decode_fields
decode_record input =
    if ltb (length input) k_record_header_size
    then failed incomplete
    else decode_fields input (load_u32 input) (load_u64 (drop 4 input)) (get_or input 12 0)
        (load_u32 (drop 13 input)) (load_u32 (drop 17 input))
