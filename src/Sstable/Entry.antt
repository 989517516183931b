-- ===== src/Sstable/Entry.antt =====
-- What `Sstable::get` and the cursor of src/sstable.cpp find in an entry that `SstableWriter::add`
-- wrote.
use cachedb.Prelude.{
  ℕ, suc, ◌+◌, ◌-◌, ◌^◌, ◌≤◌, ◌<◌, ◌≡◌, refl, sym, ap, ap₂, ◌∙◌, Bool, true, false, not, ◌&&◌, [],
  ◌∷◌, ◌++◌, arith, if◌then◌else◌, length, get_or, take, drop, length-append, append_assoc,
  take-append_seam, drop-append_seam, drop-append_past, drop-drop,
}
use mathlib.Core.Path.{subst}
use cachedb.Prelude.Int.{pos, is_zero, to_u64, to_i64, to_i64-to_u64, to_u64-lt, is_zero-eq, IsI64}
use cachedb.Prelude.Words.{u32}
use cachedb.Prelude.Bits.{test_bit}
use cachedb.Prelude.Bytes.{Bytes}
use cachedb.Prelude.Endian.{
  put_le, put_u32, put_u64, load_u32, load_u64, length-put_le, load_u32-put_le, load_u64-put_le,
}
use cachedb.Memtable.{Entry}
use cachedb.Sstable.{encode_entry}
use cachedb.Sstable.Reader.{Lookup, body_of, total_of, key_of, entry_of}

-- An entry as it is written, with `stamp` the bytes of its expiry or none.
abbrev flat : ℕ → ℕ → ℕ → Bytes → Bytes
flat klen vlen flags rest = put_le 4 klen ++ (put_le 4 vlen ++ (flags ∷ rest))

-- What a reader is to find for an entry of the memtable.
abbrev pub answer_of : Entry → Lookup
answer_of e = record {
  found = true;
  tombstone = e.tombstone;
  value = if e.tombstone then [] else e.value;
  expires_at_ms = if e.tombstone then pos 0 else e.expires_at_ms;
}

-- The lengths and the stamp fit their fields.
abbrev pub Fits : Bytes → Entry → Type 0
Fits key e = (length key < 2 ^ 32) × (length e.value < 2 ^ 32) × IsI64 e.expires_at_ms

module _ (klen vlen flags : ℕ) (rest : Bytes) where
  flat_klen : klen < 2 ^ 32 → load_u32 (flat klen vlen flags rest) ≡ klen
  flat_klen h = load_u32-put_le klen _ h

  from_vlen : drop 4 (flat klen vlen flags rest) ≡ put_le 4 vlen ++ (flags ∷ rest)
  unfolding put_le
  from_vlen = refl

  flat_vlen : vlen < 2 ^ 32 → load_u32 (drop 4 (flat klen vlen flags rest)) ≡ vlen
  flat_vlen h = rw from_vlen (load_u32-put_le vlen _ h)

  flat_flags : get_or (flat klen vlen flags rest) 8 0 ≡ flags
  unfolding put_le
  flat_flags = refl

  flat-rest : drop 9 (flat klen vlen flags rest) ≡ rest
  unfolding put_le
  flat-rest = refl

  length-flat : length (flat klen vlen flags rest) ≡ 9 + length rest
  unfolding put_le
  length-flat = omega arith

-- The parts of a block that begins with an entry.
record Parts (block stamp key value : Bytes) (flags : ℕ) : Type 0 where
  body : body_of block ≡ 9 + length stamp
  klen : load_u32 block ≡ length key
  vlen : load_u32 (drop 4 block) ≡ length value
  flags_byte : get_or block 8 0 ≡ flags
  key_part : take (length key) (drop (9 + length stamp) block) ≡ key
  value_part : take (length value) (drop (9 + length stamp + length key) block) ≡ value
  stamp_part : (more : Bytes) × (drop 9 block ≡ stamp ++ more)

flat-Parts :
    (flags : ℕ) (stamp key value more : Bytes)
    → length key < 2 ^ 32
    → length value < 2 ^ 32
    → (if test_bit flags 1 then 8 else 0) ≡ length stamp
    → Parts
        (flat (length key) (length value) flags (stamp ++ (key ++ (value ++ more))))
        stamp
        key
        value
        flags
flat-Parts flags stamp key value more short small stamped =
    let rest = stamp ++ (key ++ (value ++ more)) in
    let block = flat (length key) (length value) flags rest in
    let from_rest = flat-rest (length key) (length value) flags rest in
    let flags_same = flat_flags (length key) (length value) flags rest in
    record {
      body = ap (λ f. 9 + (if test_bit f 1 then 8 else 0)) flags_same ∙ ap (λ n. 9 + n) stamped;
      klen = flat_klen (length key) (length value) flags rest short;
      vlen = flat_vlen (length key) (length value) flags rest small;
      flags_byte = flags_same;
      key_part =
          ap (take (length key)) (
            beyond block rest (length stamp) from_rest
            ∙ drop-append_seam (length stamp) stamp (key ++ (value ++ more)) refl)
          ∙ take-append_seam (length key) key (value ++ more) refl;
      value_part =
          ap (take (length value)) (
            ap (λ n. drop n block) (plus (length stamp) (length key))
            ∙ beyond block rest (length stamp + length key) from_rest
            ∙ drop-append_past (length stamp) (length key) (length stamp + length key) stamp
                (key ++ (value ++ more)) refl refl
            ∙ drop-append_seam (length key) key (value ++ more) refl)
          ∙ take-append_seam (length value) value more refl;
      stamp_part = (key ++ (value ++ more), from_rest);
    }
  where
    plus : (a b : ℕ) → 9 + a + b ≡ 9 + (a + b)
    plus a b = omega arith

    beyond : (block rest : Bytes) (n : ℕ) → drop 9 block ≡ rest → drop (9 + n) block ≡ drop n rest
    beyond block rest n e = sym (drop-drop 9 n (9 + n) block refl) ∙ ap (drop n) e

-- The shape that `encode_entry` gives, for each kind of entry.
abbrev flags_of : Entry → ℕ
flags_of e = if e.tombstone then 1 else if is_zero e.expires_at_ms then 0 else 2

abbrev stamp_of : Entry → Bytes
stamp_of e =
    if e.tombstone
    then []
    else if is_zero e.expires_at_ms
    then []
    else put_le 8 (to_u64 e.expires_at_ms)

abbrev pub bytes_of : Bytes → Entry → Bytes
bytes_of key e = encode_entry key e.value e.tombstone e.expires_at_ms

bytes_of-flat :
    (key : Bytes) (e : Entry) (more : Bytes)
    → Fits key e
    → bytes_of key e ++ more
      ≡ flat (length key) (length e.value) (flags_of e) (stamp_of e ++ (key ++ (e.value ++ more)))
unfolding encode_entry put_u32 put_u64
bytes_of-flat key e more (short, small, stamp) =
    shape e.tombstone (is_zero e.expires_at_ms) (to_u64 e.expires_at_ms)
  where
    size : (n : ℕ) → n < 2 ^ 32 → u32 n ≡ n
    size n h = omega arith

    shape :
        (t z : Bool) (x : ℕ)
        → (let sized = ([] ++ put_le 4 (u32 (length key))) ++ put_le 4 (u32 (length e.value)) in
              let flagged =
                sized ++ ((if t then 1 else 0) + (if not t && not z then 2 else 0)) ∷ [] in
              ((if not t && not z then flagged ++ put_le 8 x else flagged) ++ key) ++ e.value)
            ++ more
          ≡ flat
              (length key)
              (length e.value)
              (if t then 1 else if z then 0 else 2)
              ((if t then [] else if z then [] else put_le 8 x) ++ (key ++ (e.value ++ more)))
    shape true z x = rw (size (length key) short, size (length e.value) small) (simp append_assoc)
    shape false true x =
        rw (size (length key) short, size (length e.value) small) (simp append_assoc)
    shape false false x =
        rw (size (length key) short, size (length e.value) small) (simp append_assoc)

pub length-bytes_of :
    (key : Bytes) (e : Entry)
    → Fits key e
    → length (bytes_of key e) ≡ 9 + length (stamp_of e) + length key + length e.value
length-bytes_of key e fits =
    let whole : length (bytes_of key e ++ [])
        ≡ 9 + length (stamp_of e ++ (key ++ (e.value ++ []))) =
      ap length (bytes_of-flat key e [] fits)
      ∙ length-flat (length key) (length e.value) (flags_of e)
          (stamp_of e ++ (key ++ (e.value ++ []))) in
    omega (
      arith,
      whole,
      length-append (bytes_of key e) [],
      length-append (stamp_of e) (key ++ (e.value ++ [])),
      length-append key (e.value ++ []),
      length-append e.value [],
    )

stamped_lem : (e : Entry) → (if test_bit (flags_of e) 1 then 8 else 0) ≡ length (stamp_of e)
stamped_lem e = kinds e.tombstone (is_zero e.expires_at_ms) (to_u64 e.expires_at_ms)
  where
    kinds :
        (t z : Bool) (x : ℕ)
        → (if test_bit (if t then 1 else if z then 0 else 2) 1 then 8 else 0)
          ≡ length (if t then [] else if z then [] else put_le 8 x)
    kinds true z x = refl
    kinds false true x = refl
    kinds false false x = sym (length-put_le 8 x)

-- What the reader finds in a block that begins with the entry.
pub record Reads (block key : Bytes) (e : Entry) : Type 0 where
  pub total : total_of block ≡ length (bytes_of key e)
  pub key_same : key_of block ≡ key
  pub answer : entry_of block ≡ answer_of e
  pub flags : get_or block 8 0 ≡ flags_of e

tombstone_lem : (e : Entry) → test_bit (flags_of e) 0 ≡ e.tombstone
tombstone_lem e = kinds e.tombstone (is_zero e.expires_at_ms)
  where
    kinds : (t z : Bool) → test_bit (if t then 1 else if z then 0 else 2) 0 ≡ t
    kinds true z = refl
    kinds false true = refl
    kinds false false = refl

-- The stamp that is loaded.
expiry_lem :
    (e : Entry) (tail more : Bytes)
    → IsI64 e.expires_at_ms
    → tail ≡ stamp_of e ++ more
    → (if test_bit (flags_of e) 1 then to_i64 (load_u64 tail) else pos 0)
      ≡ (if e.tombstone then pos 0 else e.expires_at_ms)
expiry_lem e tail more range same = kinds e.tombstone (is_zero e.expires_at_ms) refl (sym same)
  where
    kinds :
        (t z : Bool)
        → is_zero e.expires_at_ms ≡ z
        → (if t then [] else if z then [] else put_le 8 (to_u64 e.expires_at_ms)) ++ more ≡ tail
        → (if test_bit (if t then 1 else if z then 0 else 2) 1
            then to_i64 (load_u64 tail)
            else pos 0)
          ≡ (if t then pos 0 else e.expires_at_ms)
    kinds true z zero_stamp s = refl
    kinds false true zero_stamp s = sym (is_zero-eq e.expires_at_ms zero_stamp)
    kinds false false zero_stamp s =
        ap (λ b. to_i64 (load_u64 b)) (sym s)
        ∙ ap to_i64
            (load_u64-put_le (to_u64 e.expires_at_ms) more (to_u64-lt e.expires_at_ms range))
        ∙ to_i64-to_u64 e.expires_at_ms range

pub bytes_of-Reads :
    (key : Bytes) (e : Entry) (more : Bytes) → Fits key e → Reads (bytes_of key e ++ more) key e
bytes_of-Reads key e more fits =
    subst (λ b. Reads b key e) (sym (bytes_of-flat key e more fits))
      (of_parts
        (flat (length key) (length e.value) (flags_of e) (stamp_of e ++ (key ++ (e.value ++ more))))
        (flat-Parts (flags_of e) (stamp_of e) key e.value more fits.0 fits.1 (stamped_lem e)))
  where
    answer_lem :
        (block : Bytes)
        → Parts block (stamp_of e) key e.value (flags_of e)
        → entry_of block ≡ answer_of e
    answer_lem block p =
        let (rest, behind) = p.stamp_part in
        let t : test_bit (get_or block 8 0) 0 ≡ e.tombstone =
          ap (λ f. test_bit f 0) p.flags_byte ∙ tombstone_lem e in
        let v : take (load_u32 (drop 4 block)) (drop (body_of block + load_u32 block) block)
            ≡ e.value =
          ap₂ (λ n m. take n (drop (m + load_u32 block) block)) p.vlen p.body
          ∙ ap (λ m. take (length e.value) (drop (9 + length (stamp_of e) + m) block)) p.klen
          ∙ p.value_part in
        let x =
          ap (λ f. if test_bit f 1 then to_i64 (load_u64 (drop 9 block)) else pos 0) p.flags_byte
          ∙ expiry_lem e (drop 9 block) rest fits.2 behind in
        λ i. record {
          found = true;
          tombstone = t i;
          value = ap₂ (λ (b : Bool) (w : Bytes). if b then [] else w) t v i;
          expires_at_ms = x i;
        }

    of_parts :
        (block : Bytes) → Parts block (stamp_of e) key e.value (flags_of e) → Reads block key e
    of_parts block p = record {
      total = omega (arith, p.body, p.klen, p.vlen, length-bytes_of key e fits);
      key_same = ap₂ (λ n m. take n (drop m block)) p.klen p.body ∙ p.key_part;
      answer = answer_lem block p;
      flags = p.flags_byte;
    }

pub bytes_of_min : (key : Bytes) (e : Entry) → Fits key e → 9 + length key ≤ length (bytes_of key e)
bytes_of_min key e fits = omega (arith, length-bytes_of key e fits)

pub bytes_of_max : (key : Bytes) (e : Entry) → Fits key e → length (bytes_of key e) ≤ 2 ^ 34
bytes_of_max key e fits =
    omega (arith, length-bytes_of key e fits, stamp_max e.tombstone (is_zero e.expires_at_ms))
  where
    stamp_max :
        (t z : Bool)
        → length (if t then [] else if z then [] else put_le 8 (to_u64 e.expires_at_ms)) ≤ 8
    stamp_max true z = omega arith
    stamp_max false true = omega arith
    stamp_max false false = omega (arith, length-put_le 8 (to_u64 e.expires_at_ms))

take-flat :
    (klen vlen flags w : ℕ) (rest : Bytes)
    → take (9 + w) (flat klen vlen flags rest) ≡ flat klen vlen flags (take w rest)
unfolding put_le
take-flat klen vlen flags w rest =
    let nine : 9 + w ≡ suc (suc (suc (suc (suc (suc (suc (suc (suc w)))))))) = omega arith in
    ap (λ n. take n (flat klen vlen flags rest)) nine

-- The header alone says how long an entry is.
pub total_of-header :
    (key : Bytes) (e : Entry) (more : Bytes) (w : ℕ)
    → Fits key e
    → 9 ≤ w
    → total_of (take w (bytes_of key e ++ more)) ≡ length (bytes_of key e)
total_of-header key e more w fits h =
    let rest = stamp_of e ++ (key ++ (e.value ++ more)) in
    let klen = length key in
    let vlen = length e.value in
    let some_of = take (w - 9) rest in
    let n : w ≡ 9 + (w - 9) = omega arith in
    let shape : take w (bytes_of key e ++ more) ≡ flat klen vlen (flags_of e) some_of =
      ap₂ take n (bytes_of-flat key e more fits) ∙ take-flat klen vlen (flags_of e) (w - 9) rest in
    let flags = flat_flags klen vlen (flags_of e) some_of in
    ap total_of shape
    ∙ sum _ _ _
        (ap (λ f. 9 + (if test_bit f 1 then 8 else 0)) flags ∙ ap (λ m. 9 + m) (stamped_lem e))
        (flat_klen klen vlen (flags_of e) some_of fits.0)
        (flat_vlen klen vlen (flags_of e) some_of fits.1)
    ∙ sym (length-bytes_of key e fits)
  where
    sum :
        (a b c : ℕ)
        → a ≡ 9 + length (stamp_of e)
        → b ≡ length key
        → c ≡ length e.value
        → a + b + c ≡ 9 + length (stamp_of e) + length key + length e.value
    sum a b c p q r = omega (arith, p, q, r)
