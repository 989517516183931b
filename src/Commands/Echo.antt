-- ===== src/Commands/Echo.antt =====
-- What `append_printable` of src/command.cpp adds to a reply.
use cachedb.Prelude.{
  ℕ, zero, suc, ◌≤◌, ◌≡◌, sym, ◌∙◌, min, [], ◌∷◌, ◌++◌, arith, if◌then◌else◌, length, append_assoc,
  append-nil,
}
use cachedb.Prelude.Bytes.{Bytes}
use cachedb.Commands.{is_print, append_echo, append_printable}

abbrev pub AllPrintable : Bytes → Type 0
AllPrintable [] = Unit
AllPrintable (c ∷ cs) = ((32 ≤ c) × (c ≤ 126)) × AllPrintable cs

-- The bytes that are added.
abbrev pub Echoed : ℕ → Bytes → Bytes → Type 0
Echoed count out out' =
    (echo : Bytes) × (out' ≡ out ++ echo) × (length echo ≡ count) × AllPrintable echo

append_echo-Echoed : (n : ℕ) (out s : Bytes) → Echoed (min n (length s)) out (append_echo n out s)
unfolding append_echo
append_echo-Echoed zero out s = ([], sym (append-nil out), omega arith, tt)
append_echo-Echoed (suc n) out [] = ([], sym (append-nil out), omega arith, tt)
append_echo-Echoed (suc n) out (c ∷ cs) =
    let shown = if is_print c then c else 46 in
    let (echo, same, count, printable) = append_echo-Echoed n (out ++ shown ∷ []) cs in
    (
      shown ∷ echo,
      same ∙ append_assoc out (shown ∷ []) echo,
      omega (arith, count),
      ((ground arith, ground arith), printable),
    )

-- `append_printable` adds one byte for each byte of the text, up to 64, and each is printable ASCII,
-- so nothing that ends a line.
pub append_printable-Echoed :
    (out s : Bytes) → Echoed (min 64 (length s)) out (append_printable out s)
unfolding append_printable
append_printable-Echoed out s =
    let (echo, same, count, printable) = append_echo-Echoed (min (length s) 64) out s in
    (echo, same, omega (arith, count), printable)
