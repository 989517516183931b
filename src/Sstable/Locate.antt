-- ===== src/Sstable/Locate.antt =====
-- The block that `Sstable::get` of src/sstable.cpp reads, in a table that the writer laid down.
use cachedb.Prelude.{
  ℕ, ◌+◌, ◌-◌, ◌≤◌, ◌<◌, ◌≡◌, refl, sym, ap, ◌∙◌, ◌⊎◌, inl, inr, Bool, true, false, Bool-cases,
  Option, none, some, [], ◌∷◌, ◌++◌, arith, if◌then◌else◌, length, take, drop, length-append,
  append_assoc, append-nil, take-append_seam, drop-append_seam, drop-drop,
}
use mathlib.Core.Path.{subst}
use cachedb.Prelude.Bytes.{Bytes, key_lt}
use cachedb.Prelude.SortedMap.{
  SortedMap, find, IsSorted, IsSorted-append_left, IsSorted-append_right, find-append_below,
  find-append_above,
}
use cachedb.Memtable.{Entry}
use cachedb.Sstable.Reader.{block_range, block_end}
use cachedb.Sstable.Entry.{bytes_of, bytes_of_min}
use cachedb.Sstable.Block.{AllFit, entries_block, entries_block-append}
use cachedb.Sstable.Index.{is_due, index_from}

AllFit-append_left : (p m : SortedMap Entry) → AllFit (p ++ m) → AllFit p
AllFit-append_left [] m h = tt
AllFit-append_left ((k, e) ∷ p) m h = (h.0, AllFit-append_left p m h.1)

AllFit-append_right : (p m : SortedMap Entry) → AllFit (p ++ m) → AllFit m
AllFit-append_right [] m h = h
AllFit-append_right ((k, e) ∷ p) m h = AllFit-append_right p m h.1

-- The range holds a run of the entries, among which the key is found as in all of them; without a
-- range the key is not there.
abbrev pub Located : Bytes → Bytes → SortedMap Entry → Option (ℕ × ℕ) → Type 0
Located file key m none = find key m ≡ none
Located file key m (some (from, to)) =
    (c : SortedMap Entry) × (from < to)
    × (to ≤ length file)
    × (take (to - from) (drop from file) ≡ entries_block c)
    × IsSorted c
    × AllFit c
    × (find key m ≡ find key c)

-- What `block_range` does with the ranges behind the first entry of the index.
abbrev pick : ℕ → ℕ → Option (ℕ × ℕ) → Option (ℕ × ℕ)
pick from to none = some (from, to)
pick from to (some range) = some range

-- The entries `p` of the block that begins at `from`, with `m` and `post` behind them in the file.
record Open (file post : Bytes) (data_end off from : ℕ) (p m : SortedMap Entry) : Type 0 where
  there : drop from file ≡ entries_block p ++ (entries_block m ++ post)
  at : off ≡ from + length (entries_block p)
  ends : data_end ≡ off + length (entries_block m)
  inside : data_end ≤ length file
  sorted : IsSorted (p ++ m)
  fits : AllFit (p ++ m)
  some_bytes : 1 ≤ length (entries_block p)

module _ (file post key : Bytes) (data_end : ℕ) where
  -- The block is closed at `off`.
  closed :
      (off from : ℕ) (p m : SortedMap Entry)
      → Open file post data_end off from p m
      → find key (p ++ m) ≡ find key p
      → Located file key (p ++ m) (some (from, off))
  closed off from p m o same = (
    p,
    omega (arith, o.at, o.some_bytes),
    omega (arith, o.ends, o.inside),
    ap (λ n. take n (drop from file)) (span off from (length (entries_block p)) o.at)
        ∙ ap (take (length (entries_block p))) o.there
        ∙ take-append_seam (length (entries_block p)) (entries_block p) (entries_block m ++ post)
            refl,
    IsSorted-append_left p m o.sorted,
    AllFit-append_left p m o.fits,
    same,
  )
    where
      span : (off from n : ℕ) → off ≡ from + n → off - from ≡ n
      span off from n h = omega (arith, h)

  -- The next entry goes into the block.
  extended :
      (off from : ℕ) (p m : SortedMap Entry) (k : Bytes) (e : Entry)
      → Open file post data_end off from p ((k, e) ∷ m)
      → Open file post data_end (off + length (bytes_of k e)) from (p ++ (k, e) ∷ []) m
  extended off from p m k e o =
      let grown = entries_block-append p ((k, e) ∷ []) in
      let one : entries_block ((k, e) ∷ []) ≡ bytes_of k e = append-nil (bytes_of k e) in
      let larger = ap length (grown ∙ ap (◌++◌ (entries_block p)) one) in
      record {
        there =
            o.there
            ∙ ap (◌++◌ (entries_block p)) (append_assoc (bytes_of k e) (entries_block m) post)
            ∙ sym (append_assoc (entries_block p) (bytes_of k e) (entries_block m ++ post))
            ∙ ap (λ b. b ++ (entries_block m ++ post))
                (sym (grown ∙ ap (◌++◌ (entries_block p)) one));
        at = omega (arith, o.at, larger, length-append (entries_block p) (bytes_of k e));
        ends = omega (arith, o.ends, length-append (bytes_of k e) (entries_block m));
        inside = o.inside;
        sorted = subst IsSorted (sym (append_assoc p ((k, e) ∷ []) m)) o.sorted;
        fits = subst AllFit (sym (append_assoc p ((k, e) ∷ []) m)) o.fits;
        some_bytes =
            omega (arith, o.some_bytes, larger, length-append (entries_block p) (bytes_of k e));
      }

  -- The next entry begins a block.
  begun :
      (off from : ℕ) (p m : SortedMap Entry) (k : Bytes) (e : Entry)
      → Open file post data_end off from p ((k, e) ∷ m)
      → Open file post data_end (off + length (bytes_of k e)) off ((k, e) ∷ []) m
  begun off from p m k e o =
      let one : entries_block ((k, e) ∷ []) ≡ bytes_of k e = append-nil (bytes_of k e) in
      let size = ap length one in
      let right = IsSorted-append_right p ((k, e) ∷ m) o.sorted in
      record {
        there =
            sym (drop-drop from (length (entries_block p)) off file (sym o.at))
            ∙ ap (drop (length (entries_block p))) o.there
            ∙ drop-append_seam (length (entries_block p)) (entries_block p)
                (entries_block ((k, e) ∷ m) ++ post) refl
            ∙ append_assoc (bytes_of k e) (entries_block m) post
            ∙ ap (λ b. b ++ (entries_block m ++ post)) (sym one);
        at = omega (arith, size);
        ends = omega (arith, o.ends, length-append (bytes_of k e) (entries_block m));
        inside = o.inside;
        sorted = right;
        fits = AllFit-append_right p ((k, e) ∷ m) o.fits;
        some_bytes =
            let fits = AllFit-append_right p ((k, e) ∷ m) o.fits in
            omega (arith, size, bytes_of_min k e fits.0);
      }

  -- A range found behind the open block stands for the whole.
  behind :
      (p m : SortedMap Entry) (r : Option (ℕ × ℕ))
      → find key (p ++ m) ≡ find key m
      → Located file key m r
      → Located file key (p ++ m) r
  behind p m none same l = same ∙ l
  behind p m (some (from, to)) same (c, a, b, d, s, f, l) = (c, a, b, d, s, f, same ∙ l)

  -- The range of the open block, or of a block that begins behind it.
  chosen :
      (off from end : ℕ) (p m : SortedMap Entry) (k : Bytes) (e : Entry) (r : Option (ℕ × ℕ))
      (b : Bool)
      → key_lt key k ≡ b
      → Open file post data_end off from p ((k, e) ∷ m)
      → Located file key ((k, e) ∷ m) (pick off end r)
      → Located file key (p ++ (k, e) ∷ m) (
          pick from off
            (if b then none else elim r [ none ↦ some (off, end) | some range ↦ some range ]))
  chosen off from end p m k e r true below o l =
      closed off from p ((k, e) ∷ m) o (find-append_below k key e p m o.sorted below)
  chosen off from end p m k e none false above o l =
      behind p ((k, e) ∷ m) (some (off, end)) (find-append_above k key e p m o.sorted above) l
  chosen off from end p m k e (some range) false above o l =
      behind p ((k, e) ∷ m) (some range) (find-append_above k key e p m o.sorted above) l

  locate :
      (m : SortedMap Entry) (off since from : ℕ) (p : SortedMap Entry)
      → Open file post data_end off from p m
      → let idx = index_from false off since m in
        Located file key
          (p ++ m)
          (pick from (block_end data_end idx) (block_range key data_end idx))
  unfolding index_from block_range
  locate [] off since from p o =
      let same : find key (p ++ []) ≡ find key p = ap (find key) (append-nil p) in
      let ends : data_end ≡ off = omega (arith, o.ends) in
      subst (λ n. Located file key (p ++ []) (some (from, n))) (sym ends)
        (closed off from p [] o same)
  locate ((k, e) ∷ m) off since from p o =
      let n = length (bytes_of k e) in
      let further =
        locate m (off + n) (since + n) from (p ++ (k, e) ∷ []) (extended off from p m k e o) in
      let newer = locate m (off + n) n off ((k, e) ∷ []) (begun off from p m k e o) in
      by (is_due false since)
        (subst (λ q. Rest q (since + n)) (append_assoc p ((k, e) ∷ []) m) further) newer
    where
      Rest : SortedMap Entry → ℕ → Type 0
      Rest q s =
          let idx = index_from false (off + length (bytes_of k e)) s m in
          Located file key q (pick from (block_end data_end idx) (block_range key data_end idx))

      by :
          (b : Bool)
          → Rest (p ++ (k, e) ∷ m) (since + length (bytes_of k e))
          → (let idx = index_from false (off + length (bytes_of k e)) (length (bytes_of k e)) m in
              Located file key
                ((k, e) ∷ m)
                (pick off (block_end data_end idx) (block_range key data_end idx)))
          → let n = length (bytes_of k e) in
            let rest = index_from false (off + n) (if b then n else since + n) m in
            let idx = if b then (record { key = k; offset = off }) ∷ rest else rest in
            Located file key
              (p ++ (k, e) ∷ m)
              (pick from (block_end data_end idx) (block_range key data_end idx))
      by false further newer = further
      by true further newer =
          let idx = index_from false (off + length (bytes_of k e)) (length (bytes_of k e)) m in
          chosen off from (block_end data_end idx) p m k e (block_range key data_end idx)
            (key_lt key k) refl o newer

  -- The range in the whole table.
  pub locate_first :
      (m : SortedMap Entry)
      → file ≡ entries_block m ++ post
      → data_end ≡ length (entries_block m)
      → IsSorted m
      → AllFit m
      → Located file key m (block_range key data_end (index_from true 0 0 m))
  unfolding index_from block_range find
  locate_first [] same ends sorted fits = refl
  locate_first ((k, e) ∷ m) same ends sorted fits =
      let n = length (bytes_of k e) in
      let one : entries_block ((k, e) ∷ []) ≡ bytes_of k e = append-nil (bytes_of k e) in
      let size = ap length one in
      let rest = length-append (bytes_of k e) (entries_block m) in
      let idx = index_from false (0 + n) n m in
      whole (block_range key data_end idx) (block_end data_end idx) (Bool-cases (key_lt key k)) (
        locate m (0 + n) n 0 ((k, e) ∷ []) (record {
          there =
              same
              ∙ append_assoc (bytes_of k e) (entries_block m) post
              ∙ ap (λ b. b ++ (entries_block m ++ post)) (sym one);
          at = omega (arith, size);
          ends = omega (arith, ends, rest);
          inside =
              omega (arith, ends, ap length same, length-append (entries_block ((k, e) ∷ m)) post);
          sorted = sorted;
          fits = fits;
          some_bytes = omega (arith, size, bytes_of_min k e fits.0);
        }))
    where
      whole :
          (r : Option (ℕ × ℕ)) (end : ℕ)
          → (key_lt key k ≡ true) ⊎ (key_lt key k ≡ false)
          → Located file key ((k, e) ∷ m) (pick 0 end r)
          → Located file key ((k, e) ∷ m) (
              if key_lt key k
              then none
              else elim r [ none ↦ some (0, end) | some range ↦ some range ])
      whole r end (inl below) l = rw below (find-append_below k key e [] m sorted below)
      whole none end (inr above) l = rw above l
      whole (some range) end (inr above) l = rw above l
