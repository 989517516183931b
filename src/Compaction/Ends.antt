-- ===== src/Compaction/Ends.antt =====
-- src/compaction.cpp: the loop of a merge ends.
use cachedb.Prelude.{
  ℕ, zero, suc, ◌+◌, ◌≤◌, ◌<◌, ◌≡◌, refl, ap, inl, inr, Bool, true, false, not, Option, none, some,
  List, [], ◌∷◌, arith, if◌then◌else◌, length, set, Option-cases,
}
use cachedb.Prelude.Int.{ℤ}
use cachedb.Sstable.Reader.{Sstable}
use mathlib.Core.Option.{some-injective, none-ne-some}
use cachedb.Sstable.Cursor.{Cursor, load, next, unread, cursor}
use cachedb.Sstable.Cursor.Step.{left, Shrinks, load-Shrinks}
use cachedb.Store.{Result}
use cachedb.Sstable.{FileData, create}
use cachedb.Compaction.{
  CompactionResult, Head, Merge, push, cursor_at, heads, merge_loop, open_cursors, size_of_inputs,
  CompactIo, compact,
}

abbrev pub budget : List Cursor → ℕ
budget [] = 0
budget (c ∷ cs) = left c + budget cs

budget-set :
    (cs : List Cursor) (i : ℕ) (c d : Cursor)
    → cursor_at cs i ≡ some c
    → budget (set cs i d) + left c ≡ budget cs + left d
budget-set [] i c d h = absurd (none-ne-some _ h)
budget-set (b ∷ cs) zero c d h = omega (arith, ap left (some-injective b c h))
budget-set (b ∷ cs) (suc i) c d h = omega (arith, budget-set cs i c d h)

length-push : (h : Head) (heap : List Head) → length (push h heap) ≡ suc (length heap)
unfolding push
length-push h [] = refl
length-push h (g ∷ heap) = ground (arith, length-push h heap)

-- What a loop answers at last.
abbrev pub Answers : Option (Merge × Bool) → Type 0
Answers o = (r : Merge × Bool) × (o ≡ some r)

loop_branches :
    (P : Option (Merge × Bool) → Type 0) (heap : List Head) (x : Option (Merge × Bool))
    (y : Head → List Head → Option (Merge × Bool))
    → (heap ≡ [] → P x)
    → ((head : Head) (rest : List Head) → heap ≡ head ∷ rest → P (y head rest))
    → P (elim heap [ [] ↦ x | head ∷ rest ↦ y head rest ])
loop_branches P [] x y p q = p refl
loop_branches P (head ∷ rest) x y p q = q head rest refl

cursor_branches :
    (P : Option (Merge × Bool) → Type 0) (o : Option Cursor) (x : Option (Merge × Bool))
    (y : Cursor → Option (Merge × Bool))
    → (o ≡ none → P x)
    → ((c : Cursor) → o ≡ some c → P (y c))
    → P (elim o [ none ↦ x | some c ↦ y c ])
cursor_branches P none x y p q = p refl
cursor_branches P (some c) x y p q = q c refl

pub bool_branches :
    {A : Type 0} (P : A → Type 0) (b : Bool) (x y : A)
    → (b ≡ true → P x)
    → (b ≡ false → P y)
    → P (if b then x else y)
bool_branches P true x y p q = p refl
bool_branches P false x y p q = q refl

pub merge_loop-Answers :
    (fuel : ℕ) (drop_obsolete : Bool) (now : ℤ) (m : Merge)
    → budget m.cursors + length m.heap < fuel
    → Answers (merge_loop fuel drop_obsolete now m)
unfolding merge_loop next
merge_loop-Answers zero drop_obsolete now m h = absurd (omega (arith, h))
merge_loop-Answers (suc fuel) drop_obsolete now m h =
    loop_branches Answers m.heap _ _ (λ _. ((m, true), refl))
      (λ head rest is_heap.
        cursor_branches Answers (cursor_at m.cursors head.input) _ _ (λ _. ((m, false), refl))
          (λ c at.
            let (less, strictly) = load-Shrinks c in
            let spent = budget-set m.cursors head.input c (load c) at in
            let size = ap length is_heap in
            bool_branches Answers (load c).failed _ _ (λ _. (_, refl))
              (λ _. merge_loop-Answers fuel drop_obsolete now _ (
                bool_branches (λ (n : Merge). budget n.cursors + length n.heap < fuel)
                  (load c).valid _ _
                  (λ v. omega (
                    arith,
                    h,
                    spent,
                    size,
                    strictly v,
                    length-push (record { input = head.input; key = (load c).key }) rest,
                  ))
                  (λ _. omega (arith, h, spent, size, less))))))

heads_cons :
    (c : Cursor) (cs : List Cursor) (out : List Head) (n rest i : ℕ) (heap : List Head)
    → Shrinks n c
    → ((j : ℕ) (before : List Head)
        → heads j cs before ≡ some out
        → budget cs + length out ≤ rest + length before)
    → heads i (c ∷ cs) heap ≡ some out
    → budget (c ∷ cs) + length out ≤ n + rest + length heap
unfolding heads
heads_cons c cs out n rest i heap (less, strictly) later =
    let head : Head = record { input = i; key = c.key } in
    bool_branches Fits c.failed none _ (λ _ h. absurd (none-ne-some _ h))
      (λ _.
        bool_branches Fits c.valid (heads (suc i) cs (push head heap)) (heads (suc i) cs heap)
          (λ v h.
            omega (arith, strictly v, later (suc i) (push head heap) h, length-push head heap))
          (λ _ h. omega (arith, less, later (suc i) heap h)))
  where
    Fits : Option (List Head) → Type 0
    Fits o = o ≡ some out → budget (c ∷ cs) + length out ≤ n + rest + length heap

cursor-Shrinks : (reads : List Bool) (t : Sstable) → Shrinks t.data_end (cursor reads t)
unfolding cursor
cursor-Shrinks reads t =
    let (less, strictly) = load-Shrinks (unread reads t) in
    (omega (arith, less), λ v. omega (arith, strictly v))

heads-budget :
    (reads : List (List Bool)) (ts : List Sstable) (i : ℕ) (heap out : List Head)
    → heads i (open_cursors reads ts) heap ≡ some out
    → budget (open_cursors reads ts) + length out ≤ size_of_inputs ts + length heap
unfolding heads open_cursors
heads-budget reads [] i heap out h = omega (arith, ap length (some-injective heap out h))
heads-budget [] (t ∷ ts) i heap out h =
    heads_cons (cursor [] t) (open_cursors [] ts) out t.data_end (size_of_inputs ts) i heap
      (cursor-Shrinks [] t) (λ j before. heads-budget [] ts j before out) h
heads-budget (r ∷ reads) (t ∷ ts) i heap out h =
    heads_cons (cursor r t) (open_cursors reads ts) out t.data_end (size_of_inputs ts) i heap
      (cursor-Shrinks r t) (λ j before. heads-budget reads ts j before out) h

-- A merge ends: whatever the tables hold and the kernel answers, the rounds are enough for the heap
-- to run empty, or the merge refuses a cursor that failed.
pub compact-returns :
    (io : CompactIo) (inputs : List Sstable) (bits_per_key : ℤ) (drop_obsolete : Bool) (now : ℤ)
    → (r : Result (CompactionResult × Option FileData)) × (compact io inputs bits_per_key
          drop_obsolete now
        ≡ some r)
unfolding compact
compact-returns io inputs bits_per_key drop_obsolete now =
    elim (Option-cases (heads 0 (open_cursors io.reads inputs) [])) [
      | inl failed ↦ rw (failed, compact) (_, refl)
      | inr (heap, ready) ↦
          let (ended, looped) =
            merge_loop-Answers (suc (size_of_inputs inputs)) drop_obsolete now
              (record {
                cursors = open_cursors io.reads inputs;
                heap = heap;
                writer = create bits_per_key;
                writes = io.entry_writes;
                previous = none;
                written = 0;
                dropped = 0;
              })
              (omega (arith, heads-budget io.reads inputs 0 [] heap ready)) in
          rw (ready, compact)
            (bool_branches Returns (not io.creates) _ _ (λ _. (_, refl)) (λ _. rw looped (_, refl)))
    ]
  where
    Returns : Option (Result (CompactionResult × Option FileData)) → Type 0
    Returns o = (r : Result (CompactionResult × Option FileData)) × (o ≡ some r)
