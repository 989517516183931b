-- ===== src/Store/Tiers/Run.antt =====
-- src/store.cpp, the run of tables that `maybe_compact` chooses.
use cachedb.Prelude.{
  ℕ, zero, suc, ◌+◌, ◌-◌, ◌*◌, ◌≤◌, ◌<◌, ◌≡◌, refl, ◌⊎◌, inl, inr, min, Bool, true, false, Option,
  none, some, List, arith, leb, ◌==◌, if◌then◌else◌, length, get_or, Bool-cases, ap,
}
use mathlib.Core.Option.{some-injective, none-ne-some}
use cachedb.Store.Tiers.{k_compaction_trigger, breaks, run_begin, find_run, best_run}

-- No table of the run is empty, and none is more than twice the size of one that is older.
abbrev pub Similar : List ℕ → ℕ → ℕ → Type 0
Similar sizes begin end =
    (j k : ℕ)
    → begin ≤ j
    → j ≤ k
    → k < end
    → (0 < get_or sizes k 0) × (get_or sizes j 0 ≤ 2 * get_or sizes k 0)

keeps :
    (candidate smallest : ℕ)
    → breaks candidate smallest ≡ false
    → (0 < min candidate smallest) × (candidate ≤ 2 * smallest)
keeps candidate smallest h = ground arith

eq-or-above : (a b : ℕ) → a ≤ b → (b ≡ a) ⊎ (suc a ≤ b)
eq-or-above a b h = ground arith

-- One more table at the front of a run.
widen :
    (sizes : List ℕ) (smallest i end : ℕ)
    → 0 < get_or sizes i 0
    → get_or sizes i 0 ≤ 2 * smallest
    → ((j : ℕ) → suc i ≤ j → j < end → smallest ≤ get_or sizes j 0)
    → Similar sizes (suc i) end
    → Similar sizes i end
widen sizes smallest i end full near below h j k from up to = elim (eq-or-above i j from) [
  | inr above ↦ h j k above up to
  | inl same ↦ elim (eq-or-above i k (omega (arith, from, up))) [
    | inl front ↦ rw (same, front) (full, omega arith)
    | inr above ↦
        let low = below k above to in
        (omega (arith, full, near, low), rw same (omega (arith, near, low)))
  ]
]

run_begin-Similar :
    (sizes : List ℕ) (smallest i end : ℕ)
    → i ≤ end
    → ((j : ℕ) → i ≤ j → j < end → smallest ≤ get_or sizes j 0)
    → Similar sizes i end
    → (run_begin sizes smallest i ≤ i) × Similar sizes (run_begin sizes smallest i) end
unfolding run_begin
run_begin-Similar sizes smallest zero end at below h = (omega arith, h)
run_begin-Similar sizes smallest (suc i) end at below h =
    let candidate = get_or sizes i 0 in
    elim (Bool-cases (breaks candidate smallest)) [
      | inl broke ↦ rw broke (omega arith, h)
      | inr kept ↦
          let (full, near) = keeps candidate smallest kept in
          let (le, similar) =
            run_begin-Similar sizes (min candidate smallest) i end (omega arith) lowest
              (widen sizes smallest i end (omega (arith, full)) near below h) in
          rw kept (omega (arith, le), similar)
    ]
  where
    lowest : (j : ℕ) → i ≤ j → j < end → min (get_or sizes i 0) smallest ≤ get_or sizes j 0
    lowest j from to = elim (eq-or-above i j from) [
      | inl same ↦ rw same (omega arith)
      | inr above ↦ omega (arith, below j above to)
    ]

-- Where the walk goes on after a run that is too short.
next_end : (begin i : ℕ) → begin ≤ i → (i == 0) ≡ false → (if begin == i then i - 1 else begin) < i
next_end begin i h more = ground arith

run_begin-le : (sizes : List ℕ) (smallest i : ℕ) → run_begin sizes smallest i ≤ i
unfolding run_begin
run_begin-le sizes smallest zero = omega arith
run_begin-le sizes smallest (suc i) =
    ground (arith, run_begin-le sizes (min (get_or sizes i 0) smallest) i)

walk_branches :
    (P : Option (Option (ℕ × ℕ)) → Type 0) (a b : Bool) (x : ℕ × ℕ) (l : Option (Option (ℕ × ℕ)))
    → P (some none)
    → P (some (some x))
    → (a ≡ false → P l)
    → P (if a then some none else if b then some (some x) else l)
walk_branches P true b x l p q r = p
walk_branches P false true x l p q r = q
walk_branches P false false x l p q r = r refl

-- The walk ends: one round for each table and one more is enough.
pub find_run-Walked :
    (sizes : List ℕ) (fuel i : ℕ)
    → i < fuel
    → (r : Option (ℕ × ℕ)) × (find_run sizes fuel i ≡ some r)
unfolding find_run
find_run-Walked sizes zero i h = absurd (omega arith)
find_run-Walked sizes (suc fuel) i h =
    let begin = run_begin sizes (get_or sizes (i - 1) 0) i in
    walk_branches (λ o. (r : Option (ℕ × ℕ)) × (o ≡ some r)) (i == 0)
      (leb k_compaction_trigger (i - begin)) (begin, i - begin) _ (_, refl) (_, refl)
      (λ more.
        find_run-Walked sizes fuel (if begin == i then i - 1 else begin)
          (omega (arith, h, next_end begin i (run_begin-le sizes (get_or sizes (i - 1) 0) i) more)))

found :
    (a b : Bool) (x y : ℕ × ℕ) (l : Option (Option (ℕ × ℕ)))
    → (if a then some none else if b then some (some x) else l) ≡ some (some y)
    → (a ≡ false) × (((b ≡ true) × (x ≡ y)) ⊎ (l ≡ some (some y)))
found true b x y l h = absurd (none-ne-some _ (some-injective none (some y) h))
found false true x y l h =
    (refl, inl (refl, some-injective x y (some-injective (some x) (some y) h)))
found false false x y l h = (refl, inr h)

at_least : (a n : ℕ) → leb a n ≡ true → a ≤ n
at_least a n h = ground arith

find_run-Similar :
    (sizes : List ℕ) (fuel i begin len : ℕ)
    → find_run sizes fuel i ≡ some (some (begin, len))
    → (begin + len ≤ i) × (4 ≤ len) × Similar sizes begin (begin + len)
unfolding find_run
find_run-Similar sizes zero i begin len h = absurd (none-ne-some _ h)
find_run-Similar sizes (suc fuel) i begin len h =
    let smallest = get_or sizes (i - 1) 0 in
    let b = run_begin sizes smallest i in
    let (more, which) =
      found (i == 0) (leb k_compaction_trigger (i - b)) (b, i - b) (begin, len)
        (find_run sizes fuel (if b == i then i - 1 else b)) h in
    elim which [
      | inl (long, same) ↦
          let (le, similar) =
            run_begin-Similar sizes smallest i i (omega arith)
              (λ j from to. absurd (omega (arith, from, to)))
              (λ j k from up to. absurd (omega (arith, from, up, to))) in
          let front : b ≡ begin = ap (λ p. p.0) same in
          let size : i - b ≡ len = ap (λ p. p.1) same in
          (
            omega (arith, front, size, le),
            omega (arith, at_least 4 (i - b) long, size),
            λ j k from up to.
                similar j k (omega (arith, from, front)) up (omega (arith, to, front, size, le)),
          )
      | inr later ↦
          let (within, long, similar) =
            find_run-Similar sizes fuel (if b == i then i - 1 else b) begin len later in
          (omega (arith, within, next_end b i (run_begin-le sizes smallest i) more), long, similar)
    ]

-- The run that a merge takes lies within the tables, has at least four of them, none of them is
-- empty, and none is more than twice the size of an older one of the run.
pub best_run-Similar :
    (sizes : List ℕ) (begin len : ℕ)
    → best_run sizes ≡ some (some (begin, len))
    → (begin + len ≤ length sizes) × (4 ≤ len) × Similar sizes begin (begin + len)
unfolding best_run
best_run-Similar sizes begin len h =
    find_run-Similar sizes (suc (length sizes)) (length sizes) begin len h
