-- ===== src/Log/Ops.antt =====
-- `begin_op`, `log_write` and `end_op`: the space in the log suffices for the operations in progress.
use operating_systems_cs.Prelude.{
  ℕ, suc, ◌+◌, ◌-◌, ◌*◌, ◌⊎◌, inl, inr, Bool-cases, leb, ◌≤◌, ◌≡◌, refl, true, List, [], ◌∷◌, ◌++◌,
  some, arith, ◌==◌, ◌||◌, length, length-append, has,
}
use operating_systems_cs.Log.{
  Log, less, panic, state, begin_op, end_op, log_write, log_block, logsize, maxopblocks,
}

-- What the running operations may still log: one number for each, at most MAXOPBLOCKS.
abbrev pub total : List ℕ → ℕ
total [] = 0
total (x ∷ xs) = x + total xs

abbrev Bounded : List ℕ → Type 0
Bounded [] = Unit {0}
Bounded (x ∷ xs) = (x ≤ maxopblocks) × Bounded xs

-- The log of a file system with at least LOGSIZE blocks for it, its header's included, and the budgets of
-- the operations in progress: what is logged and what may still be logged are LOGSIZE blocks at most.
pub record Reserved (l : Log) (budgets : List ℕ) : Type 0 where
  pub big : logsize ≤ l.size
  pub counted : l.outstanding ≡ length budgets
  pub bounded : Bounded budgets
  pub few : l.outstanding ≤ 3
  pub fits : length l.lh + total budgets ≤ logsize
  pub quiet : l.committing ≡ true → l.outstanding ≡ 0

total-le : (bs : List ℕ) → Bounded bs → total bs ≤ length bs * maxopblocks
total-le [] h = omega arith
total-le (x ∷ xs) (h, hs) = omega (arith, total-le xs hs)

-- Logging a block adds it unless it is there, keeps every other block, and the log grows by one at
-- most.
pub length-log_block : (b : ℕ) (xs : List ℕ) → length (log_block b xs) ≤ suc (length xs)
unfolding log_block
length-log_block b [] = omega arith
length-log_block b (x ∷ xs) = ground (arith, length-log_block b xs)

pub log_block_absorbs : (b : ℕ) (xs : List ℕ) → has b xs ≡ true → log_block b xs ≡ xs
unfolding log_block
log_block_absorbs b [] h = cc
log_block_absorbs b (x ∷ xs) h = ground (arith, log_block_absorbs b xs)

pub has-log_block : (a b : ℕ) (xs : List ℕ) → has a (log_block b xs) ≡ ((a == b) || has a xs)
unfolding log_block
has-log_block a b [] = refl
has-log_block a b (x ∷ xs) = ground (arith, has-log_block a b xs)

total-append : (xs ys : List ℕ) → total (xs ++ ys) ≡ total xs + total ys
total-append [] ys = omega arith
total-append (x ∷ xs) ys = omega (arith, total-append xs ys)

Bounded-at :
    (xs ys : List ℕ) (m k : ℕ) → k ≤ m → Bounded (xs ++ (m ∷ ys)) → Bounded (xs ++ (k ∷ ys))
Bounded-at [] ys m k le (h, hs) = (omega arith, hs)
Bounded-at (x ∷ xs) ys m k le (h, hs) = (h, Bounded-at xs ys m k le hs)

Bounded-drop : (xs ys : List ℕ) (m : ℕ) → Bounded (xs ++ (m ∷ ys)) → Bounded (xs ++ ys)
Bounded-drop [] ys m (h, hs) = hs
Bounded-drop (x ∷ xs) ys m (h, hs) = (h, Bounded-drop xs ys m hs)

-- An operation that `begin_op` lets in reserves room for MAXOPBLOCKS blocks, besides what is logged
-- and what the operations in progress may still log.
pub begin_op-Reserved :
    (l l' : Log) (budgets : List ℕ)
    → Reserved l budgets
    → begin_op l ≡ some l'
    → Reserved l' (maxopblocks ∷ budgets)
unfolding begin_op
begin_op-Reserved l l' budgets r e = ground (arith, total-le budgets r.bounded)

-- An operation that has not used up its budget can log a block, but for one case: where the log has
-- just LOGSIZE blocks, all but one of the LOGSIZE that are reserved are logged, and no more than this last one
-- is left of all budgets, `log_write` panics. Otherwise it does not panic, the block is in the log afterwards
-- with those that were there, and one unit of the budget is spent.
pub log_write-Reserved :
    (l : Log) (xs ys : List ℕ) (m b : ℕ)
    → Reserved l (xs ++ (suc m ∷ ys))
    → ((l.size ≡ logsize)
        × (suc (length l.lh) ≡ logsize)
        × (total (xs ++ (suc m ∷ ys)) ≡ 1)
        × (log_write b l ≡ panic))
      ⊎ ((l' : Log) × (log_write b l ≡ state l')
          × Reserved l' (xs ++ (m ∷ ys))
          × ((a : ℕ) → has a l'.lh ≡ ((a == b) || has a l.lh)))
unfolding log_write
log_write-Reserved l xs ys m b r = elim (Bool-cases (leb (l.size - 1) (length l.lh))) [
  | inl full ↦
      let big = r.big in
      let fits = r.fits in
      inl (
        ground (arith, totals),
        ground (arith, totals),
        ground (arith, totals),
        rw full (elim (Bool-cases (leb logsize (length l.lh))) [
          | inl e ↦ rw e refl
          | inr e ↦ rw e refl
        ]),
      )
  | inr room ↦ inr (
    record l { lh = log_block b l.lh },
    ground (arith, totals, lengths, r.fits, r.counted),
    record {
      big = r.big;
      counted = omega (arith, r.counted, lengths, length-append xs (m ∷ ys));
      bounded = Bounded-at xs ys (suc m) m (omega arith) r.bounded;
      few = r.few;
      fits = omega (arith, r.fits, totals, total-append xs (m ∷ ys), length-log_block b l.lh);
      quiet = r.quiet;
    },
    λ a. has-log_block a b l.lh,
  )
]
  where
    totals : total (xs ++ (suc m ∷ ys)) ≡ total xs + (suc m + total ys)
    totals = total-append xs (suc m ∷ ys)

    lengths : length (xs ++ (suc m ∷ ys)) ≡ length xs + suc (length ys)
    lengths = length-append xs (suc m ∷ ys)

-- While an operation is in progress, its `end_op` does not panic and gives its budget back; the caller
-- goes on to commit exactly when no other operation is in progress.
pub end_op-Reserved :
    (l : Log) (xs ys : List ℕ) (m : ℕ)
    → Reserved l (xs ++ (m ∷ ys))
    → (l' : Log) × (end_op l ≡ state l')
      × Reserved l' (xs ++ ys)
      × (l'.committing ≡ (length (xs ++ ys) == 0))
unfolding end_op
end_op-Reserved l xs ys m r = (
  record l { outstanding = less l.outstanding; committing = less l.outstanding == 0 },
  ground (arith, r.counted, lengths, r.quiet),
  record {
    big = r.big;
    counted = omega (arith, r.counted, lengths, length-append xs ys);
    bounded = Bounded-drop xs ys m r.bounded;
    few = omega (arith, r.counted, lengths, r.few);
    fits = omega (arith, r.fits, total-append xs (m ∷ ys), total-append xs ys);
    quiet = ground arith;
  },
  ground (arith, r.counted, lengths, length-append xs ys),
)
  where
    lengths : length (xs ++ (m ∷ ys)) ≡ length xs + suc (length ys)
    lengths = length-append xs (m ∷ ys)
