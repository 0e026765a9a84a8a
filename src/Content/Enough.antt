-- ===== src/Content/Enough.antt =====
-- With enough free blocks, `balloc` and what calls it do not panic.
use operating_systems_cs.Prelude.{
  ℕ, zero, suc, ◌+◌, ◌-◌, ◌*◌, ◌/◌, ◌%◌, ◌≤◌, ◌<◌, ◌≡◌, refl, ap, ◌∙◌, inl, inr, Bool, true, false,
  not, Bool-cases, arith, ltb, ◌==◌, if◌then◌else◌, some, Option-cases, update, update_ne, find,
  find-some, find-none,
}
use operating_systems_cs.Content.{
  bsize, Blocks, Node, word_at, set_word, balloc, addr_of, entry_of, bmap, chunk, splice,
  write_loop,
}

-- How many of `k` blocks from `i` on are free.
abbrev free_from : ℕ → ℕ → (ℕ → Bool) → ℕ
free_from zero i used = 0
free_from (suc k) i used = (if used i then 0 else 1) + free_from k (i + 1) used

abbrev pub free_blocks : Blocks → ℕ
free_blocks f = free_from f.size 0 f.used

free_from-before :
    (k i b : ℕ) (used : ℕ → Bool) → b < i → free_from k i (update used b true) ≡ free_from k i used
free_from-before zero i b used h = refl
free_from-before (suc k) i b used h =
    rw (update_ne used b i true (λ e. omega arith), free_from-before k (i + 1) b used (omega arith))
      refl

free_from-update :
    (k i b : ℕ) (used : ℕ → Bool)
    → used b ≡ false
    → i ≤ b
    → b < i + k
    → free_from k i used ≡ 1 + free_from k i (update used b true)
free_from-update zero i b used e lo hi = absurd (omega arith)
free_from-update (suc k) i b used e lo hi = elim (Bool-cases (i == b)) [
  | inl same ↦
      let ib : i ≡ b = ground arith in
      let here : used i ≡ false = ap used ib ∙ e in
      let bi : (b == i) ≡ true = ground arith in
      rw (here, bi, free_from-before k (i + 1) b used (omega arith)) (omega arith)
  | inr other ↦
      let rest = free_from-update k (i + 1) b used e (ground arith) (omega arith) in
      rw (update_ne used b i true (λ q. ground arith), rest) (omega arith)
]

free_from-none :
    (k i : ℕ) (used : ℕ → Bool)
    → ((b : ℕ) → i ≤ b → b < i + k → not (used b) ≡ false)
    → free_from k i used ≡ 0
free_from-none zero i used h = refl
free_from-none (suc k) i used h =
    let here : used i ≡ true = let q = h i (omega arith) (omega arith) in ground arith in
    rw (here, free_from-none k (i + 1) used (λ b lo hi. h b (omega arith) (omega arith))) refl

balloc_free :
    (f : Blocks)
    → 0 < free_blocks f
    → (f' : Blocks) × (b : ℕ) × (balloc f ≡ some (f', b)) × (free_blocks f ≤ free_blocks f' + 1)
unfolding balloc
balloc_free f h = elim (Option-cases (find f.size 0 (λ b. not (f.used b)))) [
  | inl miss ↦
      let all =
        free_from-none f.size 0 f.used
          (λ b lo hi. find-none f.size 0 (λ x. not (f.used x)) miss b lo hi) in
      absurd (omega arith)
  | inr (b, hit) ↦
      let (free, lo, hi) = find-some f.size 0 (λ x. not (f.used x)) hit in
      let e : f.used b ≡ false = ground arith in
      let less = free_from-update f.size 0 b f.used e lo hi in
      (
        record f { used = update f.used b true; bytes = update f.bytes b (λ _. 0) },
        b,
        rw (hit, balloc) refl,
        omega arith,
      )
]

addr_of_free :
    (i : ℕ) (f : Blocks) (n : Node)
    → 0 < free_blocks f
    → (f' : Blocks) × (n' : Node) × (b : ℕ) × (addr_of i f n ≡ some (f', n', b))
      × (free_blocks f ≤ free_blocks f' + 1)
unfolding addr_of
addr_of_free i f n h = elim (Bool-cases (n.addrs i == 0)) [
  | inl new ↦
      let (f', b, e, less) = balloc_free f h in
      (f', record n { addrs = update n.addrs i b }, b, rw (new, e) refl, less)
  | inr old ↦ (f, n, n.addrs i, rw old refl, omega arith)
]

entry_of_free :
    (a k : ℕ) (f : Blocks)
    → 0 < free_blocks f
    → (f' : Blocks) × (b : ℕ) × (entry_of a k f ≡ some (f', b))
      × (free_blocks f ≤ free_blocks f' + 1)
unfolding entry_of
entry_of_free a k f h = elim (Bool-cases (word_at (f.bytes a) k == 0)) [
  | inl new ↦
      let (f', b, e, less) = balloc_free f h in
      (
        record f' { bytes = update f'.bytes a (set_word (f'.bytes a) k b) },
        b,
        rw (new, e) refl,
        less,
      )
  | inr old ↦ (f, word_at (f.bytes a) k, rw old refl, omega arith)
]

bmap_free :
    (bn : ℕ) (f : Blocks) (n : Node)
    → bn < 140
    → 2 ≤ free_blocks f
    → (f' : Blocks) × (n' : Node) × (b : ℕ) × (bmap bn f n ≡ some (f', n', b))
      × (free_blocks f ≤ free_blocks f' + 2)
unfolding bmap
bmap_free bn f n small h = elim (Bool-cases (ltb bn 12)) [
  | inl direct ↦
      let (f', n', b, e, less) = addr_of_free bn f n (omega arith) in
      (f', n', b, rw direct e, omega arith)
  | inr indirect ↦
      let fits : ltb (bn - 12) 128 ≡ true = ground arith in
      let (f1, n1, a, e1, less1) = addr_of_free 12 f n (omega arith) in
      let (f2, b, e2, less2) = entry_of_free a (bn - 12) f1 (omega arith) in
      (f2, n1, b, rw (indirect, fits, e1, e2) refl, omega arith)
]

-- Two free blocks for each byte, and a log that takes all, are enough for the loop of `writei`.
pub write_loop_free :
    (rounds : ℕ) (src : ℕ → ℕ) (off left : ℕ) (f : Blocks) (n : Node)
    → off + left ≤ 140 * bsize
    → 2 * left ≤ free_blocks f
    → ((k : ℕ) → f.logged ≤ k → k < f.logged + left → f.log_takes k ≡ true)
    → (f' : Blocks) × (n' : Node) × (write_loop rounds src off left f n ≡ some (f', n'))
unfolding write_loop
write_loop_free zero src off left f n fits h takes = (f, n, refl)
write_loop_free (suc rounds) src off left f n fits h takes = elim (Bool-cases (left == 0)) [
  | inl done ↦ (f, n, rw (done, write_loop) refl)
  | inr more ↦
      let pos : 0 < left = ground arith in
      let (f1, n1, b, e, less) = bmap_free (off / bsize) f n (omega arith) (omega arith) in
      let some_bytes : (0 < chunk off left) = ground arith in
      let bounded : chunk off left ≤ left = ground arith in
      let room = takes f.logged (omega arith) (omega arith) in
      let (f2, n2, later) =
        write_loop_free rounds (λ i. src (i + chunk off left)) (off + chunk off left)
          (left - chunk off left)
          (record f1 {
            bytes = update f1.bytes b (splice (f1.bytes b) (off % bsize) src (chunk off left));
            log_takes = f.log_takes;
            logged = f.logged + 1;
          })
          n1 (omega arith) (omega arith) (λ k lo hi. takes k (omega arith) (omega arith)) in
      (f2, n2, rw (more, room, e, write_loop) later)
]
