-- ===== src/Inodes/Once.antt =====
-- An inode of the disk is in the cache at most once.
use operating_systems_cs.Prelude.{
  ℕ, ◌+◌, ◌-◌, ◌<◌, ◌≡◌, ◌≢◌, refl, sym, ap, ◌⊎◌, inl, inr, true, false, arith, ◌==◌, Bool-cases,
  eq_of_eqb, none, some, Option-cases, some_inj, update, update_self, update_ne, find, find-some,
  find-none,
}
use operating_systems_cs.Inodes.{ninode, Inode, Icache, is_inode, iget, unused, iput}

-- No two slots with references hold the same inode.
pub record Once (c : Icache) : Type 0 where
  pub once :
      (i j : ℕ)
      → i < ninode
      → j < ninode
      → 0 < (c i).ref
      → 0 < (c j).ref
      → (c i).dev ≡ (c j).dev
      → (c i).inum ≡ (c j).inum
      → i ≡ j

-- The slot `i` holds the inode; every other slot is as it was.
pub record Gets (dev inum : ℕ) (c : Icache) (c' : Icache) (i : ℕ) : Type 0 where
  pub slot : i < ninode
  pub same_dev : (c' i).dev ≡ dev
  pub same_inum : (c' i).inum ≡ inum
  pub counted : (c' i).ref ≡ (c i).ref + 1
  pub others : (j : ℕ) → i ≢ j → c' j ≡ c j

recount-Once :
    (i : ℕ) (c : Icache) (x : Inode)
    → x.dev ≡ (c i).dev
    → x.inum ≡ (c i).inum
    → (0 < x.ref → 0 < (c i).ref)
    → Once c
    → Once (update c i x)
recount-Once i c x ed en pos o = record { once = λ j k hj hk pj pk e f. ground (arith, o.once j k) }

fresh-Once :
    (i : ℕ) (c : Icache) (x : Inode)
    → ((j : ℕ) → j < ninode → is_inode x.dev x.inum (c j) ≡ false)
    → Once c
    → Once (update c i x)
fresh-Once i c x absent o = record {
  once = λ j k hj hk pj pk e f. ground (arith, o.once j k, absent j hj, absent k hk);
}

-- What `iget` finds: the inode, a slot without references, or nothing.
iget_cases :
    (dev inum : ℕ) (c c' : Icache) (i : ℕ)
    → iget dev inum c ≡ some (c', i)
    → ((i < ninode)
        × (is_inode dev inum (c i) ≡ true)
        × (c' ≡ update c i (record (c i) { ref = (c i).ref + 1 })))
      ⊎ ((i < ninode)
          × ((c i).ref ≡ 0)
          × ((j : ℕ) → j < ninode → is_inode dev inum (c j) ≡ false)
          × (c'
              ≡ update c i
                  (record (c i) { dev = dev; inum = inum; ref = 1; busy = false; valid = false })))
unfolding iget
iget_cases dev inum c c' i e = elim (Option-cases (find ninode 0 (λ j. is_inode dev inum (c j)))) [
  | inr (j, hit) ↦
      let e' : some (update c j (record (c j) { ref = (c j).ref + 1 }), j) ≡ some (c', i) =
        rw (hit, iget) at e in
      let q = some_inj e' in
      let ej : j ≡ i = ap (λ z. z.1) q in
      let ec : update c j (record (c j) { ref = (c j).ref + 1 }) ≡ c' = ap (λ z. z.0) q in
      let (t, lo, hi) = find-some ninode 0 (λ k. is_inode dev inum (c k)) hit in
      inl (rw (← ej) (hi, t, sym ec))
  | inl miss ↦ elim (Option-cases (find ninode 0 (λ j. (c j).ref == 0))) [
    | inl full ↦ let e' : none ≡ some (c', i) = rw (miss, full, iget) at e in cc
    | inr (j, hit) ↦
        let x = record (c j) { dev = dev; inum = inum; ref = 1; busy = false; valid = false } in
        let e' : some (update c j x, j) ≡ some (c', i) = rw (miss, hit, iget) at e in
        let q = some_inj e' in
        let ej : j ≡ i = ap (λ z. z.1) q in
        let ec : update c j x ≡ c' = ap (λ z. z.0) q in
        let (t, lo, hi) = find-some ninode 0 (λ k. (c k).ref == 0) hit in
        let none_there = find-none ninode 0 (λ k. is_inode dev inum (c k)) miss in
        inr (
          rw (← ej) (
            hi,
            eq_of_eqb (c j).ref 0 t,
            (λ k hk. none_there k (omega arith) (omega arith)),
            sym ec,
          ))
  ]
]

iget_found :
    (dev inum : ℕ) (c c' : Icache) (i : ℕ)
    → Once c
    → iget dev inum c ≡ some (c', i)
    → Once c' × Gets dev inum c c' i
iget_found dev inum c c' i o e = elim (iget_cases dev inum c c' i e) [
  | inl (hi, hit, ec) ↦
      let x = record (c i) { ref = (c i).ref + 1 } in
      let at_i : update c i x i ≡ x = update_self c i x in
      rw ec (
        recount-Once i c x refl refl (λ p. ground arith) o,
        record {
          slot = hi;
          same_dev = ground arith;
          same_inum = ground arith;
          counted = rw at_i refl;
          others = λ j ne. update_ne c i j x ne;
        },
      )
  | inr (hi, free, absent, ec) ↦
      let x = record (c i) { dev = dev; inum = inum; ref = 1; busy = false; valid = false } in
      let at_i : update c i x i ≡ x = update_self c i x in
      rw ec (
        fresh-Once i c x absent o,
        record {
          slot = hi;
          same_dev = rw at_i refl;
          same_inum = rw at_i refl;
          counted = rw (at_i, free) refl;
          others = λ j ne. update_ne c i j x ne;
        },
      )
]

-- `iget` panics only when every slot has a reference.
iget_full :
    (dev inum : ℕ) (c : Icache) → iget dev inum c ≡ none → (j : ℕ) → j < ninode → 0 < (c j).ref
unfolding iget
iget_full dev inum c e j hj = elim (Option-cases (find ninode 0 (λ k. is_inode dev inum (c k)))) [
  | inr (k, hit) ↦
      let e' : some (update c k (record (c k) { ref = (c k).ref + 1 }), k) ≡ none =
        rw (hit, iget) at e in
      cc
  | inl miss ↦ elim (Option-cases (find ninode 0 (λ k. (c k).ref == 0))) [
    | inl full ↦
        let b = find-none ninode 0 (λ k. (c k).ref == 0) full j (omega arith) (omega arith) in
        ground arith
    | inr (k, hit) ↦
        let x = record (c k) { dev = dev; inum = inum; ref = 1; busy = false; valid = false } in
        let e' : some (update c k x, k) ≡ none = rw (miss, hit, iget) at e in cc
  ]
]

-- When every inode is in the cache at most once, `iget` returns a slot that holds the inode with one
-- reference more than before, changes no other slot, and keeps every inode unique; or it panics, and then
-- every slot has a reference.
pub iget_lem :
    (dev inum : ℕ) (c : Icache)
    → Once c
    → ((c' : Icache) × (i : ℕ) × (iget dev inum c ≡ some (c', i)) × Once c' × Gets dev inum c c' i)
      ⊎ ((iget dev inum c ≡ none) × ((j : ℕ) → j < ninode → 0 < (c j).ref))
iget_lem dev inum c o = elim (Option-cases (iget dev inum c)) [
  | inl full ↦ inr (full, iget_full dev inum c full)
  | inr (r, e) ↦ let got = iget_found dev inum c r.0 r.1 o e in inl (r.0, r.1, e, got.0, got.1)
]

-- `iput` of an inode that has a reference and is not busy does not panic: it drops one reference, keeps
-- every inode unique, and frees the inode exactly when that was the last reference to a valid inode
-- without links.
pub iput_lem :
    (i : ℕ) (c : Icache)
    → Once c
    → 0 < (c i).ref
    → (c i).busy ≡ false
    → (c' : Icache) × (iput i c ≡ some (c', unused (c i)))
      × Once c'
      × ((c' i).ref + 1 ≡ (c i).ref)
      × ((j : ℕ) → i ≢ j → c' j ≡ c j)
unfolding iput
iput_lem i c o pos quiet = elim (Bool-cases (unused (c i))) [
  | inl last ↦
      let x = record (c i) { type = 0; busy = false; valid = false; ref = (c i).ref - 1 } in
      let at_i : update c i x i ≡ x = update_self c i x in
      (
        update c i x,
        rw (last, quiet) refl,
        recount-Once i c x refl refl (λ p. pos) o,
        rw at_i (omega arith),
        λ j ne. update_ne c i j x ne,
      )
  | inr more ↦
      let x = record (c i) { ref = (c i).ref - 1 } in
      let at_i : update c i x i ≡ x = update_self c i x in
      (
        update c i x,
        rw more refl,
        recount-Once i c x refl refl (λ p. pos) o,
        rw at_i (omega arith),
        λ j ne. update_ne c i j x ne,
      )
]
