-- ===== src/Content/Entry.antt =====
-- The entries of the indirect block, and `bmap` as a whole.
use operating_systems_cs.Prelude.{
  ℕ, ◌+◌, ◌-◌, ◌<◌, ◌≡◌, ◌≢◌, refl, sym, ap, ◌∙◌, inl, inr, true, false, arith, ltb, ◌==◌,
  eq_of_eqb, if◌then◌else◌, Bool-cases, none, some, Option-cases, some_inj, update, update_self,
  update_ne,
}
use operating_systems_cs.Content.{Blocks, Node, word_at, set_word, balloc, addr_of, entry_of, bmap}
use operating_systems_cs.Content.Words.{word_at-set_word, word_at-set_word_ne}
use operating_systems_cs.Content.Slots.{
  nslots, slot, slot_direct, slot_absent, slot_entry, IsSound, content, Fresh, balloc-Fresh, Filled,
  refl-Filled,
}
use operating_systems_cs.Content.Map.{Puts, Puts-Filled, apart, addr_of-Filled}

module _ (k : ℕ) (f f' : Blocks) (n : Node) (a b : ℕ) (v : IsSound f n) (hk : k < 128)
    (here12 : slot f n 12 ≡ a) (there : a ≢ 0) (empty : word_at (f.bytes a) k ≡ 0)
    (r : Fresh f f' b) where
  abbrev stored : Blocks
  stored = record f' { bytes = update f'.bytes a (set_word (f'.bytes a) k b) }

  pointer : n.addrs 12 ≡ a
  pointer = sym (slot_direct f n 12 refl) ∙ here12

  block_apart : b ≢ a
  block_apart =
      apart f b a r.free (rw here12 at (v.in_use 12 (omega arith) (λ q. there (sym here12 ∙ q))))

  stored_block : stored.bytes a ≡ set_word (f'.bytes a) k b
  stored_block = update_self f'.bytes a (set_word (f'.bytes a) k b)

  stored_others : (t : ℕ) → t < nslots → 13 + k ≢ t → slot stored n t ≡ slot f n t
  stored_others t ht ne = elim (Bool-cases (ltb t 13)) [
    | inl direct ↦ slot_direct stored n t direct ∙ sym (slot_direct f n t direct)
    | inr indirect ↦
        slot_entry stored n t a indirect pointer there
        ∙ ap (λ g. word_at g (t - 13)) stored_block
        ∙ word_at-set_word_ne (f'.bytes a) k (t - 13) b (λ q. ground arith)
        ∙ ap (λ g. word_at g (t - 13)) (r.bytes_kept a block_apart)
        ∙ sym (slot_entry f n t a indirect pointer there)
  ]

  entry_slot : (g : Blocks) → slot g n (13 + k) ≡ word_at (g.bytes a) k
  entry_slot g =
      let e : 13 + k - 13 ≡ k = omega arith in
      slot_entry g n (13 + k) a (ground arith) pointer there ∙ ap (word_at (g.bytes a)) e

  stored-Puts : Puts (13 + k) f stored n n b
  stored-Puts = record {
    here =
        entry_slot stored
        ∙ ap (λ g. word_at g k) stored_block
        ∙ word_at-set_word (f'.bytes a) k b (let q = v.small in let w = r.bound in omega arith);
    others = stored_others;
    size_kept = r.size_kept;
    same_size = refl;
    free = r.free;
    used_new = r.used_new;
    zeros = λ j.
        ap (λ g. g j)
          (update_ne f'.bytes a b (set_word (f'.bytes a) k b) (λ q. block_apart (sym q)) ∙ r.zeros);
    bytes_kept = λ x ne ne12.
        update_ne f'.bytes a x (set_word (f'.bytes a) k b) (λ q. ne12 (here12 ∙ q))
        ∙ r.bytes_kept x ne;
  }

  stored-Filled : Filled (13 + k) f stored n n b
  stored-Filled =
      Puts-Filled (13 + k) f stored n n b v (omega arith) (entry_slot f ∙ empty) stored-Puts

  found-Filled : word_at (f.bytes a) k ≢ 0 → Filled (13 + k) f f n n (slot f n (13 + k))
  found-Filled ne = refl-Filled (13 + k) f n v (λ q. ne (sym (entry_slot f) ∙ q))

entry_of-Filled :
    (k : ℕ) (f f' : Blocks) (n : Node) (a b : ℕ)
    → IsSound f n
    → k < 128
    → slot f n 12 ≡ a
    → a ≢ 0
    → entry_of a k f ≡ some (f', b)
    → Filled (13 + k) f f' n n b
unfolding entry_of
entry_of-Filled k f f' n a b v hk here12 there e = elim (Bool-cases (word_at (f.bytes a) k == 0)) [
  | inl z ↦ elim (Option-cases (balloc f)) [
    | inl out ↦ let e' : none ≡ some (f', b) = rw (z, out, entry_of) at e in cc
    | inr ((g, x), got) ↦
        let h = record g { bytes = update g.bytes a (set_word (g.bytes a) k x) } in
        let e' : some (h, x) ≡ some (f', b) = rw (z, got, entry_of) at e in
        let q = some_inj e' in
        let eh : h ≡ f' = ap (λ y. y.0) q in
        let ex : x ≡ b = ap (λ y. y.1) q in
        let r = balloc-Fresh f g x got in
        rw (← eh, ← ex)
          (stored-Filled k f g n a x v hk here12 there (eq_of_eqb (word_at (f.bytes a) k) 0 z) r)
  ]
  | inr nz ↦
      let e' : some (f, word_at (f.bytes a) k) ≡ some (f', b) = rw (nz, entry_of) at e in
      let q = some_inj e' in
      let eg : f ≡ f' = ap (λ y. y.0) q in
      let p : n.addrs 12 ≡ a = sym (slot_direct f n 12 refl) ∙ here12 in
      let i : 13 + k - 13 ≡ k = omega arith in
      let s : slot f n (13 + k) ≡ word_at (f.bytes a) k =
        slot_entry f n (13 + k) a (ground arith) p there ∙ ap (word_at (f.bytes a)) i in
      let ex : slot f n (13 + k) ≡ b = s ∙ ap (λ y. y.1) q in
      rw (← eg, ← ex) (refl-Filled (13 + k) f n v (λ z. ground (arith, s)))
]

-- The slot of block `bn` of a file.
abbrev pub slot_of : ℕ → ℕ
slot_of bn = if ltb bn 12 then bn else bn + 1

-- The block of the file is there now, and every byte of the file is as it was.
pub record Mapped (bn : ℕ) (f f' : Blocks) (n n' : Node) (b : ℕ) : Type 0 where
  pub sound : IsSound f' n'
  pub here : slot f' n' (slot_of bn) ≡ b
  pub present : b ≢ 0
  pub same_size : n'.size ≡ n.size
  pub kept : slot f n (slot_of bn) ≢ 0 → b ≡ slot f n (slot_of bn)
  pub slots_kept : (t : ℕ) → t < nslots → t ≢ 12 → slot f n t ≢ 0 → slot f' n' t ≢ 0
  pub contents_kept : (t i : ℕ) → t < nslots → t ≢ 12 → content f' n' t i ≡ content f n t i

Filled-there :
    (s : ℕ) (f f' : Blocks) (n n' : Node) (b : ℕ)
    → Filled s f f' n n' b
    → (t : ℕ) → t < nslots
    → slot f n t ≢ 0
    → slot f' n' t ≢ 0
Filled-there s f f' n n' b p t ht ne = elim (Bool-cases (s == t)) [
  | inl same ↦ rw (← eq_of_eqb s t same) (λ z. p.present (sym p.here ∙ z))
  | inr other ↦ λ z. ne (sym (p.slots_kept t ht (λ q. ground arith)) ∙ z)
]

Filled-Mapped :
    (bn : ℕ) (f f' : Blocks) (n n' : Node) (b : ℕ)
    → Filled (slot_of bn) f f' n n' b
    → Mapped bn f f' n n' b
Filled-Mapped bn f f' n n' b p = record {
  sound = p.sound;
  here = p.here;
  present = p.present;
  same_size = p.same_size;
  kept = p.kept;
  slots_kept = λ t ht ne. Filled-there (slot_of bn) f f' n n' b p t ht;
  contents_kept = p.contents_kept;
}

indirect-Mapped :
    (k bn : ℕ) (f f1 f' : Blocks) (n n' : Node) (a b : ℕ)
    → slot_of bn ≡ 13 + k
    → k < 128
    → Filled 12 f f1 n n' a
    → Filled (13 + k) f1 f' n' n' b
    → Mapped bn f f' n n' b
indirect-Mapped k bn f f1 f' n n' a b e hk p q =
    let kept1 = p.slots_kept (13 + k) (omega arith) (λ z. omega arith) in
    record {
      sound = q.sound;
      here = rw e q.here;
      present = q.present;
      same_size = p.same_size;
      kept = rw e (λ ne. q.kept (λ z. ne (sym kept1 ∙ z)) ∙ kept1);
      slots_kept = λ t ht ne h.
          Filled-there (13 + k) f1 f' n' n' b q t ht (Filled-there 12 f f1 n n' a p t ht h);
      contents_kept = λ t i ht ne. q.contents_kept t i ht ne ∙ p.contents_kept t i ht ne;
    }

-- `bmap` of a block of a sound file that returns gives the block's number, not 0; the file stays sound,
-- keeps the block if it had one, and no byte of the file has changed: a new block is all zeros.
pub bmap_lem :
    (bn : ℕ) (f f' : Blocks) (n n' : Node) (b : ℕ)
    → IsSound f n
    → bmap bn f n ≡ some (f', n', b)
    → (bn < 140) × Mapped bn f f' n n' b
unfolding bmap
bmap_lem bn f f' n n' b v e = elim (Bool-cases (ltb bn 12)) [
  | inl direct ↦
      let e' : addr_of bn f n ≡ some (f', n', b) = rw direct at e in
      let s : slot_of bn ≡ bn = rw direct in
      (
        ground arith,
        Filled-Mapped bn f f' n n' b (rw s (addr_of-Filled bn f f' n n' b v (ground arith) e')),
      )
  | inr indirect ↦ elim (Bool-cases (ltb (bn - 12) 128)) [
    | inr beyond ↦ let e' : none ≡ some (f', n', b) = rw (indirect, beyond) at e in cc
    | inl fits ↦ elim (Option-cases (addr_of 12 f n)) [
      | inl out ↦ let e' : none ≡ some (f', n', b) = rw (indirect, fits, out, bmap) at e in cc
      | inr ((f1, n1, a), got) ↦ elim (Option-cases (entry_of a (bn - 12) f1)) [
        | inl out ↦
            let e' : none ≡ some (f', n', b) = rw (indirect, fits, got, out, bmap) at e in cc
        | inr ((f2, x), got2) ↦
            let e' : some (f2, n1, x) ≡ some (f', n', b) =
              rw (indirect, fits, got, got2, bmap) at e in
            let q = some_inj e' in
            let ef : f2 ≡ f' = ap (λ y. y.0) q in
            let en : n1 ≡ n' = ap (λ y. y.1) q in
            let ex : x ≡ b = ap (λ y. y.2) q in
            let p = addr_of-Filled 12 f f1 n n1 a v (omega arith) got in
            let hk : bn - 12 < 128 = ground arith in
            let r = entry_of-Filled (bn - 12) f1 f2 n1 a x p.sound hk p.here p.present got2 in
            let s : slot_of bn ≡ 13 + (bn - 12) = ground arith in
            (
              ground arith,
              rw (← ef, ← en, ← ex) (indirect-Mapped (bn - 12) bn f f1 f2 n n1 a x s hk p r),
            )
      ]
    ]
  ]
]

-- `bmap` of a block that is there changes nothing.
pub bmap_there :
    (bn : ℕ) (f : Blocks) (n : Node)
    → bn < 140
    → slot f n (slot_of bn) ≢ 0
    → bmap bn f n ≡ some (f, n, slot f n (slot_of bn))
unfolding bmap addr_of entry_of
bmap_there bn f n h ne = elim (Bool-cases (ltb bn 12)) [
  | inl direct ↦
      let s : slot_of bn ≡ bn = rw direct in
      let e : slot f n (slot_of bn) ≡ n.addrs bn = rw s (slot_direct f n bn (ground arith)) in
      let b : (n.addrs bn == 0) ≡ false = ground arith in
      rw (direct, b) (ap (λ x. some (f, n, x)) (sym e ∙ rw direct refl))
  | inr indirect ↦
      let fits : ltb (bn - 12) 128 ≡ true = ground arith in
      let s : slot_of bn ≡ bn + 1 = rw indirect in
      let far : ltb (bn + 1) 13 ≡ false = ground arith in
      let i : bn + 1 - 13 ≡ bn - 12 = omega arith in
      elim (Bool-cases (n.addrs 12 == 0)) [
        | inl z ↦ absurd (ne (rw s (slot_absent f n (bn + 1) far (eq_of_eqb (n.addrs 12) 0 z))))
        | inr nz ↦
            let nz' : n.addrs 12 ≢ 0 = (λ q. ground arith) in
            let e : slot f n (bn + 1) ≡ word_at (f.bytes (n.addrs 12)) (bn - 12) =
              slot_entry f n (bn + 1) (n.addrs 12) far refl nz'
              ∙ ap (word_at (f.bytes (n.addrs 12))) i in
            let ne' : slot f n (bn + 1) ≢ 0 = rw s at ne in
            let w : (word_at (f.bytes (n.addrs 12)) (bn - 12) == 0) ≡ false = ground arith in
            rw (indirect, fits, nz, w) (ap (λ x. some (f, n, x)) (sym e))
      ]
]
