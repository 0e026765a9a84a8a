-- ===== src/Content/Bytes.antt =====
-- `readi` and `writei` against the file as an array of bytes.
use operating_systems_cs.Prelude.{
  ℕ, Bool, zero, suc, ◌+◌, ◌-◌, ◌/◌, ◌%◌, ◌≤◌, ◌<◌, ◌≡◌, refl, ap, ◌∙◌, inl, inr, true, false, not,
  ◌&&◌, arith, ltb, ◌==◌, eq_of_eqb, Bool-cases, none, some, Option-cases, some_inj, update,
}
use operating_systems_cs.Content.{Blocks, Node, bmap, bsize, chunk, splice, write_loop}
use operating_systems_cs.Content.Slots.{slot, content, IsSound}
use operating_systems_cs.Content.Entry.{bmap_lem}
use operating_systems_cs.Content.Write.{Wrote, round-Wrote}

refl-Wrote : (src : ℕ → ℕ) (off : ℕ) (f : Blocks) (n : Node) → IsSound f n → Wrote src off 0 f f n n
refl-Wrote src off f n v = record {
  sound = v;
  same_size = refl;
  contents = λ p hp. ground arith;
  there = λ p hp h. elim h [ inl e ↦ absurd (omega arith) | inr e ↦ e ];
}

trans-Wrote :
    (src : ℕ → ℕ) (off m count : ℕ) (f g h : Blocks) (n n1 n2 : Node)
    → m ≤ count
    → Wrote src off m f g n n1
    → Wrote (λ i. src (i + m)) (off + m) (count - m) g h n1 n2
    → Wrote src off count f h n n2
trans-Wrote src off m count f g h n n1 n2 le a b = record {
  sound = b.sound;
  same_size = b.same_size ∙ a.same_size;
  contents = λ p hp. b.contents p hp ∙ elim (Bool-cases (ltb p (off + m))) [
    | inl low ↦
        let c1 : (not (ltb p (off + m)) && ltb p (off + m + (count - m))) ≡ false = ground arith in
        let c2 : ltb p (off + count) ≡ true = ground arith in
        rw (c1, c2) (a.contents p hp ∙ rw low refl)
    | inr high ↦
        let c1 : ltb p (off + m + (count - m)) ≡ ltb p (off + count) = ground arith in
        let c2 : ltb p off ≡ false = ground arith in
        elim (Bool-cases (ltb p (off + count))) [
          | inl hit ↦
              let e : p - (off + m) + m ≡ p - off = ground arith in
              rw (high, c1, c2, hit) (ap src e)
          | inr miss ↦ rw (high, c1, c2, miss) (a.contents p hp ∙ rw (high, c2) refl)
        ]
  ];
  there = λ p hp h. b.there p hp (elim (Bool-cases (ltb p (off + m))) [
    | inl low ↦ inr (a.there p hp (elim h [ inl e ↦ inl (e.0, ground arith) | inr e ↦ inr e ]))
    | inr high ↦ elim h [
      | inl e ↦ inl (ground arith, omega arith)
      | inr e ↦ inr (a.there p hp (inr e))
    ]
  ]);
}

-- The answers of the log do not matter to the file.
Wrote-log :
    (src : ℕ → ℕ) (off m : ℕ) (f g : Blocks) (n n' : Node) (takes : ℕ → Bool) (logged : ℕ)
    → Wrote src off m f g n n'
    → Wrote src off m f (record g { log_takes = takes; logged = logged }) n n'
unfolding slot content
Wrote-log src off m f g n n' takes logged w = record {
  sound = record {
    small = w.sound.small;
    zero_used = w.sound.zero_used;
    in_use = w.sound.in_use;
    once = w.sound.once;
  };
  same_size = w.same_size;
  contents = w.contents;
  there = w.there;
}

pub write_loop-Wrote :
    (rounds : ℕ) (src : ℕ → ℕ) (off left : ℕ) (f f' : Blocks) (n n' : Node)
    → IsSound f n
    → left ≤ rounds
    → write_loop rounds src off left f n ≡ some (f', n')
    → Wrote src off left f f' n n'
unfolding write_loop
write_loop-Wrote zero src off left f f' n n' v hl e =
    let q = some_inj e in
    let ef : f ≡ f' = ap (λ y. y.0) q in
    let en : n ≡ n' = ap (λ y. y.1) q in
    let z : left ≡ 0 = omega arith in rw (← ef, ← en, z) (refl-Wrote src off f n v)
write_loop-Wrote (suc rounds) src off left f f' n n' v hl e = elim (Bool-cases (left == 0)) [
  | inl z ↦
      let e' : some (f, n) ≡ some (f', n') = rw (z, write_loop) at e in
      let q = some_inj e' in
      let ef : f ≡ f' = ap (λ y. y.0) q in
      let en : n ≡ n' = ap (λ y. y.1) q in
      rw (← ef, ← en, eq_of_eqb left 0 z) (refl-Wrote src off f n v)
  | inr nz ↦ elim (Bool-cases (f.log_takes f.logged)) [
    | inr full ↦ let e' : none ≡ some (f', n') = rw (nz, full, write_loop) at e in cc
    | inl room ↦ elim (Option-cases (bmap (off / bsize) f n)) [
      | inl out ↦ let e' : none ≡ some (f', n') = rw (nz, room, out, write_loop) at e in cc
      | inr ((f1, n1, b), got) ↦
          let m = chunk off left in
          let g : Blocks = record f1 {
            bytes = update f1.bytes b (splice (f1.bytes b) (off % bsize) src m);
            log_takes = f.log_takes;
            logged = f.logged + 1;
          } in
          let e' : write_loop rounds (λ i. src (i + m)) (off + m) (left - m) g n1 ≡ some (f', n') =
            rw (nz, room, got, write_loop) at e in
          let (bound, q) = bmap_lem (off / bsize) f f1 n n1 b v got in
          let one =
            Wrote-log src off m f
              (record f1 { bytes = update f1.bytes b (splice (f1.bytes b) (off % bsize) src m) }) n
              n1 f.log_takes (f.logged + 1)
              (round-Wrote src off m f f1 n n1 b (ground arith) bound q) in
          let pos : 0 < m = ground arith in
          trans-Wrote src off m left f g f' n n1 n' (ground arith) one (
            write_loop-Wrote rounds (λ i. src (i + m)) (off + m) (left - m) g f' n1 n' one.sound
              (ground arith) e')
    ]
  ]
]
