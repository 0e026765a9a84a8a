-- ===== src/Content/Map.antt =====
-- `bmap` changes no byte of the file, whether it allocates or not, and keeps its blocks apart.
use operating_systems_cs.Prelude.{
  ℕ, ◌-◌, ◌≤◌, ◌<◌, ◌≡◌, ◌≢◌, refl, sym, ap, ◌∙◌, inl, inr, true, false, arith, ltb, ◌==◌,
  eq_of_eqb, if◌then◌else◌, Bool-cases, none, some, Option-cases, some_inj, update, update_self,
  update_ne,
}
use operating_systems_cs.Content.{Blocks, Node, word_at, balloc, addr_of}
use operating_systems_cs.Content.Words.{word_at_zero}
use operating_systems_cs.Content.Slots.{
  nslots, slot, slot_direct, slot_absent, slot_entry, IsSound, content, content_there,
  content_absent, Fresh, balloc-Fresh, Filled, refl-Filled,
}

-- What a change that fills the empty slot `s` with the fresh block `b` has to keep.
pub record Puts (s : ℕ) (f f' : Blocks) (n n' : Node) (b : ℕ) : Type 0 where
  pub here : slot f' n' s ≡ b
  pub others : (t : ℕ) → t < nslots → s ≢ t → slot f' n' t ≡ slot f n t
  pub size_kept : f'.size ≡ f.size
  pub same_size : n'.size ≡ n.size
  pub free : f.used b ≡ false
  pub used_new : (x : ℕ) → f'.used x ≡ (if b == x then true else f.used x)
  pub zeros : (i : ℕ) → f'.bytes b i ≡ 0
  pub bytes_kept : (x : ℕ) → b ≢ x → slot f n 12 ≢ x → f'.bytes x ≡ f.bytes x

eqb_refl : (a : ℕ) → (a == a) ≡ true
eqb_refl a = ground arith

-- A block in use is not the fresh one.
pub apart : (f : Blocks) (b x : ℕ) → f.used b ≡ false → f.used x ≡ true → b ≢ x
apart f b x p q e = let r : f.used b ≡ true = rw e q in cc

module _ (s : ℕ) (f f' : Blocks) (n n' : Node) (b : ℕ) (v : IsSound f n) (hs : s < nslots)
    (empty : slot f n s ≡ 0) (p : Puts s f f' n n' b) where
  Puts-present : b ≢ 0
  Puts-present e = let r : f.used 0 ≡ false = rw (← e) p.free in let q = v.zero_used in cc

  Puts-in_use : (t : ℕ) → t < nslots → slot f' n' t ≢ 0 → f'.used (slot f' n' t) ≡ true
  Puts-in_use t ht ne = elim (Bool-cases (s == t)) [
    | inl same ↦
        let e = eq_of_eqb s t same in
        let h : slot f' n' t ≡ b = rw (← e) p.here in rw (h, p.used_new b, eqb_refl b)
    | inr other ↦
        let e = p.others t ht (λ q. ground arith) in
        let old = v.in_use t ht (λ q. ne (e ∙ q)) in
        let new = p.used_new (slot f n t) in
        rw (e, new, old) (elim (Bool-cases (b == slot f n t)) [ inl c ↦ rw c | inr c ↦ rw c ])
  ]

  Puts-apart : (t : ℕ) → t < nslots → slot f n t ≢ 0 → b ≢ slot f n t
  Puts-apart t ht ne = apart f b (slot f n t) p.free (v.in_use t ht ne)

  Puts-once :
      (t u : ℕ) → t < nslots → u < nslots → slot f' n' t ≢ 0 → slot f' n' t ≡ slot f' n' u → t ≡ u
  Puts-once t u ht hu ne e = elim (Bool-cases (s == t)) [
    | inl st ↦ elim (Bool-cases (s == u)) [
      | inl su ↦ sym (eq_of_eqb s t st) ∙ eq_of_eqb s u su
      | inr su ↦
          let ou = p.others u hu (λ q. ground arith) in
          let h : slot f' n' t ≡ b = rw (← eq_of_eqb s t st) p.here in
          let eb : b ≡ slot f n u = sym h ∙ e ∙ ou in
          absurd (Puts-apart u hu (λ q. Puts-present (eb ∙ q)) eb)
    ]
    | inr st ↦
        let ot = p.others t ht (λ q. ground arith) in
        elim (Bool-cases (s == u)) [
          | inl su ↦
              let h : slot f' n' u ≡ b = rw (← eq_of_eqb s u su) p.here in
              let eb : b ≡ slot f n t = sym h ∙ sym e ∙ ot in
              absurd (Puts-apart t ht (λ q. Puts-present (eb ∙ q)) eb)
          | inr su ↦
              let ou = p.others u hu (λ q. ground arith) in
              v.once t u ht hu (λ q. ne (ot ∙ q)) (sym ot ∙ e ∙ ou)
        ]
  ]

  Puts-contents : (t i : ℕ) → t < nslots → t ≢ 12 → content f' n' t i ≡ content f n t i
  Puts-contents t i ht ne = elim (Bool-cases (s == t)) [
    | inl st ↦
        let est = eq_of_eqb s t st in
        let h : slot f' n' t ≡ b = rw (← est) p.here in
        let z : slot f n t ≡ 0 = rw (← est) empty in
        content_there f' n' t i b h Puts-present ∙ p.zeros i ∙ sym (content_absent f n t i z)
    | inr st ↦
        let ot = p.others t ht (λ q. ground arith) in
        elim (Bool-cases (slot f n t == 0)) [
          | inl z ↦
              let z' = eq_of_eqb (slot f n t) 0 z in
              content_absent f' n' t i (ot ∙ z') ∙ sym (content_absent f n t i z')
          | inr nz ↦
              let nz' : slot f n t ≢ 0 = (λ q. ground arith) in
              let not12 : slot f n 12 ≢ slot f n t =
                (λ q. ne (v.once t 12 ht (omega arith) nz' (sym q))) in
              let kept = p.bytes_kept (slot f n t) (Puts-apart t ht nz') not12 in
              content_there f' n' t i (slot f n t) ot nz'
              ∙ ap (λ g. g i) kept
              ∙ sym (content_there f n t i (slot f n t) refl nz')
        ]
  ]

  pub Puts-Filled : Filled s f f' n n' b
  Puts-Filled = record {
    sound = record {
      small = rw p.size_kept v.small;
      zero_used =
          p.used_new 0 ∙ elim (Bool-cases (b == 0)) [ inl c ↦ rw c | inr c ↦ rw c v.zero_used ];
      in_use = Puts-in_use;
      once = Puts-once;
    };
    here = p.here;
    present = Puts-present;
    same_size = p.same_size;
    slots_kept = p.others;
    kept = λ ne. absurd (ne empty);
    contents_kept = Puts-contents;
  }

module _ (i : ℕ) (f f' : Blocks) (n : Node) (b : ℕ) (v : IsSound f n) (hi : i ≤ 12)
    (empty : n.addrs i ≡ 0) (r : Fresh f f' b) where
  abbrev added : Node
  added = record n { addrs = update n.addrs i b }

  fresh_present : b ≢ 0
  fresh_present e = let q : f.used 0 ≡ false = rw (← e) r.free in let z = v.zero_used in cc

  -- The indirect block, if there is one, is not the fresh one.
  pointer_apart : (a : ℕ) → n.addrs 12 ≡ a → a ≢ 0 → b ≢ a
  pointer_apart a e ne =
      let here : slot f n 12 ≡ a = slot_direct f n 12 refl ∙ e in
      apart f b a r.free (rw here at (v.in_use 12 (omega arith) (λ q. ne (sym here ∙ q))))

  added_others : (t : ℕ) → t < nslots → i ≢ t → slot f' added t ≡ slot f n t
  added_others t ht ne = elim (Bool-cases (ltb t 13)) [
    | inl direct ↦
        slot_direct f' added t direct ∙ update_ne n.addrs i t b ne ∙ sym (slot_direct f n t direct)
    | inr indirect ↦ elim (Bool-cases (i == 12)) [
      | inl last ↦
          let e : n.addrs 12 ≡ 0 = rw (← eq_of_eqb i 12 last) empty in
          let e' : added.addrs 12 ≡ b = rw last in
          slot_entry f' added t b indirect e' fresh_present
          ∙ ap (λ g. word_at g (t - 13)) r.zeros
          ∙ word_at_zero (t - 13)
          ∙ sym (slot_absent f n t indirect e)
      | inr direct ↦
          let e : added.addrs 12 ≡ n.addrs 12 = update_ne n.addrs i 12 b (λ q. ground arith) in
          elim (Bool-cases (n.addrs 12 == 0)) [
            | inl z ↦
                let z' = eq_of_eqb (n.addrs 12) 0 z in
                slot_absent f' added t indirect (e ∙ z') ∙ sym (slot_absent f n t indirect z')
            | inr nz ↦
                let nz' : n.addrs 12 ≢ 0 = (λ q. ground arith) in
                slot_entry f' added t (n.addrs 12) indirect e nz'
                ∙ ap (λ g. word_at g (t - 13))
                    (r.bytes_kept (n.addrs 12) (pointer_apart (n.addrs 12) refl nz'))
                ∙ sym (slot_entry f n t (n.addrs 12) indirect refl nz')
          ]
    ]
  ]

  added-Puts : Puts i f f' n added b
  added-Puts = record {
    here = slot_direct f' added i (ground arith) ∙ update_self n.addrs i b;
    others = added_others;
    size_kept = r.size_kept;
    same_size = refl;
    free = r.free;
    used_new = r.used_new;
    zeros = λ j. ap (λ g. g j) r.zeros;
    bytes_kept = λ x ne ne12. r.bytes_kept x ne;
  }

  added-Filled : Filled i f f' n added b
  added-Filled =
      Puts-Filled i f f' n added b v (omega arith) (slot_direct f n i (ground arith) ∙ empty)
        added-Puts

pub addr_of-Filled :
    (i : ℕ) (f f' : Blocks) (n n' : Node) (b : ℕ)
    → IsSound f n
    → i ≤ 12
    → addr_of i f n ≡ some (f', n', b)
    → Filled i f f' n n' b
unfolding addr_of
addr_of-Filled i f f' n n' b v hi e = elim (Bool-cases (n.addrs i == 0)) [
  | inl z ↦ elim (Option-cases (balloc f)) [
    | inl out ↦ let e' : none ≡ some (f', n', b) = rw (z, out, addr_of) at e in cc
    | inr ((g, x), got) ↦
        let m = record n { addrs = update n.addrs i x } in
        let e' : some (g, m, x) ≡ some (f', n', b) = rw (z, got, addr_of) at e in
        let q = some_inj e' in
        let eg : g ≡ f' = ap (λ y. y.0) q in
        let em : m ≡ n' = ap (λ y. y.1) q in
        let ex : x ≡ b = ap (λ y. y.2) q in
        let r = balloc-Fresh f g x got in
        rw (← eg, ← em, ← ex) (added-Filled i f g n x v hi (eq_of_eqb (n.addrs i) 0 z) r)
  ]
  | inr nz ↦
      let e' : some (f, n, n.addrs i) ≡ some (f', n', b) = rw (nz, addr_of) at e in
      let q = some_inj e' in
      let eg : f ≡ f' = ap (λ y. y.0) q in
      let em : n ≡ n' = ap (λ y. y.1) q in
      let ex : slot f n i ≡ b = slot_direct f n i (ground arith) ∙ ap (λ y. y.2) q in
      let there : slot f n i ≢ 0 = (λ q. ground (arith, slot_direct f n i)) in
      rw (← eg, ← em, ← ex) (refl-Filled i f n v there)
]
