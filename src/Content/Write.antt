-- ===== src/Content/Write.antt =====
-- `writei` changes exactly the bytes that it is given.
use operating_systems_cs.Prelude.{
  ℕ, ◌+◌, ◌-◌, ◌*◌, ◌/◌, ◌%◌, ◌≤◌, ◌<◌, ◌≡◌, ◌≢◌, refl, sym, ap, ◌∙◌, ◌⊎◌, inl, inr, true, false,
  not, ◌&&◌, arith, ltb, ◌==◌, eq_of_eqb, if◌then◌else◌, Bool-cases, update, update_self, update_ne,
}
use operating_systems_cs.Content.{Blocks, Node, word_at, bsize, splice}
use operating_systems_cs.Content.Slots.{
  nslots, slot, slot_direct, slot_absent, slot_entry, IsSound, content, content_there,
  content_absent,
}
use operating_systems_cs.Content.Entry.{slot_of, Mapped}

-- Byte `p` of the file; one that has no block is 0.
abbrev pub file_byte : Blocks → Node → ℕ → ℕ
file_byte f n p = content f n (slot_of (p / 512)) (p % 512)

abbrev pub max_bytes : ℕ
max_bytes = 140 * 512

-- The block in slot `s` of a file gets new bytes.
module _ (s : ℕ) (f : Blocks) (n : Node) (b : ℕ) (new : ℕ → ℕ) (v : IsSound f n) (hs : s < nslots)
    (ne12 : s ≢ 12) (here : slot f n s ≡ b) (there : b ≢ 0) where
  abbrev stored : Blocks
  stored = record f { bytes = update f.bytes b new }

  block_apart : (t : ℕ) → t < nslots → s ≢ t → slot f n t ≢ 0 → b ≢ slot f n t
  block_apart t ht ne p e = ne (v.once s t hs ht (λ q. there (sym here ∙ q)) (here ∙ e))

  pub stored_slot : (t : ℕ) → t < nslots → slot stored n t ≡ slot f n t
  stored_slot t ht = elim (Bool-cases (ltb t 13)) [
    | inl direct ↦ slot_direct stored n t direct ∙ sym (slot_direct f n t direct)
    | inr indirect ↦ elim (Bool-cases (n.addrs 12 == 0)) [
      | inl z ↦
          let z' = eq_of_eqb (n.addrs 12) 0 z in
          slot_absent stored n t indirect z' ∙ sym (slot_absent f n t indirect z')
      | inr nz ↦
          let nz' : n.addrs 12 ≢ 0 = (λ q. ground arith) in
          let e12 = slot_direct f n 12 refl in
          let ne : b ≢ n.addrs 12 =
            (λ q. block_apart 12 (omega arith) ne12 (λ w. nz' (sym e12 ∙ w)) (q ∙ sym e12)) in
          slot_entry stored n t (n.addrs 12) indirect refl nz'
          ∙ ap (λ g. word_at g (t - 13)) (update_ne f.bytes b (n.addrs 12) new ne)
          ∙ sym (slot_entry f n t (n.addrs 12) indirect refl nz')
    ]
  ]

  pub stored-IsSound : IsSound stored n
  stored-IsSound = record {
    small = v.small;
    zero_used = v.zero_used;
    in_use = λ t ht. rw (stored_slot t ht) (v.in_use t ht);
    once = λ t u ht hu. rw (stored_slot t ht, stored_slot u hu) (v.once t u ht hu);
  }

  pub stored_here : (i : ℕ) → content stored n s i ≡ new i
  stored_here i =
      content_there stored n s i b (stored_slot s hs ∙ here) there
      ∙ ap (λ g. g i) (update_self f.bytes b new)

  pub stored_else : (t i : ℕ) → t < nslots → s ≢ t → content stored n t i ≡ content f n t i
  stored_else t i ht ne = elim (Bool-cases (slot f n t == 0)) [
    | inl z ↦
        let z' = eq_of_eqb (slot f n t) 0 z in
        content_absent stored n t i (stored_slot t ht ∙ z') ∙ sym (content_absent f n t i z')
    | inr nz ↦
        let nz' : slot f n t ≢ 0 = (λ q. ground arith) in
        content_there stored n t i (slot f n t) (stored_slot t ht) nz'
        ∙ ap (λ g. g i) (update_ne f.bytes b (slot f n t) new (block_apart t ht ne nz'))
        ∙ sym (content_there f n t i (slot f n t) refl nz')
  ]

-- The bytes of the file with `count` of them, from `off` on, replaced by `src`.
abbrev pub overwritten : Blocks → Node → (ℕ → ℕ) → ℕ → ℕ → ℕ → ℕ
overwritten f n src off count p =
    if not (ltb p off) && ltb p (off + count) then src (p - off) else file_byte f n p

-- The state `f'`, `n'` is that of the file with those bytes replaced.
pub record Wrote (src : ℕ → ℕ) (off count : ℕ) (f f' : Blocks) (n n' : Node) : Type 0 where
  pub sound : IsSound f' n'
  pub same_size : n'.size ≡ n.size
  pub contents : (p : ℕ) → p < max_bytes → file_byte f' n' p ≡ overwritten f n src off count p
  pub there :
      (p : ℕ)
      → p < max_bytes
      → ((off ≤ p) × (p < off + count)) ⊎ (slot f n (slot_of (p / 512)) ≢ 0)
      → slot f' n' (slot_of (p / 512)) ≢ 0

-- One round of the loop.
module _ (src : ℕ → ℕ) (off m : ℕ) (f f' : Blocks) (n n' : Node) (b : ℕ)
    (fits : m ≤ 512 - off % 512) (bound : off / 512 < 140)
    (q : Mapped (off / 512) f f' n n' b) where
  abbrev block : ℕ → ℕ
  block = splice (f'.bytes b) (off % bsize) src m

  old_block : (i : ℕ) → f'.bytes b i ≡ content f n (slot_of (off / 512)) i
  old_block i =
      sym (content_there f' n' (slot_of (off / 512)) i b q.here q.present)
      ∙ q.contents_kept (slot_of (off / 512)) i (ground arith) (λ e. ground arith)

  pub round-Wrote : Wrote src off m f (record f' { bytes = update f'.bytes b block }) n n'
  round-Wrote = record {
    sound =
        stored-IsSound s f' n' b block q.sound (ground arith) (λ e. ground arith) q.here q.present;
    same_size = q.same_size;
    contents = λ p hp. elim (Bool-cases (off / 512 == p / 512)) [
      | inl same ↦
          let es : slot_of (p / 512) ≡ s =
            ap slot_of (sym (eq_of_eqb (off / 512) (p / 512) same)) in
          ap (λ t. content (record f' { bytes = update f'.bytes b block }) n' t (p % 512)) es
          ∙ stored_here s f' n' b block q.sound (ground arith) (λ e. ground arith) q.here q.present
              (p % 512)
          ∙ inside p same
          ∙ ap
              (λ t.
                if not (ltb p off) && ltb p (off + m)
                then src (p - off)
                else content f n t (p % 512))
              (sym es)
      | inr other ↦
          stored_else s f' n' b block q.sound (ground arith) (λ e. ground arith) q.here q.present
            (slot_of (p / 512)) (p % 512) (ground arith) (λ e. ground arith)
          ∙ q.contents_kept (slot_of (p / 512)) (p % 512) (ground arith) (λ e. ground arith)
          ∙ outside p other
    ];
    there = λ p hp h.
        rw
          (stored_slot s f' n' b block q.sound (ground arith) (λ e. ground arith) q.here q.present
            (slot_of (p / 512)) (ground arith))
          (present p hp h);
  }
    where
      s : ℕ
      s = slot_of (off / 512)

      present :
          (p : ℕ)
          → p < max_bytes
          → ((off ≤ p) × (p < off + m)) ⊎ (slot f n (slot_of (p / 512)) ≢ 0)
          → slot f' n' (slot_of (p / 512)) ≢ 0
      present p hp (inl (lo, hi)) =
          let e : p / 512 ≡ off / 512 = omega arith in
          λ z. q.present (sym q.here ∙ sym (ap (λ t. slot f' n' (slot_of t)) e) ∙ z)
      present p hp (inr ne) = q.slots_kept (slot_of (p / 512)) (ground arith) (λ e. ground arith) ne

      inside :
          (p : ℕ)
          → (off / 512 == p / 512) ≡ true
          → block (p % 512) ≡ (
              if not (ltb p off) && ltb p (off + m)
              then src (p - off)
              else content f n (slot_of (off / 512)) (p % 512))
      inside p same = elim (Bool-cases (not (ltb p off) && ltb p (off + m))) [
        | inl hit ↦
            let h : (not (ltb (p % 512) (off % 512)) && ltb (p % 512) (off % 512 + m)) ≡ true =
              ground arith in
            let e : p % 512 - off % 512 ≡ p - off = ground arith in rw (hit, h) (ap src e)
        | inr miss ↦
            let h : (not (ltb (p % 512) (off % 512)) && ltb (p % 512) (off % 512 + m)) ≡ false =
              ground arith in
            rw (miss, h) (old_block (p % 512))
      ]

      outside :
          (p : ℕ) → (off / 512 == p / 512) ≡ false → file_byte f n p ≡ overwritten f n src off m p
      outside p other =
          let h : (not (ltb p off) && ltb p (off + m)) ≡ false = ground arith in rw h refl
