-- ===== src/Content/Slots.antt =====
-- The block numbers that a file holds, as one array: the direct ones, the indirect block at 12, and the
-- entries of the indirect block from 13 on.
use operating_systems_cs.Prelude.{
  ℕ, ◌-◌, ◌^◌, ◌≤◌, ◌<◌, ◌≡◌, ◌≢◌, refl, ap, inl, inr, true, false, not, arith, ltb, ◌==◌,
  if◌then◌else◌, none, some, Option-cases, some_inj, update, update_self, update_ne, find,
  find-some,
}
use operating_systems_cs.Content.{Blocks, Node, word_at, balloc}

abbrev pub nslots : ℕ
nslots = 141

unfoldable pub slot : Blocks → Node → ℕ → ℕ
slot f n s =
    if ltb s 13
    then n.addrs s
    else if n.addrs 12 == 0
    then 0
    else word_at (f.bytes (n.addrs 12)) (s - 13)

-- Block 0 is not free; the blocks that the file holds are in use, and it holds none of them twice.
pub record IsSound (f : Blocks) (n : Node) : Type 0 where
  pub small : f.size ≤ 2 ^ 32
  pub zero_used : f.used 0 ≡ true
  pub in_use : (s : ℕ) → s < nslots → slot f n s ≢ 0 → f.used (slot f n s) ≡ true
  pub once : (s t : ℕ) → s < nslots → t < nslots → slot f n s ≢ 0 → slot f n s ≡ slot f n t → s ≡ t

-- Byte `i` of the block in slot `s`; a block that is not there reads as zeros.
unfoldable pub content : Blocks → Node → ℕ → ℕ → ℕ
content f n s i = if slot f n s == 0 then 0 else f.bytes (slot f n s) i

-- What `balloc` returns was free, and is the only block that changes: it is in use and zero.
pub record Fresh (f f' : Blocks) (b : ℕ) : Type 0 where
  pub free : f.used b ≡ false
  pub bound : b < f.size
  pub size_kept : f'.size ≡ f.size
  pub used_new : (x : ℕ) → f'.used x ≡ (if b == x then true else f.used x)
  pub zeros : f'.bytes b ≡ (λ _. 0)
  pub bytes_kept : (x : ℕ) → b ≢ x → f'.bytes x ≡ f.bytes x

pub balloc-Fresh : (f f' : Blocks) (b : ℕ) → balloc f ≡ some (f', b) → Fresh f f' b
unfolding balloc
balloc-Fresh f f' b e = elim (Option-cases (find f.size 0 (λ x. not (f.used x)))) [
  | inl miss ↦ let e' : none ≡ some (f', b) = rw (miss, balloc) at e in cc
  | inr (x, hit) ↦
      let g = record f { used = update f.used x true; bytes = update f.bytes x (λ _. 0) } in
      let e' : some (g, x) ≡ some (f', b) = rw (hit, balloc) at e in
      let q = some_inj e' in
      let eb : x ≡ b = ap (λ z. z.1) q in
      let ef : g ≡ f' = ap (λ z. z.0) q in
      let (t, lo, hi) = find-some f.size 0 (λ y. not (f.used y)) hit in
      rw (← ef, ← eb)
        (record {
          free = ground arith;
          bound = omega arith;
          size_kept = refl;
          used_new = λ y. refl;
          zeros = update_self f.bytes x (λ _. 0);
          bytes_kept = λ y ne. update_ne f.bytes x y (λ _. 0) ne;
        })
]

-- Slot `s` of the file is filled: nothing else that the file holds has changed.
pub record Filled (s : ℕ) (f f' : Blocks) (n n' : Node) (b : ℕ) : Type 0 where
  pub sound : IsSound f' n'
  pub here : slot f' n' s ≡ b
  pub present : b ≢ 0
  pub same_size : n'.size ≡ n.size
  pub slots_kept : (t : ℕ) → t < nslots → s ≢ t → slot f' n' t ≡ slot f n t
  pub kept : slot f n s ≢ 0 → b ≡ slot f n s
  pub contents_kept : (t i : ℕ) → t < nslots → t ≢ 12 → content f' n' t i ≡ content f n t i

pub refl-Filled :
    (s : ℕ) (f : Blocks) (n : Node) → IsSound f n → slot f n s ≢ 0 → Filled s f f n n (slot f n s)
refl-Filled s f n v p = record {
  sound = v;
  here = refl;
  present = p;
  same_size = refl;
  slots_kept = λ t h ne. refl;
  kept = λ _. refl;
  contents_kept = λ t i h ne. refl;
}

pub content_there :
    (f : Blocks) (n : Node) (t i x : ℕ) → slot f n t ≡ x → x ≢ 0 → content f n t i ≡ f.bytes x i
unfolding content
content_there f n t i x e ne = let b : (x == 0) ≡ false = ground arith in rw (e, b)

pub content_absent : (f : Blocks) (n : Node) (t i : ℕ) → slot f n t ≡ 0 → content f n t i ≡ 0
unfolding content
content_absent f n t i e = rw e

pub slot_direct : (f : Blocks) (n : Node) (s : ℕ) → ltb s 13 ≡ true → slot f n s ≡ n.addrs s
unfolding slot
slot_direct f n s h = rw h

pub slot_absent :
    (f : Blocks) (n : Node) (s : ℕ) → ltb s 13 ≡ false → n.addrs 12 ≡ 0 → slot f n s ≡ 0
unfolding slot
slot_absent f n s h e = rw (h, e)

pub slot_entry :
    (f : Blocks) (n : Node) (s a : ℕ)
    → ltb s 13 ≡ false
    → n.addrs 12 ≡ a
    → a ≢ 0
    → slot f n s ≡ word_at (f.bytes a) (s - 13)
unfolding slot
slot_entry f n s a h e ne = let b : (a == 0) ≡ false = ground arith in rw (h, e, b)
