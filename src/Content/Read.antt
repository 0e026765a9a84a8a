-- ===== src/Content/Read.antt =====
-- `readi` returns the bytes of the file.
use operating_systems_cs.Prelude.{
  ℕ, zero, suc, ◌+◌, ◌-◌, ◌/◌, ◌%◌, ◌^◌, ◌≤◌, ◌<◌, ◌≡◌, ◌≢◌, refl, sym, ap, ◌∙◌, ◌⊎◌, inl, inr,
  true, ◌||◌, ◌∷◌, ◌++◌, arith, ltb, ◌==◌, eq_of_eqb, if◌then◌else◌, Bool-cases, some,
}
use operating_systems_cs.Content.{
  Blocks, Node, bsize, chunk, read_loop, bytes_from, read_fails, read_done, read_end, readi,
}
use operating_systems_cs.Content.Slots.{slot, content_there}
use operating_systems_cs.Content.Entry.{slot_of, bmap_there}
use operating_systems_cs.Content.Write.{file_byte, max_bytes}

-- The blocks of the file are there up to its size, which `writei` keeps within bounds.
pub record IsFilled (f : Blocks) (n : Node) : Type 0 where
  pub size_le : n.size ≤ max_bytes
  pub there : (p : ℕ) → p < n.size → slot f n (slot_of (p / 512)) ≢ 0

bytes_from-append :
    (g : ℕ → ℕ) (a m k : ℕ) → bytes_from g a (m + k) ≡ bytes_from g a m ++ bytes_from g (a + m) k
bytes_from-append g a zero k =
    let e : a + 0 ≡ a = omega arith in let z : 0 + k ≡ k = omega arith in rw (e, z) refl
bytes_from-append g a (suc m) k =
    let e : a + 1 + m ≡ a + suc m = omega arith in
    let z : suc m + k ≡ suc (m + k) = omega arith in
    rw z (
      ap (λ l. g a ∷ l)
        (bytes_from-append g (a + 1) m k ∙ ap (λ x. bytes_from g (a + 1) m ++ bytes_from g x k) e))

pub bytes_from_ext :
    (g h : ℕ → ℕ) (a b m : ℕ)
    → ((i : ℕ) → i < m → g (a + i) ≡ h (b + i))
    → bytes_from g a m ≡ bytes_from h b m
bytes_from_ext g h a b zero same = refl
bytes_from_ext g h a b (suc m) same =
    let ea : a + 0 ≡ a = omega arith in
    let eb : b + 0 ≡ b = omega arith in
    let first : g a ≡ h b = sym (ap g ea) ∙ same 0 (omega arith) ∙ ap h eb in
    let rest = bytes_from_ext g h (a + 1) (b + 1) m λ i lt.
      (let xa : a + 1 + i ≡ a + suc i = omega arith in
        let xb : b + 1 + i ≡ b + suc i = omega arith in
        ap g xa ∙ same (suc i) (omega arith) ∙ sym (ap h xb)) in
    ap (λ x. x ∷ bytes_from g (a + 1) m) first ∙ ap (λ l. h b ∷ l) rest

read_loop_lem :
    (rounds off left : ℕ) (f : Blocks) (n : Node)
    → IsFilled f n
    → left ≤ rounds
    → off + left ≤ n.size
    → read_loop rounds off left f n ≡ some (f, n, bytes_from (file_byte f n) off left)
unfolding read_loop
read_loop_lem zero off left f n v hl hs = let z : left ≡ 0 = omega arith in rw z refl
read_loop_lem (suc rounds) off left f n v hl hs = elim (Bool-cases (left == 0)) [
  | inl z ↦ rw (eq_of_eqb left 0 z) refl
  | inr nz ↦
      let m = chunk off left in
      let s = slot_of (off / 512) in
      let small = v.size_le in
      let b = slot f n s in
      let there : slot f n (slot_of (off / 512)) ≢ 0 = v.there off (ground arith) in
      let found = bmap_there (off / 512) f n (ground arith) there in
      let ih = read_loop_lem rounds (off + m) (left - m) f n v (ground arith) (ground arith) in
      let block : bytes_from (f.bytes b) (off % bsize) m ≡ bytes_from (file_byte f n) off m =
        bytes_from_ext (f.bytes b) (file_byte f n) (off % bsize) off m λ i lt.
          (let d : (off + i) / 512 ≡ off / 512 = ground arith in
            let r : (off + i) % 512 ≡ off % 512 + i = ground arith in
            rw (d, r) (sym (content_there f n s (off % 512 + i) b refl there))) in
      let all : m + (left - m) ≡ left = ground arith in
      rw (nz, found, ih, read_loop)
        (ap (λ l. some (f, n, l))
          (ap (λ l. l ++ bytes_from (file_byte f n) (off + m) (left - m)) block
            ∙ sym (bytes_from-append (file_byte f n) off m (left - m))
            ∙ ap (bytes_from (file_byte f n) off) all))
]

-- What `readi` reads: nothing past the end of the file.
abbrev pub readable : ℕ → ℕ → Node → ℕ
readable off count n = if ltb n.size (off + count) then n.size - off else count

-- `readi` on a file whose blocks are there fails exactly when the offset is past the end or the range
-- overflows; otherwise it returns the bytes of the file from the offset on, `count` of them or as many as
-- there are, and changes nothing.
pub readi_lem :
    (off count : ℕ) (f : Blocks) (n : Node)
    → IsFilled f n
    → off < 2 ^ 32
    → count < 2 ^ 32
    → (((n.size < off) ⊎ (2 ^ 32 ≤ off + count)) × (readi off count f n ≡ read_fails))
      ⊎ ((off ≤ n.size)
          × (readi off count f n
              ≡ read_done f n (bytes_from (file_byte f n) off (readable off count n))))
unfolding readi
readi_lem off count f n v ho hc =
    elim (Bool-cases (ltb n.size off || ltb ((off + count) % 2 ^ 32) off)) [
      | inl bad ↦ inl (range_bad bad, rw bad refl)
      | inr good ↦
          let le : off ≤ n.size = ground arith in
          inr (
            le,
            rw good (
                ap read_end (
                  read_loop_lem (readable off count n) off (readable off count n) f n v
                    (omega arith) (ground arith))),
          )
    ]
  where
    range_bad :
        (ltb n.size off || ltb ((off + count) % 2 ^ 32) off) ≡ true
        → (n.size < off) ⊎ (2 ^ 32 ≤ off + count)
    range_bad bad = elim (Bool-cases (ltb n.size off)) [
      | inl h ↦ inl (ground arith)
      | inr h ↦ inr (ground arith)
    ]
