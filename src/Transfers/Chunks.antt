-- ===== src/Transfers/Chunks.antt =====
-- filewrite writes as one `writei` would.
use mathlib.Core.Path.{subst}
use operating_systems_cs.Prelude.{
  ℕ, zero, suc, ◌+◌, ◌-◌, ◌^◌, ◌≤◌, ◌<◌, ◌≡◌, refl, ap, ◌∙◌, inl, inr, true, not, ◌&&◌, Bool-cases,
  arith, ltb, ◌==◌, eq_of_eqb,
}
use operating_systems_cs.Content.{Blocks, Node}
use operating_systems_cs.Content.Slots.{IsSound}
use operating_systems_cs.Content.Write.{file_byte, max_bytes}
use operating_systems_cs.Content.Read.{IsFilled}
use operating_systems_cs.Content.RoundTrip.{Written, writei_lem}
use operating_systems_cs.Files.{File, fd_inode}
use operating_systems_cs.Transfers.{
  End, panics, pipe, fails, wrote, got, next_chunk, write_chunks, filewrite,
}

-- Nothing is written.
Written-zero :
    (src : ℕ → ℕ) (off : ℕ) (f : Blocks) (n : Node)
    → IsSound f n
    → IsFilled f n
    → Written src off 0 f f n n
Written-zero src off f n v w = record {
  sound = v;
  filled = w;
  size_grown = refl;
  contents = λ p lt. ground arith;
}

-- Two writes, one behind the other, are one.
Written-append :
    (src : ℕ → ℕ) (off a b : ℕ) (f f1 f2 : Blocks) (n n1 n2 : Node)
    → off ≤ n.size
    → Written src off a f f1 n n1
    → Written (λ i. src (i + a)) (off + a) b f1 f2 n1 n2
    → Written src off (a + b) f f2 n n2
Written-append src off a b f f1 f2 n n1 n2 le v w = record {
  sound = w.sound;
  filled = w.filled;
  size_grown = let s = v.size_grown in let t = w.size_grown in ground arith;
  contents = λ p lt.
      let c = v.contents p lt in
      let d = w.contents p lt in
      let shift : off + a ≤ p → p - (off + a) + a ≡ p - off = λ h. omega arith in
      elim (Bool-cases (ltb p (off + a))) [
        | inl low ↦ ground arith
        | inr high ↦ elim (Bool-cases (ltb p (off + a + b))) [
          | inl in_second ↦
              let hit : (not (ltb p (off + a)) && ltb p (off + a + b)) ≡ true =
                rw (high, in_second) refl in
              let all : (not (ltb p off) && ltb p (off + (a + b))) ≡ true = ground arith in
              let d1 : file_byte f2 n2 p ≡ src (p - (off + a) + a) = rw hit at d in
              rw all (d1 ∙ ap src (shift (ground arith)))
          | inr beyond ↦ ground arith
        ]
      ];
}

-- How the loop ends from a file with `f` and `n`: with all bytes written; or after the first `done` bytes, and
-- the next chunk ends past the largest file; or with a panic. The result is
-- `total`.
abbrev pub Transfers : ℕ → (ℕ → ℕ) → ℕ → ℕ → Blocks → Node → End → Type 0
Transfers total src off count f n panics = Unit {0}
Transfers total src off count f n (pipe p) = ⊥
Transfers total src off count f n (got bytes off' f' n') = ⊥
Transfers total src off count f n (wrote m off' f' n') =
    (m ≡ total) × (off' ≡ off + count) × Written src off count f f' n n'
Transfers total src off count f n (fails off' f' n') =
    (off ≤ off')
    × (off' < off + count)
    × (max_bytes < off + count)
    × Written src off (off' - off) f f' n n'

-- The first chunk, and then the rest.
Transfers-append :
    (total : ℕ) (src : ℕ → ℕ) (off a b : ℕ) (f f1 : Blocks) (n n1 : Node) (end : End)
    → off ≤ n.size
    → Written src off a f f1 n n1
    → Transfers total (λ i. src (i + a)) (off + a) b f1 n1 end
    → Transfers total src off (a + b) f n end
Transfers-append total src off a b f f1 n n1 panics le v t = tt
Transfers-append total src off a b f f1 n n1 (pipe p) le v t = t
Transfers-append total src off a b f f1 n n1 (got bytes off' f' n') le v t = t
Transfers-append total src off a b f f1 n n1 (wrote m off' f' n') le v (val, at, w) =
    (val, omega arith, Written-append src off a b f f1 f' n n1 n' le v w)
Transfers-append total src off a b f f1 n n1 (fails off' f' n') le v (lo, hi, past, w) =
    let sum : a + (off' - (off + a)) ≡ off' - off = omega arith in
    (
      omega arith,
      omega arith,
      omega arith,
      rw (← sum) (Written-append src off a (off' - (off + a)) f f1 f' n n1 n' le v w),
    )

write_chunks-Transfers :
    (count rounds : ℕ) (src : ℕ → ℕ) (left off : ℕ) (f : Blocks) (n : Node)
    → left ≤ rounds
    → IsSound f n
    → IsFilled f n
    → off ≤ n.size
    → left < 2 ^ 31
    → Transfers count src off left f n (write_chunks count rounds src left off f n)
unfolding write_chunks
write_chunks-Transfers count zero src left off f n enough v w le lt =
    let z : left ≡ 0 = omega arith in rw z (refl, omega arith, Written-zero src off f n v w)
write_chunks-Transfers count (suc rounds) src left off f n enough v w le lt =
    elim (Bool-cases (left == 0)) [
      | inl done ↦
          let z = eq_of_eqb left 0 done in rw z (refl, omega arith, Written-zero src off f n v w)
      | inr more ↦
          let m = next_chunk left in
          let pos : 0 < m = ground arith in
          let small : m ≤ left = ground arith in
          let size_le = w.size_le in
          elim (writei_lem src off m f n v w (omega arith) (omega arith)) [
            | inl (bad, e) ↦
                let past : max_bytes < off + m = (elim bad [
                  | inl short ↦ absurd (omega arith)
                  | inr over ↦ over
                ]) in
                let none_written : off - off ≡ 0 = omega arith in
                rw (more, e, write_chunks)
                  (
                    omega arith,
                    omega arith,
                    omega arith,
                    rw none_written (Written-zero src off f n v w),
                  )
            | inr (fits, inl (few, e)) ↦ rw (more, e, write_chunks) tt
            | inr (fits, inr (f', n', e, wr)) ↦
                let g = wr.size_grown in
                let end = write_chunks count rounds (λ i. src (i + m)) (left - m) (off + m) f' n' in
                let rest =
                  write_chunks-Transfers count rounds (λ i. src (i + m)) (left - m) (off + m) f' n'
                    (omega arith) wr.sound wr.filled (ground arith) (omega arith) in
                let sum : m + (left - m) ≡ left = omega arith in
                let whole = Transfers-append count src off m (left - m) f f' n n' end le wr rest in
                rw (more, e, write_chunks)
                  (subst (λ x. Transfers count src off x f n end) sum whole)
          ]
    ]

-- filewrite of a file that is open for writing, from an offset that is not past the end of the file, ends:
-- with the count, and then the bytes of the range are those of the source, as after one write of all of them,
-- and the offset has moved by their number; or with -1, and then the range ends past the largest file and
-- only the bytes up to the new offset are written; or with a panic of `writei`.
pub filewrite-Transfers :
    (file : File) (src : ℕ → ℕ) (count : ℕ) (f : Blocks) (n : Node)
    → file.writable ≡ true
    → file.type ≡ fd_inode
    → IsSound f n
    → IsFilled f n
    → file.off ≤ n.size
    → count < 2 ^ 31
    → Transfers count src file.off count f n (filewrite file src count f n)
unfolding filewrite
filewrite-Transfers file src count f n writes inode v w le lt =
    rw (writes, inode)
      (write_chunks-Transfers count count src count file.off f n (omega arith) v w le lt)
