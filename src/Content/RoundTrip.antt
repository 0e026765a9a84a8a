-- ===== src/Content/RoundTrip.antt =====
-- `writei`, and `readi` after it.
use operating_systems_cs.Prelude.{
  ℕ, Bool, ◌+◌, ◌-◌, ◌*◌, ◌%◌, ◌^◌, ◌≤◌, ◌<◌, ◌≡◌, refl, sym, ap, ◌∙◌, ◌⊎◌, inl, inr, true, false,
  not, ◌&&◌, ◌||◌, arith, ltb, ◌==◌, if◌then◌else◌, Bool-cases, none, some, Option-cases, find,
  find-some, find-none,
}
use operating_systems_cs.Content.{
  Blocks, Node, bsize, write_loop, write_fails, write_panics, write_done, grown, write_end, writei,
  bytes_from, read_done, readi, ndirect, nindirect,
}
use operating_systems_cs.Content.Slots.{slot, IsSound, content}
use operating_systems_cs.Content.Write.{file_byte, max_bytes, overwritten, Wrote}
use operating_systems_cs.Content.Enough.{free_blocks, write_loop_free}
use operating_systems_cs.Content.Bytes.{write_loop-Wrote}
use operating_systems_cs.Content.Read.{IsFilled, bytes_from_ext, readable, readi_lem}

-- What `writei` leaves behind.
pub record Written (src : ℕ → ℕ) (off count : ℕ) (f f' : Blocks) (n n' : Node) : Type 0 where
  pub sound : IsSound f' n'
  pub filled : IsFilled f' n'
  pub size_grown :
      n'.size ≡ (if not (count == 0) && ltb n.size (off + count) then off + count else n.size)
  pub contents : (p : ℕ) → p < max_bytes → file_byte f' n' p ≡ overwritten f n src off count p

resized :
    (z : ℕ) (src : ℕ → ℕ) (off count : ℕ) (f f' : Blocks) (n n' : Node)
    → z ≡ (if not (count == 0) && ltb n.size (off + count) then off + count else n.size)
    → IsFilled f n
    → off ≤ n.size
    → off + count ≤ max_bytes
    → Wrote src off count f f' n n'
    → Written src off count f f' n (record n' { size = z })
unfolding slot content
resized z src off count f f' n n' e v le hm w = record {
  sound = record {
    small = w.sound.small;
    zero_used = w.sound.zero_used;
    in_use = w.sound.in_use;
    once = w.sound.once;
  };
  filled = record {
    size_le = let h = v.size_le in ground arith;
    there = λ p hp.
        (let h = v.size_le in
          w.there p (ground arith) (elim (Bool-cases (ltb p off)) [
            | inl low ↦ inr (v.there p (ground arith))
            | inr high ↦ elim (Bool-cases (ltb p n.size)) [
              | inl old ↦ inr (v.there p (ground arith))
              | inr new ↦ inl (ground arith, ground arith)
            ]
          ]));
  };
  size_grown = e;
  contents = w.contents;
}

Wrote-Written :
    (src : ℕ → ℕ) (off count : ℕ) (f f' : Blocks) (n n' : Node)
    → IsFilled f n
    → off ≤ n.size
    → off + count ≤ max_bytes
    → Wrote src off count f f' n n'
    → Written src off count f f' n (grown off count n')
Wrote-Written src off count f f' n n' v le hm w =
    elim (Bool-cases (not (count == 0) && ltb n'.size (off + count))) [
      | inl grows ↦
          let c : (not (count == 0) && ltb n.size (off + count)) ≡ true =
            rw (← w.same_size) grows in
          rw grows (resized (off + count) src off count f f' n n' (rw c refl) v le hm w)
      | inr same ↦
          let c : (not (count == 0) && ltb n.size (off + count)) ≡ false =
            rw (← w.same_size) same in
          rw same (resized n'.size src off count f f' n n' (rw c w.same_size) v le hm w)
    ]

-- The bounds that `writei` tests.
abbrev pub Fits : ℕ → ℕ → Node → Type 0
Fits off count n = (off ≤ n.size) × (off + count ≤ max_bytes)

abbrev pub Misfits : ℕ → ℕ → Node → Type 0
Misfits off count n = (n.size < off) ⊎ (max_bytes < off + count)

not-true : (b : Bool) → not b ≡ true → b ≡ false
not-true true h = cc
not-true false h = refl

not-false : (b : Bool) → not b ≡ false → b ≡ true
not-false true h = refl
not-false false h = cc

-- The log has no room for what one of the next `count` rounds logs.
abbrev pub Refuses : Blocks → ℕ → Type 0
Refuses f count = (k : ℕ) × (f.logged ≤ k) × (k < f.logged + count) × (f.log_takes k ≡ false)

-- `writei` of `count` bytes at `off` fails exactly when the offset is past the end of the file or the range
-- ends past the largest file; otherwise it panics, which it does only with fewer than two free blocks for
-- each byte or where the log refuses one of its rounds, or writes: afterwards exactly the
-- bytes of the range are those of the source, the file ends at the end of the range if that is
-- further, and it is sound and filled again.
pub writei_lem :
    (src : ℕ → ℕ) (off count : ℕ) (f : Blocks) (n : Node)
    → IsSound f n
    → IsFilled f n
    → off < 2 ^ 32
    → count < 2 ^ 32
    → (Misfits off count n × (writei src off count f n ≡ write_fails))
      ⊎ (Fits off count n
          × ((((free_blocks f < 2 * count) ⊎ Refuses f count)
                × (writei src off count f n ≡ write_panics))
              ⊎ ((f' : Blocks) × (n' : Node) × (writei src off count f n ≡ write_done f' n')
                  × Written src off count f f' n n')))
unfolding writei
writei_lem src off count f n v w ho hc =
    let big = w.size_le in
    elim (Bool-cases (ltb n.size off || ltb ((off + count) % 2 ^ 32) off)) [
      | inl bad ↦ inl (misfit bad, rw bad refl)
      | inr good ↦
          elim (Bool-cases (ltb ((ndirect + nindirect) * bsize) ((off + count) % 2 ^ 32))) [
            | inl long ↦ inl (inr (ground arith), rw (good, long) refl)
            | inr short ↦ inr (
              (ground arith, ground arith),
              rw (good, short) (ends (ground arith) (ground arith)),
            )
          ]
    ]
  where
    misfit : (ltb n.size off || ltb ((off + count) % 2 ^ 32) off) ≡ true → Misfits off count n
    misfit bad = elim (Bool-cases (ltb n.size off)) [
      | inl h ↦ inl (ground arith)
      | inr h ↦ inr (ground arith)
    ]

    few :
        off + count ≤ max_bytes
        → write_loop count src off count f n ≡ none
        → (free_blocks f < 2 * count) ⊎ Refuses f count
    few hm out = elim (Bool-cases (ltb (free_blocks f) (2 * count))) [
      | inl h ↦ inl (ground arith)
      | inr h ↦ elim (Option-cases (find count f.logged (λ k. not (f.log_takes k)))) [
        | inr (k, e) ↦
            let (hit, lo, hi) = find-some count f.logged (λ k. not (f.log_takes k)) e in
            inr (k, lo, hi, not-true _ hit)
        | inl all ↦
            let (f', n', e) =
              write_loop_free count src off count f n (omega arith) (ground arith) λ k lo hi.
                not-false _ (find-none count f.logged (λ k. not (f.log_takes k)) all k lo hi) in
            let q : none ≡ some (f', n') = sym out ∙ e in cc
      ]
    ]

    ends :
        off ≤ n.size
        → off + count ≤ max_bytes
        → (((free_blocks f < 2 * count) ⊎ Refuses f count)
            × (write_end off count (write_loop count src off count f n) ≡ write_panics))
          ⊎ ((f' : Blocks) × (n' : Node) × (write_end off count (write_loop count src off count f n)
                ≡ write_done f' n')
              × Written src off count f f' n n')
    ends le hm = elim (Option-cases (write_loop count src off count f n)) [
      | inl out ↦ inl (few hm out, rw out refl)
      | inr ((f', n'), e) ↦ inr (
        f',
        grown off count n',
        rw e refl,
        Wrote-Written src off count f f' n n' w le hm
            (write_loop-Wrote count src off count f f' n n' v (omega arith) e),
      )
    ]

write_done_inj :
    (f f' : Blocks) (n n' : Node) → write_done f n ≡ write_done f' n' → (f ≡ f') × (n ≡ n')
write_done_inj f f' n n' e = (cc, cc)

pub read_back :
    (src : ℕ → ℕ) (off count : ℕ) (f f' : Blocks) (n n' : Node)
    → off < 2 ^ 32
    → count < 2 ^ 32
    → Fits off count n
    → Written src off count f f' n n'
    → readi off count f' n' ≡ read_done f' n' (bytes_from src 0 count)
read_back src off count f f' n n' ho hc fits w = elim (readi_lem off count f' n' w.filled ho hc) [
  | inl (bad, fails) ↦
      let le = fits.0 in
      let hm = fits.1 in
      let g = w.size_grown in
      absurd (elim bad [ inl short ↦ ground arith | inr over ↦ omega arith ])
  | inr (le, reads) ↦
      let hm = fits.1 in
      let le0 = fits.0 in
      let g = w.size_grown in
      let all : readable off count n' ≡ count = ground arith in
      let same : bytes_from (file_byte f' n') off count ≡ bytes_from src 0 count =
        bytes_from_ext (file_byte f' n') src off 0 count λ i lt.
          (let i0 : off + i - off ≡ 0 + i = omega arith in
            let hit : (not (ltb (off + i) off) && ltb (off + i) (off + count)) ≡ true =
              ground arith in
            w.contents (off + i) (omega arith) ∙ rw hit (ap src i0)) in
      reads
      ∙ ap (λ k. read_done f' n' (bytes_from (file_byte f' n') off k)) all
      ∙ ap (read_done f' n') same
]

-- What `writei` has written, `readi` reads back: after a write of `count` bytes at `off`, `readi` of the
-- same range returns the bytes of the source and changes nothing.
pub readi-writei :
    (src : ℕ → ℕ) (off count : ℕ) (f f' : Blocks) (n n' : Node)
    → IsSound f n
    → IsFilled f n
    → off < 2 ^ 32
    → count < 2 ^ 32
    → writei src off count f n ≡ write_done f' n'
    → readi off count f' n' ≡ read_done f' n' (bytes_from src 0 count)
readi-writei src off count f f' n n' v w ho hc e = elim (writei_lem src off count f n v w ho hc) [
  | inl (bad, fails) ↦ let q : write_fails ≡ write_done f' n' = sym fails ∙ e in cc
  | inr (fits, ends) ↦ elim ends [
    | inl (few, panics) ↦ let q : write_panics ≡ write_done f' n' = sym panics ∙ e in cc
    | inr later ↦
        let (f1, n1, done, wrote) = later in
        let (ef, en) = write_done_inj f1 f' n1 n' (sym done ∙ e) in
        rw (← ef, ← en) (read_back src off count f f1 n n1 ho hc fits wrote)
  ]
]
