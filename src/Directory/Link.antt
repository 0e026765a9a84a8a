-- ===== src/Directory/Link.antt =====
-- `dirlookup` after `dirlink`.
use operating_systems_cs.Prelude.{
  ℕ, suc, ◌+◌, ◌-◌, ◌*◌, ◌/◌, ◌%◌, ◌^◌, ◌≤◌, ◌<◌, ◌≡◌, ◌≢◌, refl, sym, ap, ◌∙◌, ◌⊎◌, inl, inr, true,
  false, not, ◌&&◌, arith, ltb, ◌==◌, none, some, Option-cases, find, find-none, find_at,
}
use operating_systems_cs.Content.{Blocks, Node, writei}
use operating_systems_cs.Content.Slots.{IsSound}
use operating_systems_cs.Content.Write.{file_byte, max_bytes}
use operating_systems_cs.Content.Enough.{free_blocks}
use operating_systems_cs.Content.RoundTrip.{Refuses, Written, Misfits, writei_lem}
use operating_systems_cs.Directory.{
  dirsiz, dirent_size, same_name, copy_name, absent, found, dirlookup, new_entry, link_panics,
  exists, linked, link_end, dirlink,
}
use operating_systems_cs.Directory.Names.{same_name_ext, same_name-copy, same_name_refl}
use operating_systems_cs.Directory.Scan.{
  IsDir, inum_at, name_at, matches, lookup_of, dirlookup_lem, empty_place,
}

-- The directory `f'`, `n'` has the new entry at `k`, which was empty or behind the last one, and the
-- other entries of `f`, `n`.
pub record Linked (name : ℕ → ℕ) (inum k : ℕ) (f f' : Blocks) (n n' : Node) : Type 0 where
  pub free : (k ≡ n.size / 16) ⊎ (inum_at f n k ≡ 0)
  pub sound : IsSound f' n'
  pub dir : IsDir f' n'
  pub entry : inum_at f' n' k ≡ inum
  pub here : matches name f' n' k ≡ true
  pub size : k < n'.size / 16
  pub others :
      (j : ℕ)
      → j < n.size / 16
      → j ≢ k
      → (other : ℕ → ℕ) → matches other f' n' j ≡ matches other f n j

module _ (name : ℕ → ℕ) (inum k : ℕ) (f f' : Blocks) (n n' : Node) (v : IsDir f n) (pos : 0 < inum)
    (small : inum < 2 ^ 16) (hk : k ≤ n.size / 16) (what : (k ≡ n.size / 16) ⊎ (inum_at f n k ≡ 0))
    (fits : 16 * k + 16 ≤ max_bytes)
    (w : Written (new_entry name inum) (16 * k) dirent_size f f' n n') where
  new_byte : (i : ℕ) → i < 16 → file_byte f' n' (16 * k + i) ≡ new_entry name inum i
  new_byte i lt =
      let hit : (not (ltb (16 * k + i) (16 * k)) && ltb (16 * k + i) (16 * k + dirent_size))
          ≡ true =
        ground arith in
      let e : 16 * k + i - 16 * k ≡ i = omega arith in
      w.contents (16 * k + i) (omega arith) ∙ rw hit (ap (new_entry name inum) e)

  old_byte :
      (j i : ℕ)
      → j < n.size / 16
      → j ≢ k
      → i < 16
      → file_byte f' n' (16 * j + i) ≡ file_byte f n (16 * j + i)
  old_byte j i hj ne lt =
      let miss : (not (ltb (16 * j + i) (16 * k)) && ltb (16 * j + i) (16 * k + dirent_size))
          ≡ false =
        ground arith in
      let hm = v.filled.size_le in w.contents (16 * j + i) (ground arith) ∙ rw miss refl

  new_inum : inum_at f' n' k ≡ inum
  unfolding new_entry
  new_inum =
      let e : 16 * k + 0 ≡ 16 * k = omega arith in
      let a : file_byte f' n' (16 * k) ≡ inum % 256 =
        ap (file_byte f' n') (sym e) ∙ new_byte 0 (omega arith) in
      let b : file_byte f' n' (16 * k + 1) ≡ inum / 256 % 256 = new_byte 1 (omega arith) in
      ap (λ x. x + 256 * file_byte f' n' (16 * k + 1)) a
      ∙ ap (λ x. inum % 256 + 256 * x) b
      ∙ (omega arith)

  new_name : same_name dirsiz name (name_at f' n' k) ≡ true
  unfolding new_entry
  new_name =
      same_name_ext dirsiz name (name_at f' n' k) (copy_name dirsiz name)
        (λ i lt. new_byte (suc (suc i)) (omega arith))
      ∙ same_name-copy dirsiz name name
      ∙ same_name_refl dirsiz name

  old_entry :
      (j : ℕ)
      → j < n.size / 16
      → j ≢ k
      → (other : ℕ → ℕ) → matches other f' n' j ≡ matches other f n j
  old_entry j hj ne other =
      let e : 16 * j + 0 ≡ 16 * j = omega arith in
      let a : file_byte f' n' (16 * j) ≡ file_byte f n (16 * j) =
        ap (file_byte f' n') (sym e) ∙ old_byte j 0 hj ne (omega arith) ∙ ap (file_byte f n) e in
      let b = old_byte j 1 hj ne (omega arith) in
      let c =
        same_name_ext dirsiz other (name_at f' n' j) (name_at f n j)
          (λ i lt. old_byte j (suc (suc i)) hj ne (omega arith)) in
      rw (a, b, c) refl

  Written-Linked : Linked name inum k f f' n n'
  Written-Linked =
      let g = w.size_grown in
      let wh = v.whole in
      record {
        free = what;
        sound = w.sound;
        dir = record { filled = w.filled; whole = ground arith };
        entry = new_inum;
        here = rw (new_inum, new_name) (let b : (inum == 0) ≡ false = ground arith in rw b refl);
        size = ground arith;
        others = old_entry;
      }

lookup-Linked :
    (name : ℕ → ℕ) (inum k : ℕ) (f f' : Blocks) (n n' : Node)
    → k ≤ n.size / 16
    → find (n.size / 16) 0 (matches name f n) ≡ none
    → Linked name inum k f f' n n'
    → dirlookup true name f' n' ≡ found inum (16 * k)
lookup-Linked name inum k f f' n n' hk miss l =
    let first : find (n'.size / 16) 0 (matches name f' n') ≡ some k =
      find_at (n'.size / 16) 0 k (matches name f' n') (omega arith) (let h = l.size in omega arith)
        l.here
        (λ j lo lt.
          l.others j (omega arith) (λ e. omega arith) name
          ∙ find-none (n.size / 16) 0 (matches name f n) miss j (omega arith) (omega arith)) in
    dirlookup_lem name f' n' l.dir ∙ ap (lookup_of f' n') first ∙ ap (λ i. found i (16 * k)) l.entry

no_room :
    (k : ℕ) (n : Node)
    → k ≤ n.size / 16
    → n.size % 16 ≡ 0
    → Misfits (16 * k) dirent_size n
    → max_bytes < n.size + 16
no_room k n hk whole (inl past) = absurd (omega arith)
no_room k n hk whole (inr over) = omega arith

pub dirlink_lem :
    (name : ℕ → ℕ) (inum : ℕ) (f : Blocks) (n : Node)
    → IsSound f n
    → IsDir f n
    → 0 < inum
    → inum < 2 ^ 16
    → ((i : ℕ) × (off : ℕ) × (dirlookup true name f n ≡ found i off)
        × (dirlink true name inum f n ≡ exists))
      ⊎ ((dirlookup true name f n ≡ absent)
          × ((((free_blocks f < 32) ⊎ Refuses f dirent_size ⊎ (max_bytes < n.size + 16))
                × (dirlink true name inum f n ≡ link_panics))
              ⊎ ((k : ℕ) × (f' : Blocks) × (n' : Node) × (dirlink true name inum f n ≡ linked f' n')
                  × Linked name inum k f f' n n'
                  × (dirlookup true name f' n' ≡ found inum (16 * k)))))
unfolding dirlink
dirlink_lem name inum f n s v pos small =
    elim (Option-cases (find (n.size / 16) 0 (matches name f n))) [
      | inr (j, hit) ↦
          let e : dirlookup true name f n ≡ found (inum_at f n j) (16 * j) =
            dirlookup_lem name f n v ∙ ap (lookup_of f n) hit in
          inl (inum_at f n j, 16 * j, e, rw (e, dirlink) refl)
      | inl miss ↦
          let e : dirlookup true name f n ≡ absent =
            dirlookup_lem name f n v ∙ ap (lookup_of f n) miss in
          let (k, at_k, hk, what) = empty_place f n v in
          let entry = new_entry name inum in
          let linking : dirlink true name inum f n
              ≡ link_end (writei entry (16 * k) dirent_size f n) =
            rw (e, at_k, dirlink) refl in
          let big = v.filled.size_le in
          let whole = v.whole in
          inr (
            e,
            elim (writei_lem entry (16 * k) dirent_size f n s v.filled (omega arith)
                (omega arith)) [
                  | inl (bad, fails) ↦
                      inl (inr (inr (no_room k n hk whole bad)), linking ∙ ap link_end fails)
                  | inr (fits, ends) ↦ elim ends [
                    | inl (few, panics) ↦ inl (
                      elim few [ inl h ↦ inl h | inr h ↦ inr (inl h) ],
                      linking ∙ ap link_end panics,
                    )
                    | inr later ↦
                        let (f', n', done, wrote) = later in
                        let l =
                          Written-Linked name inum k f f' n n' v pos small hk what fits.1 wrote in
                        inr (
                          k,
                          f',
                          n',
                          linking ∙ ap link_end done,
                          l,
                          lookup-Linked name inum k f f' n n' hk miss l,
                        )
                  ]
                ],
          )
    ]
