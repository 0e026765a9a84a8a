-- ===== src/Paths/Create.antt =====
-- A new directory entry is found by its path.
use mathlib.Core.Path.{fun_ext}
use operating_systems_cs.Prelude.{
  ℕ, zero, suc, ◌*◌, ◌^◌, ◌≤◌, ◌<◌, ◌≡◌, ◌≢◌, refl, sym, ap, ◌∙◌, inl, inr, true, false, arith,
  Bool-cases, eq_of_eqb, List, [], ◌∷◌, length, take, ◌==◌, some, update,
}
use operating_systems_cs.Content.{Blocks, Node}
use operating_systems_cs.Content.Slots.{IsSound}
use operating_systems_cs.Directory.{
  LookupEnd, nth, found, exists, link_panics, linked, dirlookup, dirlink,
}
use operating_systems_cs.Directory.Scan.{IsDir}
use operating_systems_cs.Directory.Link.{dirlink_lem}
use operating_systems_cs.Paths.{
  slash, skip_slashes, element, after_element, first_element, skipelem, Refs, get, put, t_dir,
  has_room, walked, walk, namex, entry_in,
}

-- A file name: no slash in it, and no longer than an entry can hold.
abbrev pub NoSlash : List ℕ → Type 0
NoSlash [] = Unit {0}
NoSlash (c ∷ cs) = (c ≢ slash) × NoSlash cs

pub record IsName (name : List ℕ) : Type 0 where
  pub some_char : 0 < length name
  pub fits : length name ≤ 14
  pub no_slash : NoSlash name

element_whole : (cs : List ℕ) → NoSlash cs → element cs ≡ cs
unfolding element
element_whole [] h = refl
element_whole (c ∷ cs) (ne, h) =
    let b : (c == slash) ≡ false = ground arith in rw b (ap (λ r. c ∷ r) (element_whole cs h))

after_whole : (cs : List ℕ) → NoSlash cs → after_element cs ≡ []
unfolding after_element
after_whole [] h = refl
after_whole (c ∷ cs) (ne, h) =
    let b : (c == slash) ≡ false = ground arith in rw b (after_whole cs h)

take_whole : (k : ℕ) (cs : List ℕ) → length cs ≤ k → take k cs ≡ cs
take_whole zero [] h = refl
take_whole (suc k) [] h = refl
take_whole zero (c ∷ cs) h = absurd (omega arith)
take_whole (suc k) (c ∷ cs) h = ap (λ r. c ∷ r) (take_whole k cs (omega arith))

skipelem_name : (name : List ℕ) → IsName name → skipelem (slash ∷ name) ≡ some ([], name)
unfolding skipelem first_element skip_slashes
skipelem_name [] v = absurd (let h = v.some_char in omega arith)
skipelem_name (c ∷ cs) v =
    let (ne, h) = v.no_slash in
    let b : (c == slash) ≡ false = ground arith in
    rw
      (
        b,
        after_whole (c ∷ cs) v.no_slash,
        element_whole (c ∷ cs) v.no_slash,
        take_whole 14 (c ∷ cs) v.fits,
      )
      refl

walk_end :
    (m : ℕ) (type : ℕ → ℕ) (entry : ℕ → List ℕ → LookupEnd) (k ip : ℕ) (r : Refs)
    → 0 < k
    → walk m type entry false k [] ip r ≡ walked r (some (ip, []))
unfolding walk skipelem first_element skip_slashes
walk_end m type entry zero ip r h = absurd (omega arith)
walk_end m type entry (suc k) ip r h = refl

linked_inj : (f f' : Blocks) (n n' : Node) → linked f n ≡ linked f' n' → (f ≡ f') × (n ≡ n')
linked_inj f f' n n' e = (cc, cc)

linked-found :
    (name : List ℕ) (inum : ℕ) (f f' : Blocks) (n n' : Node)
    → IsSound f n
    → IsDir f n
    → 0 < inum
    → inum < 2 ^ 16
    → dirlink true (nth name) inum f n ≡ linked f' n'
    → (k : ℕ) × (dirlookup true (nth name) f' n' ≡ found inum (16 * k))
linked-found name inum f f' n n' s d pos small e =
    elim (dirlink_lem (nth name) inum f n s d pos small) [
      | inl (i, off, l, x) ↦ let q : exists ≡ linked f' n' = sym x ∙ e in cc
      | inr (miss, ends) ↦ elim ends [
        | inl (few, x) ↦ let q : link_panics ≡ linked f' n' = sym x ∙ e in cc
        | inr (k, f1, n1, done, wrote, l) ↦
            let (ef, en) = linked_inj f1 f' n1 n' (sym done ∙ e) in (k, rw (← ef, ← en) l)
      ]
    ]

entry-found :
    (name : List ℕ) (inum root : ℕ) (f' : Blocks) (n' : Node) (nodes : ℕ → Node) (type : ℕ → ℕ)
    {off : ℕ}
    → type root ≡ t_dir
    → dirlookup true (nth name) f' n' ≡ found inum off
    → entry_in type f' (update nodes root n') root name ≡ found inum off
unfolding entry_in
entry-found name inum root f' n' nodes type isdir e =
    let self : (root == root) ≡ true = ground arith in rw (entry_in, self, isdir, e) refl

refs_kept : (root inum : ℕ) (r : Refs) → put root (get inum (get root r)) ≡ get inum r
refs_kept root inum r = fun_ext λ x. elim (Bool-cases (root == x)) [
  | inl same ↦
      let self : (root == root) ≡ true = ground arith in
      let rx : root ≡ x = ground arith in
      rw (← rx, self)
        (elim (Bool-cases (inum == root)) [
          | inl i ↦ let e = eq_of_eqb inum root i in rw (e, self) (omega arith)
          | inr i ↦ rw i (omega arith)
        ])
  | inr other ↦ elim (Bool-cases (inum == x)) [
    | inl i ↦ let ri : (root == inum) ≡ false = ground arith in rw (other, i, ri) refl
    | inr i ↦ rw (other, i) refl
  ]
]

-- After `dirlink` of a name in the root directory has returned, `namei` of a slash and the name gives the
-- new inode, with one reference to it and to no other, where the inode cache has room for the root and, with
-- it, for the new inode.
pub dirlink-namex :
    (name : List ℕ) (inum root cwd m : ℕ) (f f' : Blocks) (n n' : Node) (nodes : ℕ → Node)
    (type : ℕ → ℕ) (r : Refs)
    → IsSound f n
    → IsDir f n
    → 0 < inum
    → inum < 2 ^ 16
    → IsName name
    → type root ≡ t_dir
    → has_room m root r ≡ true
    → has_room m inum (get root r) ≡ true
    → dirlink true (nth name) inum f n ≡ linked f' n'
    → namex m type (entry_in type f' (update nodes root n')) false root cwd (slash ∷ name) r
      ≡ walked (get inum r) (some (inum, []))
unfolding namex walk
dirlink-namex name inum root cwd m f f' n n' nodes type r s d pos small v isdir room more e =
    let (k, there) = linked-found name inum f f' n n' s d pos small e in
    let entry : entry_in type f' (update nodes root n') root name ≡ found inum (16 * k) =
      entry-found name inum root f' n' nodes type isdir there in
    let free : (type root == 0) ≡ false = rw isdir refl in
    let dir : (type root == t_dir) ≡ true = rw isdir refl in
    rw
      (
        room,
        skipelem_name name v,
        free,
        dir,
        entry,
        more,
        walk_end m type (entry_in type f' (update nodes root n')) (length (slash ∷ name)) inum
            (put root (get inum (get root r))) (omega arith),
      )
      (ap (λ q. walked q (some (inum, []))) (refs_kept root inum r))
