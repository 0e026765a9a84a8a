-- ===== src/Directory.antt =====
-- project4/fs.c: directories, which are files of 16-byte entries read and written by `readi` and `writei` of
-- Content. A name is an array of bytes up to a 0 or to DIRSIZ bytes. `dirlookup` gives the inode number
-- that it hands to `iget`, and the offset of the entry.
pub mod Names
pub mod Scan
pub mod Link
pub mod Tests
use operating_systems_cs.Prelude.{
  ℕ, zero, suc, ◌+◌, ◌*◌, ◌/◌, ◌%◌, ◌^◌, Bool, true, false, List, [], ◌∷◌, ltb, ◌==◌, if◌then◌else◌,
  length,
}
use operating_systems_cs.Content.{
  Blocks, Node, ReadEnd, read_done, read_fails, read_panics, readi, WriteEnd, write_done,
  write_fails, write_panics, writei,
}

abbrev pub dirsiz : ℕ
dirsiz = 14

abbrev pub dirent_size : ℕ
dirent_size = 16

-- `strncmp(s, t, n) == 0`, as in `namecmp`.
pub same_name : ℕ → (ℕ → ℕ) → (ℕ → ℕ) → Bool
same_name zero s t = true
same_name (suc n) s t =
    let rest = same_name n (λ i. s (suc i)) (λ i. t (suc i)) in
    if s 0 == t 0 then (if s 0 == 0 then true else rest) else false

-- `strncpy(de.name, name, n)`: zeros follow the first 0.
pub copy_name : ℕ → (ℕ → ℕ) → ℕ → ℕ
copy_name zero s i = 0
copy_name (suc n) s zero = s 0
copy_name (suc n) s (suc i) =
    let rest = copy_name n (λ j. s (suc j)) i in if s 0 == 0 then 0 else rest

abbrev pub nth : List ℕ → ℕ → ℕ
nth [] i = 0
nth (b ∷ bs) zero = b
nth (b ∷ bs) (suc i) = nth bs i

-- `de.inum` and `de.name` of the bytes of an entry.
abbrev pub de_inum : List ℕ → ℕ
de_inum bs = nth bs 0 + 256 * nth bs 1

abbrev pub de_name : List ℕ → ℕ → ℕ
de_name bs i = nth bs (suc (suc i))

-- What `dirlookup` ends with: a panic, 0, or an inode number and an offset.
pub data LookupEnd : Type 0 where
  lookup_panics : LookupEnd
  absent : LookupEnd
  found : ℕ → ℕ → LookupEnd

-- The loop of `dirlookup`, with a bound on its rounds. What `readi` does to the blocks is dropped: it
-- allocates nothing in a file whose blocks are there.
pub lookup_loop : ℕ → ℕ → (ℕ → ℕ) → Blocks → Node → LookupEnd
unfolding same_name
lookup_loop zero off name f n = absent
lookup_loop (suc rounds) off name f n = elim (ltb off n.size) [
  | false ↦ absent
  | true ↦ elim (readi off dirent_size f n) [
    | read_fails ↦ lookup_panics
    | read_panics ↦ lookup_panics
    | read_done f' n' bs ↦ elim (length bs == dirent_size) [
      | false ↦ lookup_panics
      | true ↦ elim (de_inum bs == 0) [
        | true ↦ lookup_loop rounds (off + dirent_size) name f n
        | false ↦ elim (same_name dirsiz name (de_name bs)) [
          | true ↦ found (de_inum bs) off
          | false ↦ lookup_loop rounds (off + dirent_size) name f n
        ]
      ]
    ]
  ]
]

-- Whether the inode's type is T_DIR is the first argument.
pub dirlookup : Bool → (ℕ → ℕ) → Blocks → Node → LookupEnd
unfolding lookup_loop
dirlookup is_dir name f n = if is_dir then lookup_loop (suc n.size) 0 name f n else lookup_panics

-- The loop of `dirlink` that looks for an empty entry: `none` is the panic.
pub data EmptyEnd : Type 0 where
  empty_panics : EmptyEnd
  empty_at : ℕ → EmptyEnd

pub empty_loop : ℕ → ℕ → Blocks → Node → EmptyEnd
empty_loop zero off f n = empty_at off
empty_loop (suc rounds) off f n = elim (ltb off n.size) [
  | false ↦ empty_at off
  | true ↦ elim (readi off dirent_size f n) [
    | read_fails ↦ empty_panics
    | read_panics ↦ empty_panics
    | read_done f' n' bs ↦ elim (length bs == dirent_size) [
      | false ↦ empty_panics
      | true ↦ elim (de_inum bs == 0) [
        | true ↦ empty_at off
        | false ↦ empty_loop rounds (off + dirent_size) f n
      ]
    ]
  ]
]

-- The bytes of the new entry.
pub new_entry : (ℕ → ℕ) → ℕ → ℕ → ℕ
unfolding copy_name
new_entry name inum zero = inum % 256
new_entry name inum (suc zero) = inum / 256 % 256
new_entry name inum (suc (suc i)) = copy_name dirsiz name i

-- `dirlink`: a panic, -1 where the name is there, or the directory with the new entry.
pub data LinkEnd : Type 0 where
  link_panics : LinkEnd
  exists : LinkEnd
  linked : Blocks → Node → LinkEnd

abbrev pub link_end : WriteEnd → LinkEnd
link_end write_fails = link_panics
link_end write_panics = link_panics
link_end (write_done f n) = linked f n

pub dirlink : Bool → (ℕ → ℕ) → ℕ → Blocks → Node → LinkEnd
unfolding dirlookup empty_loop new_entry
dirlink is_dir name inum f n = elim (dirlookup is_dir name f n) [
  | lookup_panics ↦ link_panics
  | found i off ↦ exists
  | absent ↦ elim (empty_loop (suc n.size) 0 f n) [
    | empty_panics ↦ link_panics
    | empty_at off ↦ link_end (writei (new_entry name inum) off dirent_size f n)
  ]
]
