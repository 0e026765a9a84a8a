-- ===== src/Paths.antt =====
-- project4/fs.c: path names, `skipelem` and `namex`. A path is the list of its bytes before the final 0,
-- and so is a name. The number of inodes, their types and
-- the lookup in a directory are parameters of `namex`; `entry_in` is the lookup in the directories of
-- Directory. An inode is known by its number, and is in the inode cache while it has references. `namex`
-- locks an inode only while it looks into it; the locks are not part of this model.
pub mod Elements
pub mod Resolve
pub mod Create
pub mod Tests
use operating_systems_cs.Prelude.{
  ℕ, zero, suc, ◌+◌, ◌-◌, Bool, true, false, not, ◌&&◌, ◌||◌, List, [], ◌∷◌, ltb, ◌==◌,
  if◌then◌else◌, Option, none, some, update, take, length,
}
use operating_systems_cs.Content.{Blocks, Node}
use operating_systems_cs.Directory.{nth, LookupEnd, lookup_panics, absent, found, dirlookup}

abbrev pub slash : ℕ
slash = 47

abbrev pub dirsiz : ℕ
dirsiz = 14

-- `while(*path == '/') path++`.
unfoldable pub skip_slashes : List ℕ → List ℕ
skip_slashes [] = []
skip_slashes (c ∷ cs) = let rest = skip_slashes cs in if c == slash then rest else c ∷ cs

-- The bytes that `while(*path != '/' && *path != 0) path++` passes, and where it stops.
unfoldable pub element : List ℕ → List ℕ
element [] = []
element (c ∷ cs) = let rest = c ∷ element cs in if c == slash then [] else rest

unfoldable pub after_element : List ℕ → List ℕ
after_element [] = []
after_element (c ∷ cs) = let rest = after_element cs in if c == slash then c ∷ cs else rest

-- `skipelem` of a path without leading slashes: the rest of the path and the name, cut to DIRSIZ bytes.
unfoldable pub first_element : List ℕ → Option (List ℕ × List ℕ)
unfolding element after_element skip_slashes
first_element [] = none
first_element (c ∷ cs) =
    some (skip_slashes (after_element (c ∷ cs)), take dirsiz (element (c ∷ cs)))

unfoldable pub skipelem : List ℕ → Option (List ℕ × List ℕ)
unfolding first_element skip_slashes
skipelem path = first_element (skip_slashes path)

-- What the calls hold of the inode cache: the number of references to each inode.
abbrev pub Refs : Type 0
Refs = ℕ → ℕ

abbrev pub get : ℕ → Refs → Refs
get i r = update r i (r i + 1)

abbrev pub put : ℕ → Refs → Refs
put i r = update r i (r i - 1)

abbrev pub is_empty : List ℕ → Bool
is_empty [] = true
is_empty (c ∷ cs) = false

abbrev pub absolute : List ℕ → Bool
absolute [] = false
absolute (c ∷ cs) = c == slash

-- T_DIR, the type of directories; a free inode has type 0.
abbrev pub t_dir : ℕ
t_dir = 1

-- NINODE, the slots of the inode cache.
abbrev pub ninode : ℕ
ninode = 50

-- How many of the inodes below `n` the inode cache holds.
unfoldable pub cached : ℕ → Refs → ℕ
cached zero r = 0
cached (suc n) r = (if r n == 0 then 0 else 1) + cached n r

-- `iget` finds the slot of the inode or a free one; where it does not, it panics.
unfoldable pub has_room : ℕ → ℕ → Refs → Bool
unfolding cached
has_room n i r = not (r i == 0) || ltb (cached n r) ninode

-- `dirlookup(ip, name, 0)` on the directories of Directory, up to its `iget`.
pub entry_in : (ℕ → ℕ) → Blocks → (ℕ → Node) → ℕ → List ℕ → LookupEnd
entry_in type f nodes ip name = dirlookup (type ip == t_dir) (nth name) f (nodes ip)

-- What `namex` ends with: a panic, or the references and the inode, `none` for 0, with the last name.
pub data WalkEnd : Type 0 where
  walk_panics : WalkEnd
  walked : Refs → Option (ℕ × List ℕ) → WalkEnd

module _ (n : ℕ) (type : ℕ → ℕ) (entry : ℕ → List ℕ → LookupEnd) where
  -- The loop of `namex`, with a bound on its rounds. `ilock` panics for a free inode, `dirlookup` for a read
  -- that fails, and its `iget` where the inode cache is full.
  unfoldable pub walk : Bool → ℕ → List ℕ → ℕ → Refs → WalkEnd
  unfolding skipelem
  walk parent zero path ip r = walk_panics
  walk parent (suc rounds) path ip r = elim (skipelem path) [
    | none ↦ if parent then walked (put ip r) none else walked r (some (ip, []))
    | some (rest, name) ↦ elim (type ip == 0) [
      | true ↦ walk_panics
      | false ↦ elim (type ip == t_dir) [
        | false ↦ walked (put ip r) none
        | true ↦ elim (parent && is_empty rest) [
          | true ↦ walked r (some (ip, name))
          | false ↦ elim (entry ip name) [
            | lookup_panics ↦ walk_panics
            | absent ↦ walked (put ip r) none
            | found next off ↦ elim (has_room n next r) [
              | false ↦ walk_panics
              | true ↦ walk parent rounds rest next (put ip (get next r))
            ]
          ]
        ]
      ]
    ]
  ]

  -- `namex` of a process whose current directory is `cwd`; `root` is ROOTINO.
  unfoldable pub namex : Bool → ℕ → ℕ → List ℕ → Refs → WalkEnd
  unfolding walk
  namex parent root cwd path r =
      let start = if absolute path then root else cwd in
      if absolute path && not (has_room n root r)
      then walk_panics
      else walk parent (suc (length path)) path start (get start r)
