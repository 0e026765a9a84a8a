-- ===== src/Paths/Tests.antt =====
-- A small tree of directories, and the theorems at it.
use operating_systems_cs.Prelude.{
  if◌then◌else◌, ℕ, ◌≡◌, refl, sym, ◌∙◌, inl, inr, true, false, arith, ◌==◌, List, [], ◌∷◌, some,
  find, update,
}
use operating_systems_cs.Content.{Blocks, Node}
use operating_systems_cs.Content.Slots.{slot, IsSound}
use operating_systems_cs.Directory.{LookupEnd, nth, dirlookup, dirlink, linked, absent, found}
use operating_systems_cs.Directory.Scan.{IsDir, dirlookup_lem}
use operating_systems_cs.Directory.Link.{dirlink_lem}
use operating_systems_cs.Paths.{slash, get, has_room, cached, walked, skipelem, namex, entry_in}
use operating_systems_cs.Paths.Resolve.{follow, namex_lem}
use operating_systems_cs.Paths.Create.{IsName, dirlink-namex}

-- The path `//ab/c`.
abbrev path : List ℕ
path = 47 ∷ 47 ∷ 97 ∷ 98 ∷ 47 ∷ 99 ∷ []

skips : skipelem path ≡ some (99 ∷ [], 97 ∷ 98 ∷ [])
unfolding skipelem
skips = refl

abbrev dirs : ℕ → ℕ
dirs i = if i == 1 then 1 else if i == 9 then 2 else 0

abbrev entries : ℕ → List ℕ → LookupEnd
entries i [] = absent
entries i (c ∷ cs) = if c == 97 then found 1 0 else found 9 32

namex_lem_example :
    namex 20 dirs entries false 1 1 path (λ _. 0) ≡ walked (get 9 (λ _. 0)) (some (9, []))
unfolding has_room cached follow
namex_lem_example = namex_lem 20 dirs entries false 1 1 path (λ _. 0)

-- An empty root directory on a disk of 40 blocks.
abbrev blank : Blocks
blank = record {
  size = 40;
  used = λ b. b == 0;
  bytes = λ b i. 0;
  log_takes = λ k. true;
  logged = 0;
}

abbrev empty : Node
empty = record { addrs = λ i. 0; size = 0 }

blank-IsSound : IsSound blank empty
unfolding slot
blank-IsSound = record {
  small = omega arith;
  zero_used = refl;
  in_use = λ s hs ne. ground arith;
  once = λ s t hs ht ne e. ground arith;
}

empty-IsDir : IsDir blank empty
empty-IsDir = record {
  filled = record { size_le = omega arith; there = λ p lt. absurd (omega arith) };
  whole = omega arith;
}

-- The name `ab`.
abbrev file_name : List ℕ
file_name = 97 ∷ 98 ∷ []

file_name-IsName : IsName file_name
file_name-IsName = record {
  some_char = omega arith;
  fits = omega arith;
  no_slash = ((λ e. omega arith), ((λ e. omega arith), tt));
}

unused_name : dirlookup true (nth file_name) blank empty ≡ absent
unfolding find
unused_name = dirlookup_lem (nth file_name) blank empty empty-IsDir

-- The root directory with the file in it.
with_file :
    (f' : Blocks) × (n' : Node) × (dirlink true (nth file_name) 7 blank empty ≡ linked f' n')
with_file =
    elim (dirlink_lem (nth file_name) 7 blank empty blank-IsSound empty-IsDir (omega arith)
      (omega arith)) [
        | inl (i, off, l, x) ↦ let q : found i off ≡ absent = sym l ∙ unused_name in cc
        | inr (miss, ends) ↦ elim ends [
          | inl (few, x) ↦ absurd (elim few [
            | inl h ↦ omega arith
            | inr (inl (m, lo, hi, refused)) ↦ (let q : true ≡ false = refused in cc)
            | inr (inr h) ↦ omega arith
          ])
          | inr (k, f1, n1, done, wrote, l) ↦ (f1, n1, done)
        ]
      ]

dirlink-namex_example :
    namex 20 dirs
      (entry_in dirs with_file.0 (update (λ i. empty) 1 with_file.1))
      false
      1
      5
      (slash ∷ file_name)
      (λ i. 0)
    ≡ walked (get 7 (λ i. 0)) (some (7, []))
unfolding has_room cached
dirlink-namex_example =
    dirlink-namex file_name 7 1 5 20 blank with_file.0 empty with_file.1 (λ i. empty) dirs (λ i. 0)
      blank-IsSound empty-IsDir (omega arith) (omega arith) file_name-IsName refl refl refl
      with_file.2
