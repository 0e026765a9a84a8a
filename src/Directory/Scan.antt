-- ===== src/Directory/Scan.antt =====
-- `dirlookup` and the search for an empty entry, on the entries of the directory as an array.
use operating_systems_cs.Prelude.{
  ℕ, zero, suc, ◌+◌, ◌*◌, ◌/◌, ◌%◌, ◌≤◌, ◌<◌, ◌≡◌, refl, ap, ◌∙◌, ◌⊎◌, inl, inr, Bool, true, false,
  arith, ltb, ◌==◌, if◌then◌else◌, Bool-cases, eq_of_eqb, List, length, Option, none, some, find,
}
use operating_systems_cs.Content.{Blocks, Node, bytes_from, read_done, readi}
use operating_systems_cs.Content.Write.{file_byte}
use operating_systems_cs.Content.Read.{IsFilled, readi_lem, readable}
use operating_systems_cs.Directory.{
  dirsiz, dirent_size, same_name, nth, de_inum, de_name, LookupEnd, absent, found, lookup_loop,
  dirlookup, empty_at, empty_loop,
}
use operating_systems_cs.Directory.Names.{same_name_ext, nth-bytes_from, length-bytes_from}

-- A directory: sound, filled, and of whole entries.
pub record IsDir (f : Blocks) (n : Node) : Type 0 where
  pub filled : IsFilled f n
  pub whole : n.size % 16 ≡ 0

-- Entry `k`.
abbrev pub inum_at : Blocks → Node → ℕ → ℕ
inum_at f n k = file_byte f n (16 * k) + 256 * file_byte f n (16 * k + 1)

abbrev pub name_at : Blocks → Node → ℕ → ℕ → ℕ
name_at f n k i = file_byte f n (16 * k + suc (suc i))

abbrev pub bytes_at : Blocks → Node → ℕ → List ℕ
bytes_at f n k = bytes_from (file_byte f n) (16 * k) 16

-- The entry `k` holds the name.
abbrev pub matches : (ℕ → ℕ) → Blocks → Node → ℕ → Bool
matches name f n k = if inum_at f n k == 0 then false else same_name dirsiz name (name_at f n k)

reads_entry :
    (k : ℕ) (f : Blocks) (n : Node)
    → IsDir f n
    → ltb (16 * k) n.size ≡ true
    → readi (16 * k) dirent_size f n ≡ read_done f n (bytes_at f n k)
reads_entry k f n v lt =
    let hm = v.filled.size_le in
    let hw = v.whole in
    elim (readi_lem (16 * k) dirent_size f n v.filled (ground arith) (omega arith)) [
      | inl (bad, fails) ↦ absurd (elim bad [ inl a ↦ ground arith | inr a ↦ ground arith ])
      | inr (le, reads) ↦
          let all : readable (16 * k) dirent_size n ≡ 16 = ground arith in
          reads ∙ ap (λ m. read_done f n (bytes_from (file_byte f n) (16 * k) m)) all
    ]

entry_inum : (k : ℕ) (f : Blocks) (n : Node) → de_inum (bytes_at f n k) ≡ inum_at f n k
entry_inum k f n =
    let e : 16 * k + 0 ≡ 16 * k = omega arith in
    let a = nth-bytes_from (file_byte f n) (16 * k) 16 0 (omega arith) ∙ ap (file_byte f n) e in
    let b = nth-bytes_from (file_byte f n) (16 * k) 16 1 (omega arith) in
    ap (λ x. x + 256 * nth (bytes_at f n k) 1) a ∙ ap (λ x. file_byte f n (16 * k) + 256 * x) b

entry_name :
    (name : ℕ → ℕ) (k : ℕ) (f : Blocks) (n : Node)
    → same_name dirsiz name (de_name (bytes_at f n k)) ≡ same_name dirsiz name (name_at f n k)
entry_name name k f n =
    same_name_ext dirsiz name (de_name (bytes_at f n k)) (name_at f n k)
      λ i lt. nth-bytes_from (file_byte f n) (16 * k) 16 (suc (suc i)) (omega arith)

-- The answer that the index of the first match stands for.
abbrev pub lookup_of : Blocks → Node → Option ℕ → LookupEnd
lookup_of f n none = absent
lookup_of f n (some k) = found (inum_at f n k) (16 * k)

lookup_loop_lem :
    (rounds m k : ℕ) (name : ℕ → ℕ) (f : Blocks) (n : Node)
    → IsDir f n
    → k + m ≡ n.size / 16
    → m < rounds
    → lookup_loop rounds (16 * k) name f n ≡ lookup_of f n (find m k (matches name f n))
unfolding lookup_loop find
lookup_loop_lem zero m k name f n v hk hm = absurd (omega arith)
lookup_loop_lem (suc rounds) zero k name f n v hk hm =
    let w = v.whole in
    let done : ltb (16 * k) n.size ≡ false = ground arith in rw (done, lookup_loop) refl
lookup_loop_lem (suc rounds) (suc m) k name f n v hk hm =
    let w = v.whole in
    let more : ltb (16 * k) n.size ≡ true = ground arith in
    let ih = lookup_loop_lem rounds m (k + 1) name f n v (omega arith) (omega arith) in
    let step : 16 * (k + 1) ≡ 16 * k + dirent_size = omega arith in
    let ih' : lookup_loop rounds (16 * k + dirent_size) name f n
        ≡ lookup_of f n (find m (k + 1) (matches name f n)) =
      rw step at ih in
    let len : (length (bytes_at f n k) == dirent_size) ≡ true =
      ap (λ x. x == dirent_size) (length-bytes_from (file_byte f n) (16 * k) 16) in
    elim (Bool-cases (inum_at f n k == 0)) [
      | inl free ↦ rw (more, reads_entry k f n v more, len, entry_inum k f n, free, lookup_loop) ih'
      | inr taken ↦ elim (Bool-cases (same_name dirsiz name (name_at f n k))) [
        | inl hit ↦
            rw
              (
                more,
                reads_entry k f n v more,
                len,
                entry_inum k f n,
                taken,
                entry_name name k f n,
                hit,
                lookup_loop,
              )
              refl
        | inr miss ↦
            rw
              (
                more,
                reads_entry k f n v more,
                len,
                entry_inum k f n,
                taken,
                entry_name name k f n,
                miss,
                lookup_loop,
              )
              ih'
      ]
    ]

-- `dirlookup` in a directory never panics: it finds the first entry in use that has the name, if there is
-- one.
pub dirlookup_lem :
    (name : ℕ → ℕ) (f : Blocks) (n : Node)
    → IsDir f n
    → dirlookup true name f n ≡ lookup_of f n (find (n.size / 16) 0 (matches name f n))
unfolding dirlookup
dirlookup_lem name f n v =
    lookup_loop_lem (suc n.size) (n.size / 16) 0 name f n v (omega arith) (omega arith)

empty_loop_lem :
    (rounds m k : ℕ) (f : Blocks) (n : Node)
    → IsDir f n
    → k + m ≡ n.size / 16
    → m < rounds
    → (j : ℕ) × (empty_loop rounds (16 * k) f n ≡ empty_at (16 * j))
      × (j ≤ n.size / 16)
      × ((j ≡ n.size / 16) ⊎ (inum_at f n j ≡ 0))
unfolding empty_loop
empty_loop_lem zero m k f n v hk hm = absurd (omega arith)
empty_loop_lem (suc rounds) zero k f n v hk hm =
    let w = v.whole in
    let done : ltb (16 * k) n.size ≡ false = ground arith in
    (k, rw (done, empty_loop) refl, omega arith, inl (omega arith))
empty_loop_lem (suc rounds) (suc m) k f n v hk hm =
    let w = v.whole in
    let more : ltb (16 * k) n.size ≡ true = ground arith in
    let (j, e, le, what) = empty_loop_lem rounds m (k + 1) f n v (omega arith) (omega arith) in
    let step : 16 * (k + 1) ≡ 16 * k + dirent_size = omega arith in
    let e' : empty_loop rounds (16 * k + dirent_size) f n ≡ empty_at (16 * j) = rw step at e in
    elim (Bool-cases (inum_at f n k == 0)) [
      | inl free ↦ (
        k,
        rw (more, reads_entry k f n v more, entry_inum k f n, free, empty_loop) refl,
        omega arith,
        inr (eq_of_eqb (inum_at f n k) 0 free),
      )
      | inr taken ↦
          (j, rw (more, reads_entry k f n v more, entry_inum k f n, taken, empty_loop) e', le, what)
    ]

-- The place where `dirlink` puts its entry: an empty entry, or the end of the directory.
pub empty_place :
    (f : Blocks) (n : Node)
    → IsDir f n
    → (j : ℕ) × (empty_loop (suc n.size) 0 f n ≡ empty_at (16 * j))
      × (j ≤ n.size / 16)
      × ((j ≡ n.size / 16) ⊎ (inum_at f n j ≡ 0))
empty_place f n v = empty_loop_lem (suc n.size) (n.size / 16) 0 f n v (omega arith) (omega arith)
