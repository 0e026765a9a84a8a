-- ===== src/Paths/Resolve.antt =====
-- `namex` follows the names of a path, and keeps its references to inodes in balance.
use mathlib.Core.Path.{fun_ext}
use operating_systems_cs.Prelude.{
  ℕ, zero, suc, ◌<◌, ◌≡◌, refl, ap, inl, inr, Bool, true, false, not, ◌&&◌, ◌⊎◌, ◌==◌, List, [],
  ◌∷◌, map, arith, if◌then◌else◌, Bool-cases, Option, none, some, take, length,
}
use operating_systems_cs.Paths.{
  dirsiz, Refs, get, put, is_empty, absolute, t_dir, has_room, WalkEnd, walk_panics, walked, walk,
  namex,
}
use operating_systems_cs.Directory.{LookupEnd, lookup_panics, absent, found}
use operating_systems_cs.Paths.Elements.{pieces, nonempty, no_names, skipelem_cases}

put-get : (i : ℕ) (r : Refs) → put i (get i r) ≡ r
put-get i r = fun_ext λ x. ground arith

put-get-get : (i j : ℕ) (r : Refs) → put i (get j (get i r)) ≡ get j r
put-get-get i j r = fun_ext λ x. ground arith

-- The elements of a path, as directories hold them.
abbrev pub elements : List ℕ → List (List ℕ)
elements path = map (take dirsiz) (nonempty (pieces path))

no_names-map : (ps : List (List ℕ)) → no_names (map (take dirsiz) ps) ≡ no_names ps
no_names-map [] = refl
no_names-map (p ∷ ps) = refl

-- The references after a call: one more to the inode that it returns, if it does.
abbrev pub ended : Refs → Option (Option (ℕ × List ℕ)) → WalkEnd
ended r none = walk_panics
ended r (some none) = walked r none
ended r (some (some (ip, name))) = walked (get ip r) (some (ip, name))

pub LookupEnd-cases :
    (e : LookupEnd) → (e ≡ lookup_panics) ⊎ (e ≡ absent) ⊎ ((i : ℕ) × (off : ℕ) × (e ≡ found i off))
LookupEnd-cases lookup_panics = inl refl
LookupEnd-cases absent = inr (inl refl)
LookupEnd-cases (found i off) = inr (inr (i, off, refl))

module _ (n : ℕ) (type : ℕ → ℕ) (entry : ℕ → List ℕ → LookupEnd) where
  -- What a list of names leads to from `ip`, with the other references `r`: the inode; or the directory that
  -- holds the last one, and that name; or 0. `none` is a panic: a free inode has to be read, a lookup panics,
  -- or the next inode does not fit into the inode cache.
  unfoldable pub follow : Bool → ℕ → List (List ℕ) → Refs → Option (Option (ℕ × List ℕ))
  follow parent ip [] r = some (if parent then none else some (ip, []))
  follow parent ip (name ∷ names) r = elim (type ip == 0) [
    | true ↦ none
    | false ↦ elim (type ip == t_dir) [
      | false ↦ some none
      | true ↦ elim (parent && no_names names) [
        | true ↦ some (some (ip, name))
        | false ↦ elim (entry ip name) [
          | lookup_panics ↦ none
          | absent ↦ some none
          | found next off ↦ elim (has_room n next (get ip r)) [
            | false ↦ none
            | true ↦ follow parent next names r
          ]
        ]
      ]
    ]
  ]

  follow_end :
      (parent : Bool) (ip : ℕ) (r : Refs)
      → (if parent then walked (put ip (get ip r)) none else walked (get ip r) (some (ip, [])))
        ≡ ended r (follow parent ip [] r)
  unfolding follow
  follow_end true ip r = ap (λ q. walked q none) (put-get ip r)
  follow_end false ip r = refl

  walk_lem :
      (parent : Bool) (rounds : ℕ) (path : List ℕ) (ip : ℕ) (r : Refs)
      → length path < rounds
      → walk n type entry parent rounds path ip (get ip r)
        ≡ ended r (follow parent ip (elements path) r)
  unfolding walk follow
  walk_lem parent zero path ip r h = absurd (omega arith)
  walk_lem parent (suc rounds) path ip r h = elim (skipelem_cases path) [
    | inl (e, e') ↦ rw (e, e', walk, follow) (follow_end parent ip r)
    | inr (rest, piece, e, e', lt, em) ↦ elim (Bool-cases (type ip == 0)) [
      | inl free ↦ rw (e, e', free, walk, follow) refl
      | inr used ↦ elim (Bool-cases (type ip == t_dir)) [
        | inr file ↦ rw (e, e', used, file, walk, follow) (ap (λ q. walked q none) (put-get ip r))
        | inl d ↦
            let same = no_names-map (nonempty (pieces rest)) in
            elim (Bool-cases (parent && no_names (nonempty (pieces rest)))) [
              | inl last ↦
                  let stop : (parent && is_empty rest) ≡ true = rw em last in
                  rw (e, e', used, d, stop, same, last, walk, follow) refl
              | inr more ↦
                  let onward : (parent && is_empty rest) ≡ false = rw em more in
                  elim (LookupEnd-cases (entry ip (take dirsiz piece))) [
                    | inl bad ↦ rw (e, e', used, d, onward, same, more, bad, walk, follow) refl
                    | inr (inl missing) ↦
                        rw (e, e', used, d, onward, same, more, missing, walk, follow)
                          (ap (λ q. walked q none) (put-get ip r))
                    | inr (inr (next, off, there)) ↦
                        elim (Bool-cases (has_room n next (get ip r))) [
                          | inr full ↦
                              rw (e, e', used, d, onward, same, more, there, full, walk, follow)
                                refl
                          | inl room ↦
                              rw
                                (
                                  e,
                                  e',
                                  used,
                                  d,
                                  onward,
                                  same,
                                  more,
                                  there,
                                  room,
                                  put-get-get ip next r,
                                  walk,
                                  follow,
                                )
                                (walk_lem parent rounds rest next r (omega arith))
                        ]
                  ]
            ]
      ]
    ]
  ]

  -- `namex` panics, where the root has to be fetched and does not fit into the inode cache. Otherwise it gives
  -- what following the elements of the path gives, from the root for a path that begins with a slash and
  -- from the current directory otherwise: it panics exactly where a free inode has to be read on the way, a
  -- lookup panics or the next inode does not fit; and else every reference that it takes is dropped again, but
  -- one to the inode that it returns.
  pub namex_lem :
      (parent : Bool) (root cwd : ℕ) (path : List ℕ) (r : Refs)
      → namex n type entry parent root cwd path r ≡ (
          if absolute path && not (has_room n root r)
          then walk_panics
          else ended r (follow parent (if absolute path then root else cwd) (elements path) r))
  unfolding namex
  namex_lem parent root cwd path r =
      ap (λ e. if absolute path && not (has_room n root r) then walk_panics else e)
        (walk_lem parent (suc (length path)) path (if absolute path then root else cwd) r
          (omega arith))
