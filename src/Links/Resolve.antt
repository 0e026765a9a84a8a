-- ===== src/Links/Resolve.antt =====
-- What `namei` and `nameiparent` return.
use operating_systems_cs.Prelude.{
  ℕ, ◌≡◌, refl, sym, ap, ◌∙◌, inl, inr, Bool, true, not, ◌&&◌, Bool-cases, List, [], ◌∷◌, ◌==◌,
  if◌then◌else◌, eq_of_eqb, Option, none, some, some_inj,
}
use operating_systems_cs.Directory.{LookupEnd}
use operating_systems_cs.Paths.{Refs, get, absolute, has_room, WalkEnd, walk_panics, walked, namex}
use operating_systems_cs.Paths.Elements.{no_names}
use operating_systems_cs.Paths.Resolve.{elements, follow, ended, LookupEnd-cases, namex_lem}
use operating_systems_cs.Links.{t_dir, Fs, entry_at, after_walk, resolve}
use operating_systems_cs.Links.Balance.{IsFs, IsFs-ref}

-- Where a path starts.
abbrev pub start : ℕ → List ℕ → ℕ
start cwd path = if absolute path then 1 else cwd

follow_dir :
    (n : ℕ) (type : ℕ → ℕ) (entry : ℕ → List ℕ → LookupEnd) (ip : ℕ) (names : List (List ℕ))
    (r : Refs) (dp : ℕ) (name : List ℕ)
    → follow n type entry true ip names r ≡ some (some (dp, name))
    → type dp ≡ t_dir
unfolding follow
follow_dir n type entry ip [] r dp name h = let q : none ≡ some (dp, name) = some_inj h in cc
follow_dir n type entry ip (x ∷ names) r dp name h = elim (Bool-cases (type ip == 0)) [
  | inl free ↦ let q : none ≡ some (some (dp, name)) = rw (follow, free) at h in cc
  | inr used ↦ elim (Bool-cases (type ip == t_dir)) [
    | inr file ↦
        let q : some none ≡ some (some (dp, name)) = rw (follow, used, file) at h in
        let p : none ≡ some (dp, name) = some_inj q in cc
    | inl d ↦ elim (Bool-cases (no_names names)) [
      | inl last ↦
          let q : some (some (ip, x)) ≡ some (some (dp, name)) = rw (follow, used, d, last) at h in
          ap type (sym (ap (λ y. y.0) (some_inj (some_inj q)))) ∙ eq_of_eqb (type ip) t_dir d
      | inr more ↦ elim (LookupEnd-cases (entry ip x)) [
        | inl bad ↦
            let q : none ≡ some (some (dp, name)) = rw (follow, used, d, more, bad) at h in cc
        | inr (inl out) ↦
            let q : some none ≡ some (some (dp, name)) = rw (follow, used, d, more, out) at h in
            let p : none ≡ some (dp, name) = some_inj q in cc
        | inr (inr (next, off, e)) ↦ elim (Bool-cases (has_room n next (get ip r))) [
          | inr full ↦
              let q : none ≡ some (some (dp, name)) = rw (follow, used, d, more, e, full) at h in cc
          | inl room ↦
              let q : follow n type entry true next names r ≡ some (some (dp, name)) =
                rw (follow, used, d, more, e, room) at h in
              follow_dir n type entry next names r dp name q
        ]
      ]
    ]
  ]
]

end_of : WalkEnd → Option (ℕ × List ℕ)
end_of walk_panics = none
end_of (walked r end) = end

ended-follow :
    (r t : Refs) (e : Option (Option (ℕ × List ℕ))) (dp : ℕ) (name : List ℕ)
    → ended r e ≡ walked t (some (dp, name))
    → e ≡ some (some (dp, name))
unfolding end_of
ended-follow r t none dp name h = let q : walk_panics ≡ walked t (some (dp, name)) = h in cc
ended-follow r t (some none) dp name h = ap (λ x. some (end_of x)) h
ended-follow r t (some (some (ip, x))) dp name h = ap (λ y. some (end_of y)) h

-- What `nameiparent` returns without a panic is a directory.
namex-t_dir :
    (n : ℕ) (type : ℕ → ℕ) (entry : ℕ → List ℕ → LookupEnd) (cwd : ℕ) (path : List ℕ) (r t : Refs)
    (dp : ℕ) (name : List ℕ)
    → namex n type entry true 1 cwd path r ≡ walked t (some (dp, name))
    → type dp ≡ t_dir
namex-t_dir n type entry cwd path r t dp name h =
    let q = sym (namex_lem n type entry true 1 cwd path r) ∙ h in
    elim (Bool-cases (absolute path && not (has_room n 1 r))) [
      | inl full ↦ let p : walk_panics ≡ walked t (some (dp, name)) = rw full at q in cc
      | inr room ↦
          let p : ended r (follow n type entry true (start cwd path) (elements path) r)
              ≡ walked t (some (dp, name)) =
            rw room at q in
          follow_dir n type entry (start cwd path) (elements path) r dp name (
            ended-follow r t (follow n type entry true (start cwd path) (elements path) r) dp name
              p)
    ]

after_walk_lem :
    (s t : Fs) (e : WalkEnd) (end : Option (ℕ × List ℕ))
    → after_walk s e ≡ some (t, end)
    → (e ≡ walked t.ref end) × (t ≡ record s { ref = t.ref })
after_walk_lem s t walk_panics end h = let q : none ≡ some (t, end) = h in cc
after_walk_lem s t (walked ref end') end h =
    let q = some_inj h in
    let same : record s { ref = ref } ≡ t = ap (λ x. x.0) q in
    let r : ref ≡ t.ref = ap (λ x. x.ref) same in
    let e : end' ≡ end = ap (λ x. x.1) q in
    (rw (r, e) refl, sym same ∙ ap (λ x. record s { ref = x }) r)

-- The calls change references only.
pub resolve_lem :
    (parent : Bool) (cwd : ℕ) (path : List ℕ) (s t : Fs) (end : Option (ℕ × List ℕ))
    → resolve parent cwd path s ≡ some (t, end)
    → t ≡ record s { ref = t.ref }
unfolding resolve
resolve_lem parent cwd path s t end h =
    (after_walk_lem s t (namex s.ninodes s.type (entry_at s) parent 1 cwd path s.ref) end h).1

pub resolve-IsFs :
    (parent : Bool) (cwd : ℕ) (path : List ℕ) (s t : Fs) (end : Option (ℕ × List ℕ))
    → resolve parent cwd path s ≡ some (t, end)
    → IsFs s
    → IsFs t
resolve-IsFs parent cwd path s t end h v =
    rw (resolve_lem parent cwd path s t end h) (IsFs-ref s t.ref v)

-- `nameiparent` returns a directory.
pub resolve-t_dir :
    (cwd : ℕ) (path : List ℕ) (s t : Fs) (end : Option (ℕ × List ℕ))
    → resolve true cwd path s ≡ some (t, end)
    → (dp : ℕ) (name : List ℕ) → end ≡ some (dp, name)
    → t.type dp ≡ t_dir
unfolding resolve
resolve-t_dir cwd path s t end h dp name e =
    let (w, same) =
      after_walk_lem s t (namex s.ninodes s.type (entry_at s) true 1 cwd path s.ref) end h in
    ap (λ x. x.type dp) same
    ∙ namex-t_dir s.ninodes s.type (entry_at s) cwd path s.ref t.ref dp name
        (w ∙ ap (λ x. walked t.ref x) e)
