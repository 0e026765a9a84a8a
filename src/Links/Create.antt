-- ===== src/Links/Create.antt =====
-- That create keeps the numbers of links.
use operating_systems_cs.Prelude.{
  ℕ, ◌+◌, ◌-◌, ◌<◌, ◌≡◌, ◌≢◌, refl, ap, ◌∙◌, inl, inr, true, false, ◌&&◌, Bool-cases, arith, List,
  [], ◌∷◌, ◌==◌, update, update_self, Option, none, some, Option-cases, find, find-some,
}
use operating_systems_cs.Links.{
  t_dir, t_file, Entry, Fs, CreateEnd, create_panics, not_created, created, lookup, add_entry,
  ialloc, iput, iget, open_existing, fill_new, create_in, create_at, create, resolve,
}
use operating_systems_cs.Paths.{has_room}
use operating_systems_cs.Links.Entries.{is_proper, absent-is_proper, At, lookup-At, At-pos}
use operating_systems_cs.Links.Balance.{IsFs, IsFs-ref, not_zero, iput-IsFs}
use operating_systems_cs.Links.Resolve.{resolve-IsFs, resolve-t_dir}
use operating_systems_cs.Links.Added.{unlike}
use operating_systems_cs.Links.Removed.{iput-linked, nlink-At}
use operating_systems_cs.Links.Made.{
  update_twice, dot_entry, dotdot_entry, dirlink-absent, add_dots_lem, made-IsFs, dots-names,
  dots-Dotted,
}

-- An inode was made or opened, or none, and the state is well-formed.
abbrev pub CreatesWell : Fs → ℕ → CreateEnd → Type 0
CreatesWell s type create_panics = Unit {0}
CreatesWell s type (not_created t) = IsFs t
CreatesWell s type (created ip t) = IsFs t × (t.type ip ≡ type)

-- The state that `ialloc` leaves.
abbrev allocated : ℕ → ℕ → Fs → Fs
allocated i type s = iget i (record s {
  type = update s.type i type;
  nlink = update s.nlink i 0;
  device = update s.device i (0, 0);
  slots = update s.slots i [];
})

-- The end of `create`.
finish :
    (s t : Fs) (dp type i : ℕ)
    → IsFs t
    → dp ≢ 0
    → t.nlink dp ≢ 0
    → t.type i ≡ type
    → CreatesWell s type (created i (iput dp t))
finish s t dp type i v ne linked e =
    (iput-IsFs t dp v ne, ap (λ x. x.type i) (iput-linked t dp linked) ∙ e)

fill_new-CreatesWell :
    (s : Fs) (i dp type : ℕ) (name : List ℕ) (device : ℕ × ℕ)
    → IsFs s
    → s.type i ≡ 0
    → i ≢ 0
    → i < s.ninodes
    → type ≢ 0
    → s.type dp ≡ t_dir
    → s.nlink dp ≢ 0
    → lookup name (s.slots dp) ≡ none
    → CreatesWell s type (fill_new type dp name device i (allocated i type s))
unfolding fill_new
fill_new-CreatesWell s i dp type name device v free ne lt used dir linked out =
    let p = absent-is_proper name (s.slots dp) (v.dotted dp dir) out in
    let dp_ne = not_zero s v dp (λ e. omega arith) in
    let apart = unlike s.type i dp (λ e. omega arith) in
    let s1 = record (allocated i type s) {
      nlink = update (update s.nlink i 0) i 1;
      device = update (update s.device i (0, 0)) i device;
    } in
    let fresh = v.unused i free in
    let absent : (es : List Entry) → lookup name (update s.slots i es dp) ≡ none =
      λ es. rw apart out in
    elim (Bool-cases (type == t_dir)) [
      | inl d ↦
          let es = dot_entry i ∷ dotdot_entry dp ∷ [] in
          let s2 = record s1 {
            nlink = update s1.nlink dp (s1.nlink dp + 1);
            slots = update s.slots i es;
          } in
          let twice = ap (λ f. some (record s2 { slots = f })) (update_twice s.slots i [] es) in
          let s3 = record s2 { slots = update s2.slots dp (add_entry name i (s2.slots dp)) } in
          let well =
            made-IsFs s v i dp type name es s2.nlink s2.ref s2.device free ne lt used
              (dots-names i dp) (λ e. dots-Dotted i dp ne dp_ne) (λ e. absurd (ground arith)) dir
              linked p (λ j. rw d (ground arith)) in
          elim (add_dots_lem i dp s1 ne (update_self s.slots i [])) [
            | inl full ↦ rw (CreatesWell, d, fill_new, full) tt
            | inr dots ↦ elim (dirlink-absent dp i name s2 (absent es)) [
              | inl full ↦ rw (CreatesWell, d, fill_new, dots ∙ twice, full) tt
              | inr entry ↦
                  rw (CreatesWell, d, fill_new, dots ∙ twice, entry)
                    (finish s s3 dp type i well dp_ne (ground arith) (update_self s.type i type))
            ]
          ]
      | inr f ↦
          let s3 = record s1 { slots = update s1.slots dp (add_entry name i (s1.slots dp)) } in
          let well =
            made-IsFs s v i dp type name [] s1.nlink s1.ref s1.device free ne lt used refl
              (λ e. absurd (ground arith)) (λ e. refl) dir linked p (λ j. rw f (ground arith)) in
          elim (dirlink-absent dp i name s1 (absent [])) [
            | inl full ↦ rw (CreatesWell, f, fill_new, full) tt
            | inr entry ↦
                rw (CreatesWell, f, fill_new, entry)
                  (finish s s3 dp type i well dp_ne (rw apart linked) (update_self s.type i type))
          ]
    ]

open_existing-CreatesWell :
    (s : Fs) (dp ip k type : ℕ) (name : List ℕ)
    → IsFs s
    → s.nlink dp ≢ 0
    → is_proper name ≡ true
    → At name (s.slots dp) ip k
    → CreatesWell s type (open_existing type dp ip s)
open_existing-CreatesWell s dp ip k type name v linked p a =
    let typed : (s.type ip == 0) ≡ false =
      unlike (λ x. x) (s.type ip) 0 (λ e. nlink-At s dp ip k name v a p (v.unused ip e)) in
    let ref = update s.ref ip (s.ref ip + 1) in
    let kept = IsFs-ref s (update ref dp (ref dp - 1)) v in
    elim (Bool-cases (type == t_file && s.type ip == t_file)) [
      | inl file ↦
          rw (CreatesWell, iput-linked (iget ip s) dp linked, typed, file) (kept, ground arith)
      | inr other ↦
          rw (CreatesWell, iput-linked (iget ip s) dp linked, typed, other)
            (iput-IsFs _ ip kept (At-pos name (s.slots dp) ip k a))
    ]

create_in-CreatesWell :
    (s : Fs) (dp type : ℕ) (name : List ℕ) (device : ℕ × ℕ)
    → IsFs s
    → type ≢ 0
    → s.type dp ≡ t_dir
    → s.nlink dp ≢ 0
    → is_proper name ≡ true
    → CreatesWell s type (create_in type device dp name s)
unfolding create_in ialloc
create_in-CreatesWell s dp type name device v used dir linked p =
    let dp_ne = not_zero s v dp (λ e. omega arith) in
    elim (Option-cases (lookup name (s.slots dp))) [
      | inl out ↦ elim (Option-cases (find (s.ninodes - 1) 1 (λ i. s.type i == 0))) [
        | inl full ↦ rw (CreatesWell, out, full) tt
        | inr (i, e) ↦
            let (free, lo, hi) = find-some (s.ninodes - 1) 1 (λ i. s.type i == 0) e in
            let well =
              fill_new-CreatesWell s i dp type name device v (ground arith) (λ q. omega arith)
                (omega arith) used dir linked out in
            elim (Bool-cases (has_room s.ninodes i s.ref)) [
              | inr none_left ↦ rw (CreatesWell, out, e, none_left) tt
              | inl room ↦ rw (CreatesWell, out, e, room) well
            ]
      ]
      | inr ((ip, k), e) ↦ elim (Bool-cases (has_room s.ninodes ip s.ref)) [
        | inr none_left ↦ rw (CreatesWell, e, none_left) tt
        | inl room ↦
            rw (CreatesWell, e, room)
              (open_existing-CreatesWell s dp ip k type name v linked p
                (lookup-At name (s.slots dp) ip k e))
      ]
    ]

create_at-CreatesWell :
    (type : ℕ) (device : ℕ × ℕ) (s : Fs) (end : Option (ℕ × List ℕ))
    → IsFs s
    → type ≢ 0
    → ((dp : ℕ) (name : List ℕ)
        → end ≡ some (dp, name)
        → (s.type dp ≡ t_dir) × (s.nlink dp ≢ 0) × (is_proper name ≡ true))
    → CreatesWell s type (create_at type device (s, end))
unfolding create_at
create_at-CreatesWell type device s none v used h = v
create_at-CreatesWell type device s (some (dp, name)) v used h =
    let (dir, linked, p) = h dp name refl in
    create_in-CreatesWell s dp type name device v used dir linked p

CreatesWell-any :
    (s t : Fs) (type : ℕ) (end : CreateEnd) → CreatesWell s type end → CreatesWell t type end
CreatesWell-any s t type create_panics w = w
CreatesWell-any s t type (not_created u) w = w
CreatesWell-any s t type (created ip u) w = w

-- From a well-formed state, where the name is not `.` or `..` and the directory for it has links, `create`
-- gives an inode of the type asked for, or none, and the state that it leaves is well-formed; or it panics.
pub create-CreatesWell :
    (cwd : ℕ) (path : List ℕ) (type : ℕ) (device : ℕ × ℕ) (s : Fs)
    → IsFs s
    → type ≢ 0
    → ((t : Fs) (dp : ℕ) (name : List ℕ)
        → resolve true cwd path s ≡ some (t, some (dp, name))
        → (t.nlink dp ≢ 0) × (is_proper name ≡ true))
    → CreatesWell s type (create cwd path type device s)
unfolding create
create-CreatesWell cwd path type device s v used h = elim (Option-cases (resolve true cwd path s)) [
  | inl bad ↦ rw (CreatesWell, bad, create) tt
  | inr ((t, end), e) ↦
      let well =
        create_at-CreatesWell type device t end (resolve-IsFs true cwd path s t end e v) used
          (λ dp name here.
            let (linked, p) = h t dp name (e ∙ ap (λ x. some (t, x)) here) in
            (resolve-t_dir cwd path s t end e dp name here, linked, p)) in
      rw (e, create) (CreatesWell-any t s type (create_at type device (t, end)) well)
]
