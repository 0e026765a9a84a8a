-- ===== src/Links/Tests.antt =====
-- The calls on a small file system.
use operating_systems_cs.Prelude.{
  ℕ, ◌≡◌, refl, ap, inl, inr, Bool, true, false, Bool-cases, arith, List, [], ◌∷◌, ◌==◌,
  if◌then◌else◌, Option, some, some_inj, find,
}
use operating_systems_cs.Paths.{
  get, has_room, cached, skip_slashes, element, after_element, first_element, skipelem, walk, namex,
}
use operating_systems_cs.Links.{
  t_dir, t_file, dot, dotdot, Fs, CreateEnd, create_panics, not_created, created, CallEnd, panics,
  fails, succeeds, lookup, add_entry, clear_entry, dirlink, ialloc, iput, add_dots, fill_new,
  create_in, create_at, create, resolve, sys_unlink, unlink_in, unlink_entry, drop_link, sys_link,
  link_to, link_in,
}
use operating_systems_cs.Links.Balance.{links, IsFs}
use operating_systems_cs.Links.Runs.{Step, unlinks, start, then_step, Reach-IsFs}
use operating_systems_cs.Links.Create.{CreatesWell, create-CreatesWell}

-- Only the root, with five inodes.
abbrev root_only : Fs
root_only = record {
  ninodes = 5;
  type = λ i. if i == 1 then t_dir else 0;
  nlink = λ i. if i == 1 then 1 else 0;
  device = λ i. (0, 0);
  slots = λ i.
      if i == 1
      then record { inum = 1; name = dot } ∷ record { inum = 1; name = dotdot } ∷ []
      else [];
  ref = λ i. if i == 1 then 1 else 0;
  takes = λ i es. true;
}

no_links : (i : ℕ) → links i root_only ≡ 0
no_links i = ground arith

root_only-IsFs : IsFs root_only
root_only-IsFs = record {
  counted = λ i ne. elim (Bool-cases (i == 1)) [
    | inl e ↦ rw e (omega (arith, no_links i))
    | inr e ↦ rw e (omega (arith, no_links i))
  ];
  plain = λ i h. elim (Bool-cases (i == 1)) [ inl e ↦ absurd (ground arith) | inr e ↦ rw e refl ];
  dotted = λ i h. elim (Bool-cases (i == 1)) [
    | inl e ↦ rw e (λ q. omega arith, λ q. omega arith, refl, refl)
    | inr e ↦ let q : 0 ≡ 1 = rw e at h in absurd (omega arith)
  ];
  orphan = λ i ne nr h. let e : (i == 1) ≡ false = ground arith in rw e refl;
  unused = λ i h. ground arith;
  inside = λ i h. ground arith;
  no_zero = refl;
}

abbrev d_path : List ℕ
d_path = b'/' ∷ b'd' ∷ []

abbrev f_path : List ℕ
f_path = b'/' ∷ b'f' ∷ []

abbrev c_path : List ℕ
c_path = b'/' ∷ b'c' ∷ []

abbrev state : CreateEnd → Fs
state create_panics = root_only
state (not_created s) = s
state (created i s) = s

abbrev was_created : CreateEnd → Bool
was_created create_panics = false
was_created (not_created s) = false
was_created (created i s) = true

state-IsFs : (s : Fs) (type : ℕ) (e : CreateEnd) → CreatesWell s type e → IsFs (state e)
state-IsFs s type create_panics w = root_only-IsFs
state-IsFs s type (not_created t) w = w
state-IsFs s type (created i t) (w, q) = w

in_root :
    (c : ℕ) (s t : Fs) (dp : ℕ) (name : List ℕ)
    → ◌≡◌ {A = Option (Fs × Option (ℕ × List ℕ))}
        (some (s, some (1, c ∷ [])))
        (some (t, some (dp, name)))
    → (s ≡ t) × (1 ≡ dp) × (c ∷ [] ≡ name)
in_root c s t dp name e =
    let q = some_inj e in
    let p = some_inj (ap (λ x. x.1) q) in (ap (λ x. x.0) q, ap (λ x. x.0) p, ap (λ x. x.1) p)

-- The state in which `nameiparent` returns.
abbrev d_found : Fs
d_found = record root_only { ref = get 1 root_only.ref }

abbrev d_made : CreateEnd
d_made = create 1 d_path t_dir (0, 0) root_only

d_made-CreatesWell : CreatesWell root_only t_dir d_made
unfolding resolve has_room cached namex walk skipelem first_element skip_slashes element
    after_element lookup
d_made-CreatesWell =
    create-CreatesWell 1 d_path t_dir (0, 0) root_only root_only-IsFs (λ e. omega arith)
      λ t dp name e.
        let (st, here, n) = in_root b'd' d_found t dp name e in
        (rw (← st, ← here) (λ z. omega arith), rw (← n) refl)

abbrev f_made : CreateEnd
f_made = create 1 f_path t_file (0, 0) root_only

is_done : CallEnd → Bool
is_done panics = false
is_done (fails s) = false
is_done (succeeds s) = true

-- Both calls succeed.
unlink_done : is_done (sys_unlink 1 d_path (state d_made)) ≡ true
unfolding is_done sys_unlink unlink_in unlink_entry drop_link clear_entry create create_at create_in
    fill_new add_dots dirlink ialloc iput add_entry resolve has_room cached namex walk skipelem
    first_element skip_slashes element after_element lookup find
unlink_done = refl

link_done : is_done (sys_link 1 f_path c_path (state f_made)) ≡ true
unfolding is_done sys_link link_to link_in create create_at create_in fill_new add_dots dirlink
    ialloc iput add_entry resolve has_room cached namex walk skipelem first_element skip_slashes
    element after_element lookup find
link_done = refl

state_of : CallEnd → Fs
state_of panics = root_only
state_of (fails s) = s
state_of (succeeds s) = s

-- The directory "/d" is removed.
d_removed : Step (state d_made) (state_of (sys_unlink 1 d_path (state d_made)))
unfolding state_of sys_unlink unlink_in unlink_entry drop_link clear_entry create create_at
    create_in fill_new add_dots dirlink ialloc iput add_entry resolve has_room cached namex walk
    skipelem first_element skip_slashes element after_element lookup find
d_removed = unlinks 1 d_path refl

Reach-IsFs_example : IsFs (state_of (sys_unlink 1 d_path (state d_made)))
Reach-IsFs_example =
    Reach-IsFs (then_step start d_removed) (state-IsFs root_only t_dir d_made d_made-CreatesWell)
