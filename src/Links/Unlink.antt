-- ===== src/Links/Unlink.antt =====
-- That sys_unlink keeps the numbers of links.
use operating_systems_cs.Prelude.{
  ℕ, ◌+◌, ◌-◌, ◌<◌, ◌≡◌, ◌≢◌, refl, ap, inl, inr, true, false, not, ◌&&◌, ◌||◌, Bool-cases, arith,
  List, ltb, ◌==◌, eq_of_eqb, update, Option, none, some, Option-cases,
}
use operating_systems_cs.Links.{
  t_dir, Fs, CallEnd, panics, fails, succeeds, dot, dotdot, same, isdirempty, lookup, clear_entry,
  iput, iget, set_nlink, drop_link, unlink_entry, unlink_in, sys_unlink, resolve,
}
use operating_systems_cs.Paths.{has_room}
use operating_systems_cs.Links.Entries.{
  names, is_proper, At, lookup-At, At-pos, names-At, isdirempty-names,
}
use operating_systems_cs.Links.Resolve.{resolve-IsFs, resolve-t_dir}
use operating_systems_cs.Links.Balance.{IsFs, IsFs-ref, not_zero, iput-IsFs}
use operating_systems_cs.Links.Removed.{unlinked-IsFs, iput-linked, bit-nlink, nlink-At}

-- A call that returns leaves a well-formed state.
abbrev pub EndsWell : CallEnd → Type 0
EndsWell panics = Unit {0}
EndsWell (fails s) = IsFs s
EndsWell (succeeds s) = IsFs s

drop_link-IsFs :
    (s : Fs) (dp ip : ℕ)
    → s.nlink dp ≢ 0
    → ip ≢ 0
    → IsFs (set_nlink ip (s.nlink ip - 1) s)
    → EndsWell (drop_link dp ip s)
unfolding drop_link
drop_link-IsFs s dp ip linked ne v =
    let put = update s.ref dp (s.ref dp - 1) in
    rw (iput-linked s dp linked) (
      iput-IsFs (record s { nlink = update s.nlink ip (s.nlink ip - 1); ref = put }) ip
        (IsFs-ref (set_nlink ip (s.nlink ip - 1) s) put v) ne)

-- The entry is removed, where the inode is no directory or an empty one.
remove-IsFs :
    (s : Fs) (dp ip k : ℕ) (name : List ℕ)
    → IsFs s
    → s.type dp ≡ t_dir
    → At name (s.slots dp) ip k
    → is_proper name ≡ true
    → names (s.slots ip) ≡ 0
    → (s.type ip == t_dir && not (isdirempty (s.slots ip))) ≡ false
    → EndsWell (unlink_entry dp ip k s)
unfolding unlink_entry
remove-IsFs s dp ip k name v dir a p empty go =
    let full = names-At name (s.slots dp) ip k p a in
    let apart : ip ≢ dp = λ e. (let z : names (s.slots dp) ≡ 0 = rw (← e) empty in omega arith) in
    let ne = At-pos name (s.slots dp) ip k a in
    let more = bit-nlink s dp ip k name v dir a p in
    let pos = nlink-At s dp ip k name v a p in
    let n1 : ltb (s.nlink ip) 1 ≡ false = ground arith in
    let typed : (s.type ip == 0) ≡ false = elim (Bool-cases (s.type ip == 0)) [
      | inl e ↦ absurd (pos (v.unused ip (ground arith)))
      | inr e ↦ e
    ] in
    let removed = update s.slots dp (clear_entry k (s.slots dp)) in
    let at = λ (nl : ℕ → ℕ). unlinked-IsFs s v dp ip k name nl dir a p in
    elim (Bool-cases (s.type ip == t_dir)) [
      | inl d ↦
          let two : 1 < s.nlink dp = rw d at more in
          let less = update s.nlink dp (s.nlink dp - 1) in
          let still : less dp ≢ 0 = ground arith in
          let ends =
            drop_link-IsFs (record s { nlink = less; slots = removed }) dp ip still ne
              (at (update less ip (less ip - 1)) (λ j. rw d (ground arith)) empty) in
          let e : (s.type ip == t_dir && not (isdirempty (s.slots ip))) ≡ false = go in
          rw (typed, n1, e, d) ends
      | inr f ↦
          let ends =
            drop_link-IsFs (record s { slots = removed }) dp ip (λ z. omega arith) ne
              (at (update s.nlink ip (s.nlink ip - 1)) (λ j. rw f (ground arith)) empty) in
          rw (typed, n1, f) ends
    ]

unlink_entry-EndsWell :
    (s : Fs) (dp ip k : ℕ) (name : List ℕ)
    → IsFs s
    → s.type dp ≡ t_dir
    → At name (s.slots dp) ip k
    → is_proper name ≡ true
    → EndsWell (unlink_entry dp ip k s)
unfolding unlink_entry
unlink_entry-EndsWell s dp ip k name v dir a p =
    let remove = remove-IsFs s dp ip k name v dir a p in
    elim (Bool-cases (s.type ip == t_dir)) [
      | inl d ↦
          let dot_ip = v.dotted ip (eq_of_eqb (s.type ip) t_dir d) in
          elim (Bool-cases (isdirempty (s.slots ip))) [
            | inl em ↦ remove (isdirempty-names (s.slots ip) dot_ip em) (rw (d, em) refl)
            | inr full ↦
                let typed : (s.type ip == 0) ≡ false = ground arith in
                let ne = At-pos name (s.slots dp) ip k a in
                let pos = nlink-At s dp ip k name v a p in
                let n1 : ltb (s.nlink ip) 1 ≡ false = ground arith in
                let dp_ne = not_zero s v dp (λ e. omega arith) in
                rw (typed, n1, d, full) (iput-IsFs (iput ip s) dp (iput-IsFs s ip v ne) dp_ne)
          ]
      | inr f ↦ remove (ap names (v.plain ip (λ e. ground arith))) (rw f refl)
    ]

unlink_in-EndsWell :
    (s : Fs) (dp : ℕ) (name : List ℕ)
    → IsFs s
    → s.type dp ≡ t_dir
    → EndsWell (unlink_in (s, some (dp, name)))
unfolding unlink_in
unlink_in-EndsWell s dp name v dir =
    let ne = not_zero s v dp (λ e. omega arith) in
    elim (Bool-cases (same name dot || same name dotdot)) [
      | inl special ↦ rw special (iput-IsFs s dp v ne)
      | inr proper ↦ elim (Option-cases (lookup name (s.slots dp))) [
        | inl out ↦ rw (proper, out) (iput-IsFs s dp v ne)
        | inr ((ip, k), e) ↦ elim (Bool-cases (has_room s.ninodes ip s.ref)) [
          | inr full ↦ rw (EndsWell, proper, e, full) tt
          | inl room ↦
              rw (proper, e, room)
                (unlink_entry-EndsWell (iget ip s) dp ip k name
                  (IsFs-ref s (update s.ref ip (s.ref ip + 1)) v) dir
                  (lookup-At name (s.slots dp) ip k e) (ap not proper))
        ]
      ]
    ]

unlink_in-found :
    (found : Fs × Option (ℕ × List ℕ))
    → IsFs found.0
    → ((dp : ℕ) (name : List ℕ) → found.1 ≡ some (dp, name) → found.0.type dp ≡ t_dir)
    → EndsWell (unlink_in found)
unfolding unlink_in
unlink_in-found (s, none) v dir = v
unlink_in-found (s, some (dp, name)) v dir = unlink_in-EndsWell s dp name v (dir dp name refl)

-- From a well-formed state sys_unlink, whether it fails or not, leaves a well-formed state, or it panics.
pub sys_unlink-EndsWell :
    (cwd : ℕ) (path : List ℕ) (s : Fs) → IsFs s → EndsWell (sys_unlink cwd path s)
unfolding sys_unlink
sys_unlink-EndsWell cwd path s v = elim (Option-cases (resolve true cwd path s)) [
  | inl bad ↦ rw (EndsWell, bad, sys_unlink) tt
  | inr ((t, end), e) ↦
      rw (e, sys_unlink)
        (unlink_in-found (t, end) (resolve-IsFs true cwd path s t end e v)
          (resolve-t_dir cwd path s t end e))
]
