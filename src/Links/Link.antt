-- ===== src/Links/Link.antt =====
-- That sys_link keeps the numbers of links.
use mathlib.Core.Path.{fun_ext, subst}
use operating_systems_cs.Prelude.{
  ℕ, ◌+◌, ◌-◌, ◌≡◌, ◌≢◌, sym, ap, ◌∙◌, inl, inr, true, false, Bool-cases, arith, List, ◌==◌, update,
  some, Option-cases,
}
use operating_systems_cs.Links.{
  t_dir, Fs, lookup, add_entry, dirlink, undo_link, set_nlink, link_in, link_to, sys_link, resolve,
}
use operating_systems_cs.Links.Entries.{absent-is_proper}
use operating_systems_cs.Links.Balance.{IsFs, IsFs-ref, not_zero, iput-IsFs}
use operating_systems_cs.Links.Resolve.{resolve_lem, resolve-IsFs, resolve-t_dir}
use operating_systems_cs.Links.Added.{unlike, linked-IsFs}
use operating_systems_cs.Links.Removed.{iput-linked}
use operating_systems_cs.Links.Unlink.{EndsWell}

-- Counting a link and taking it back.
counted_back :
    (f : ℕ → ℕ) (i : ℕ) → update (update f i (f i + 1)) i (update f i (f i + 1) i - 1) ≡ f
counted_back f i = fun_ext λ x. ground arith

IsFs-undo :
    (s : Fs) (ip : ℕ) (ref : ℕ → ℕ)
    → IsFs s
    → ip ≢ 0
    → EndsWell (undo_link ip (record s { nlink = update s.nlink ip (s.nlink ip + 1); ref = ref }))
IsFs-undo s ip ref v ne = iput-IsFs _ ip (rw (counted_back s.nlink ip) (IsFs-ref s ref v)) ne

link_in-EndsWell :
    (s : Fs) (ip dp : ℕ) (ref : ℕ → ℕ) (name : List ℕ)
    → IsFs s
    → s.type ip ≢ 0
    → s.type ip ≢ t_dir
    → s.type dp ≡ t_dir
    → s.nlink dp ≢ 0
    → EndsWell (
        link_in ip
          (record s { nlink = update s.nlink ip (s.nlink ip + 1); ref = ref }, some (dp, name)))
unfolding link_in dirlink
link_in-EndsWell s ip dp ref name v used file dir linked =
    let ne = not_zero s v ip used in
    let dp_ne = not_zero s v dp (λ e. omega arith) in
    let apart = unlike s.type ip dp (λ e. file (e ∙ dir)) in
    let more = update s.nlink ip (s.nlink ip + 1) in
    let still : more dp ≢ 0 = rw apart linked in
    elim (Option-cases (lookup name (s.slots dp))) [
      | inr ((i, k), e) ↦
          rw (EndsWell, e, iput-linked (record s { nlink = more; ref = ref }) dp still)
            (IsFs-undo s ip (update ref dp (ref dp - 1)) v ne)
      | inl out ↦ elim (Bool-cases (s.takes dp (s.slots dp))) [
        | inr full ↦ rw (EndsWell, out, full) tt
        | inl room ↦
            let p = absent-is_proper name (s.slots dp) (v.dotted dp dir) out in
            let not_dir : (s.type ip == t_dir) ≡ false = unlike (λ x. x) (s.type ip) t_dir file in
            let w =
              linked-IsFs s v dp ip name more dir linked used p (λ j. rw not_dir (ground arith)) in
            let added = record s {
              nlink = more;
              slots = update s.slots dp (add_entry name ip (s.slots dp));
            } in
            rw (EndsWell, out, room)
              (iput-IsFs _ ip
                (iput-IsFs (record added { ref = ref }) dp (IsFs-ref added ref w) dp_ne) ne)
      ]
    ]

link_to-EndsWell :
    (cwd : ℕ) (new : List ℕ) (s : Fs) (ip : ℕ) (rest : List ℕ)
    → IsFs s
    → ((t : Fs) (dp : ℕ) (name : List ℕ)
        → resolve true cwd new (set_nlink ip (s.nlink ip + 1) s) ≡ some (t, some (dp, name))
        → s.nlink dp ≢ 0)
    → EndsWell (link_to cwd new (s, some (ip, rest)))
unfolding link_to link_in
link_to-EndsWell cwd new s ip rest v held =
    let counted = set_nlink ip (s.nlink ip + 1) s in
    elim (Bool-cases (s.type ip == 0)) [
      | inl free ↦ rw (EndsWell, free) tt
      | inr typed ↦
          let used : s.type ip ≢ 0 = λ z. ground arith in
          let ne = not_zero s v ip used in
          elim (Bool-cases (s.type ip == t_dir)) [
            | inl d ↦ rw (typed, d) (iput-IsFs s ip v ne)
            | inr f ↦ elim (Option-cases (resolve true cwd new counted)) [
              | inl bad ↦ rw (EndsWell, typed, f, bad) tt
              | inr ((t, end), e) ↦
                  let same = resolve_lem true cwd new counted t end e in
                  elim (Option-cases end) [
                    | inl out ↦
                        let stop =
                          subst (λ q. EndsWell (link_in ip q))
                            (sym (
                              ap (λ x. (x, end)) same
                              ∙ ap (λ x. (record counted { ref = t.ref }, x)) out))
                            (IsFs-undo s ip t.ref v ne) in
                        rw (typed, f, e) stop
                    | inr ((dp, name), here) ↦
                        let dir : s.type dp ≡ t_dir =
                          ap (λ x. x.type dp) (sym same)
                          ∙ resolve-t_dir cwd new counted t end e dp name here in
                        let linked = held t dp name (e ∙ ap (λ x. some (t, x)) here) in
                        let ends =
                          subst (λ q. EndsWell (link_in ip q))
                            (sym (
                              ap (λ x. (x, end)) same
                              ∙ ap (λ x. (record counted { ref = t.ref }, x)) here))
                            (link_in-EndsWell s ip dp t.ref name v used (λ q. ground arith) dir
                              linked) in
                        rw (typed, f, e) ends
                  ]
            ]
          ]
    ]

-- From a well-formed state sys_link, whether it fails or not, leaves a well-formed state, or it panics, where
-- the directory that the new path leads to has links.
pub sys_link-EndsWell :
    (cwd : ℕ) (old new : List ℕ) (s : Fs)
    → IsFs s
    → ((t u : Fs) (ip dp : ℕ) (rest name : List ℕ)
        → resolve false cwd old s ≡ some (t, some (ip, rest))
        → resolve true cwd new (set_nlink ip (t.nlink ip + 1) t) ≡ some (u, some (dp, name))
        → t.nlink dp ≢ 0)
    → EndsWell (sys_link cwd old new s)
unfolding sys_link link_to
sys_link-EndsWell cwd old new s v held = elim (Option-cases (resolve false cwd old s)) [
  | inl bad ↦ rw (EndsWell, bad, sys_link) tt
  | inr ((t, end), e) ↦
      let w = resolve-IsFs false cwd old s t end e v in
      elim (Option-cases end) [
        | inl out ↦ rw (e, out, sys_link, link_to) w
        | inr ((ip, rest), here) ↦
            rw (e, here, sys_link)
              (link_to-EndsWell cwd new t ip rest w
                (λ u dp name h. held t u ip dp rest name (e ∙ ap (λ x. some (t, x)) here) h))
      ]
]
