-- ===== src/Links/Added.antt =====
-- That a new entry and a new inode keep the numbers of links.
use operating_systems_cs.Prelude.{
  ℕ, ◌+◌, ◌<◌, ◌≡◌, ◌≢◌, refl, sym, ap, ◌∙◌, inl, inr, true, false, ◌&&◌, Bool-cases, arith, List,
  [], ◌==◌, eq_of_eqb, update, update_ne,
}
use operating_systems_cs.Links.{t_dir, Entry, Fs, add_entry}
use operating_systems_cs.Links.Sums.{sum_to, sum_to-ext, sum_to-update}
use operating_systems_cs.Links.Entries.{
  bit, count, subdirs, names, Dotted, is_proper, count-add, subdirs-add, Dotted-add, names-count,
  names-subdirs, subdirs-type,
}
use operating_systems_cs.Links.Balance.{links, IsFs, not_zero, links-count}

pub unlike : (f : ℕ → ℕ) (i j : ℕ) → f i ≢ f j → (i == j) ≡ false
unlike f i j h = elim (Bool-cases (i == j)) [
  | inl e ↦ absurd (h (ap f (eq_of_eqb i j e)))
  | inr e ↦ e
]

-- A directory with links is no orphan.
linked-names : (s : Fs) (dp : ℕ) → IsFs s → dp ≢ 0 → dp ≢ 1 → s.nlink dp ≢ 0 → links dp s ≢ 0
linked-names s dp v ne nr linked z =
    let empty = v.orphan dp ne nr z in
    let none_there = names-subdirs s.type (s.slots dp) empty in
    let not_root : (dp == 1) ≡ false = ground arith in
    let whole = v.counted dp ne in
    let w : s.nlink dp ≡ links dp s + subdirs s.type (s.slots dp) + 0 = rw not_root at whole in
    linked (omega arith)

-- An entry for `ip` in the directory `dp`.
module _ (s : Fs) (v : IsFs s) (dp ip : ℕ) (name : List ℕ) where
  links-add :
      (j : ℕ)
      → j ≢ 0
      → dp < s.ninodes
      → is_proper name ≡ true
      → sum_to s.ninodes (λ d. count j (update s.slots dp (add_entry name ip (s.slots dp)) d))
        ≡ links j s + bit (ip == j)
  links-add j nj lt p =
      let whole =
        sum_to-update s.ninodes dp (count j) s.slots (add_entry name ip (s.slots dp)) lt in
      let q = count-add j ip name (s.slots dp) nj in
      let one : count j (add_entry name ip (s.slots dp)) ≡ count j (s.slots dp) + bit (ip == j) =
        elim (Bool-cases (ip == j)) [
          | inl e ↦
              let r : count j (add_entry name ip (s.slots dp)) ≡ count j (s.slots dp) + 1 =
                rw (e, p) at q in
              rw e r
          | inr e ↦
              let r : count j (add_entry name ip (s.slots dp)) ≡ count j (s.slots dp) + 0 =
                rw e at q in
              rw e r
        ] in
      omega arith

  pub linked-IsFs :
      (nl : ℕ → ℕ)
      → s.type dp ≡ t_dir
      → s.nlink dp ≢ 0
      → s.type ip ≢ 0
      → is_proper name ≡ true
      → ((j : ℕ) → nl j ≡ s.nlink j + bit (ip == j) + bit (dp == j && s.type ip == t_dir))
      → IsFs (record s { nlink = nl; slots = update s.slots dp (add_entry name ip (s.slots dp)) })
  linked-IsFs nl dir held used p diff =
      let lt = v.inside dp (λ e. omega arith) in
      let ne = not_zero s v ip used in
      let dp_ne = not_zero s v dp (λ e. omega arith) in
      record {
        counted = λ j nj.
            let all = links-add j nj lt p in
            let old = v.counted j nj in
            let here = diff j in
            let subs : subdirs s.type (update s.slots dp (add_entry name ip (s.slots dp)) j)
                ≡ subdirs s.type (s.slots j) + bit (dp == j && s.type ip == t_dir) =
              elim (Bool-cases (dp == j)) [
                | inl e ↦
                    let q = subdirs-add s.type ip name (s.slots dp) ne in
                    let r : subdirs s.type (add_entry name ip (s.slots dp))
                        ≡ subdirs s.type (s.slots dp) + bit (s.type ip == t_dir) =
                      rw p at q in
                    rw (e, ← eq_of_eqb dp j e) r
                | inr e ↦ rw e (omega arith)
              ] in
            omega arith;
        plain = λ j h. elim (Bool-cases (dp == j)) [
          | inl e ↦ absurd (h (ap s.type (sym (eq_of_eqb dp j e)) ∙ dir))
          | inr e ↦ rw e (v.plain j h)
        ];
        dotted = λ j h. elim (Bool-cases (dp == j)) [
          | inl e ↦ rw e (Dotted-add name ip (s.slots dp) (v.dotted dp dir))
          | inr e ↦ rw e (v.dotted j h)
        ];
        orphan = λ j nj nr h.
            let all = links-add j nj lt p in
            let z : links j s ≡ 0 = omega arith in
            elim (Bool-cases (dp == j)) [
              | inl e ↦
                  let e1 = eq_of_eqb dp j e in
                  let linked : s.nlink j ≢ 0 = rw (← e1) held in
                  absurd (linked-names s j v nj nr linked z)
              | inr e ↦ rw e (v.orphan j nj nr z)
            ];
        unused = λ j h.
            let z = v.unused j h in
            let q = diff j in
            let a : (ip == j) ≡ false = unlike s.type ip j (λ e. used (e ∙ h)) in
            let b : (dp == j) ≡ false = unlike s.type dp j (λ e. omega arith) in
            let r : nl j ≡ s.nlink j + 0 + 0 = rw (a, b) at q in omega arith;
        inside = v.inside;
        no_zero = v.no_zero;
      }

-- A free inode is filled, with no more than `.` and `..`.
module _ (s : Fs) (v : IsFs s) (i type : ℕ) (es : List Entry) where
  filled-links :
      (j : ℕ)
      → j ≢ 0
      → s.type i ≡ 0
      → names es ≡ 0
      → sum_to s.ninodes (λ d. count j (update s.slots i es d)) ≡ links j s
  filled-links j ne free h =
      let bare = v.plain i (λ e. omega arith) in
      sum_to-ext s.ninodes (λ d. count j (update s.slots i es d)) (λ d. count j (s.slots d))
        λ d lt. elim (Bool-cases (i == d)) [
          | inl here ↦ rw (here, ← eq_of_eqb i d here, bare) (names-count j es ne h)
          | inr other ↦ rw other refl
        ]

  pub filled-IsFs :
      s.type i ≡ 0
      → i ≢ 0
      → i < s.ninodes
      → type ≢ 0
      → names es ≡ 0
      → (type ≡ t_dir → Dotted es)
      → (type ≢ t_dir → es ≡ [])
      → IsFs (record s { type = update s.type i type; slots = update s.slots i es })
  filled-IsFs free ne lt used empty dots bare =
      let z = v.unused i free in
      let whole = v.counted i ne in
      let none_left : links i s ≡ 0 = omega arith in
      let was = v.plain i (λ e. omega arith) in
      let kept = λ (j : ℕ). links-count s v i j ne none_left in
      record {
        counted = λ j nj.
            let all = filled-links j nj free empty in
            let old = v.counted j nj in
            elim (Bool-cases (i == j)) [
              | inl here ↦
                  let e = eq_of_eqb i j here in
                  let e0 : subdirs s.type (s.slots j) ≡ 0 = rw (← e, was) refl in
                  rw (here, all, names-subdirs (update s.type i type) es empty) (omega arith)
              | inr other ↦ rw (other, all, subdirs-type s.type i type (s.slots j) ne (kept j)) old
            ];
        plain = λ j h. elim (Bool-cases (i == j)) [
          | inl here ↦ let h1 : type ≢ t_dir = rw here at h in rw here (bare h1)
          | inr other ↦ let h1 : s.type j ≢ t_dir = rw other at h in rw other (v.plain j h1)
        ];
        dotted = λ j h. elim (Bool-cases (i == j)) [
          | inl here ↦ let h1 : type ≡ t_dir = rw here at h in rw here (dots h1)
          | inr other ↦ let h1 : s.type j ≡ t_dir = rw other at h in rw other (v.dotted j h1)
        ];
        orphan = λ j nj nr h.
            let h1 = sym (filled-links j nj free empty) ∙ h in
            elim (Bool-cases (i == j)) [
              | inl here ↦ rw here empty
              | inr other ↦ rw other (v.orphan j nj nr h1)
            ];
        unused = λ j h. elim (Bool-cases (i == j)) [
          | inl here ↦ ap s.nlink (sym (eq_of_eqb i j here)) ∙ z
          | inr other ↦ let h1 : s.type j ≡ 0 = rw other at h in v.unused j h1
        ];
        inside = λ j h. elim (Bool-cases (i == j)) [
          | inl here ↦ let e = eq_of_eqb i j here in omega arith
          | inr other ↦ let h1 : s.type j ≢ 0 = rw other at h in v.inside j h1
        ];
        no_zero = update_ne s.type i 0 type ne ∙ v.no_zero;
      }
