-- ===== src/Links/Balance.antt =====
-- The number of links of every inode, and that giving up a reference keeps it.
use operating_systems_cs.Prelude.{
  ℕ, ◌+◌, ◌-◌, ◌<◌, ◌≡◌, ◌≢◌, refl, sym, ap, ◌∙◌, inl, inr, true, ◌&&◌, Bool-cases, arith, [], ◌==◌,
  eq_of_eqb, update, update_ne,
}
use operating_systems_cs.Links.{t_dir, Fs, iput}
use operating_systems_cs.Links.Sums.{sum_to, sum_to-ext, sum_to-zero}
use operating_systems_cs.Links.Entries.{
  bit, count, subdirs, names, Dotted, names-count, names-subdirs, subdirs-type,
}

-- The entries of all directories that name the inode `i`.
abbrev pub links : ℕ → Fs → ℕ
links i s = sum_to s.ninodes (λ d. count i (s.slots d))

-- `nlink` is the number of entries that name the inode, and for a directory of its subdirectories also,
-- which have it as `..`; the root counts one more. The entries `.` and `..` are not counted. A directory
-- that is not the root and that no entry names is empty; directories begin with `.` and `..`.
pub record IsFs (s : Fs) : Type 0 where
  pub counted : (i : ℕ) → i ≢ 0 → s.nlink i ≡ links i s + subdirs s.type (s.slots i) + bit (i == 1)
  pub plain : (i : ℕ) → s.type i ≢ t_dir → s.slots i ≡ []
  pub dotted : (i : ℕ) → s.type i ≡ t_dir → Dotted (s.slots i)
  pub orphan : (i : ℕ) → i ≢ 0 → i ≢ 1 → links i s ≡ 0 → names (s.slots i) ≡ 0
  pub unused : (i : ℕ) → s.type i ≡ 0 → s.nlink i ≡ 0
  pub inside : (i : ℕ) → s.type i ≢ 0 → i < s.ninodes
  pub no_zero : s.type 0 ≡ 0

-- References and device numbers do not matter.
pub IsFs-ref : (s : Fs) (ref : ℕ → ℕ) → IsFs s → IsFs (record s { ref = ref })
IsFs-ref s ref v = record {
  counted = v.counted;
  plain = v.plain;
  dotted = v.dotted;
  orphan = v.orphan;
  unused = v.unused;
  inside = v.inside;
  no_zero = v.no_zero;
}

pub not_zero : (s : Fs) → IsFs s → (i : ℕ) → s.type i ≢ 0 → i ≢ 0
not_zero s v i h e = h (ap s.type e ∙ v.no_zero)

-- No entry of a used inode names an inode without links.
pub links-count : (s : Fs) → IsFs s → (i d : ℕ) → i ≢ 0 → links i s ≡ 0 → count i (s.slots d) ≡ 0
links-count s v i d ne h = elim (Bool-cases (s.type d == 0)) [
  | inl free ↦ rw (v.plain d (λ e. ground arith)) refl
  | inr used ↦ sum_to-zero s.ninodes (λ x. count i (s.slots x)) h d (v.inside d (λ e. ground arith))
]

-- Emptying the entries of an inode that has no proper ones changes no count.
emptied_links :
    (s : Fs) (i j : ℕ)
    → j ≢ 0
    → names (s.slots i) ≡ 0
    → sum_to s.ninodes (λ d. count j (update s.slots i [] d)) ≡ links j s
emptied_links s i j ne h =
    sum_to-ext s.ninodes (λ d. count j (update s.slots i [] d)) (λ d. count j (s.slots d))
      λ d lt. elim (Bool-cases (i == d)) [
        | inl here ↦
            let e = eq_of_eqb i d here in
            rw here (sym (names-count j (s.slots d) ne (ap (λ x. names (s.slots x)) (sym e) ∙ h)))
        | inr other ↦ rw other refl
      ]

-- The inode without links and references is freed.
freed-IsFs :
    (s : Fs) (i : ℕ)
    → IsFs s
    → i ≢ 0
    → s.nlink i ≡ 0
    → IsFs
        (record s { type = update s.type i 0; slots = update s.slots i []; ref = update s.ref i 0 })
freed-IsFs s i v ne z =
    let whole = v.counted i ne in
    let none_left : links i s ≡ 0 = omega arith in
    let not_root : i ≢ 1 = λ e.
      let root : (i == 1) ≡ true = ground arith in
      let more : s.nlink i ≡ links i s + subdirs s.type (s.slots i) + 1 = rw root at whole in
      omega arith in
    let empty = v.orphan i ne not_root none_left in
    let kept = links-count s v i in
    record {
      counted = λ j nj.
          let all = emptied_links s i j nj empty in
          let old = v.counted j nj in
          elim (Bool-cases (i == j)) [
            | inl here ↦
                let e = eq_of_eqb i j here in
                let e0 : subdirs s.type (s.slots j) ≡ 0 =
                  rw (← e) (names-subdirs s.type (s.slots i) empty) in
                rw (here, all) (omega arith)
            | inr other ↦
                rw (other, all, subdirs-type s.type i 0 (s.slots j) ne (kept j ne none_left)) old
          ];
      plain = λ j h. elim (Bool-cases (i == j)) [
        | inl here ↦ rw here refl
        | inr other ↦ let h1 : s.type j ≢ t_dir = rw other at h in rw other (v.plain j h1)
      ];
      dotted = λ j h. elim (Bool-cases (i == j)) [
        | inl here ↦ let h1 : 0 ≡ 1 = rw here at h in absurd (omega arith)
        | inr other ↦ let h1 : s.type j ≡ t_dir = rw other at h in rw other (v.dotted j h1)
      ];
      orphan = λ j nj nr h.
          let h1 = sym (emptied_links s i j nj empty) ∙ h in
          elim (Bool-cases (i == j)) [
            | inl here ↦ rw here refl
            | inr other ↦ rw other (v.orphan j nj nr h1)
          ];
      unused = λ j h. elim (Bool-cases (i == j)) [
        | inl here ↦ ap s.nlink (sym (eq_of_eqb i j here)) ∙ z
        | inr other ↦ let h1 : s.type j ≡ 0 = rw other at h in v.unused j h1
      ];
      inside = λ j h. elim (Bool-cases (i == j)) [
        | inl here ↦ let h1 : 0 ≢ 0 = rw here at h in absurd (h1 refl)
        | inr other ↦ let h1 : s.type j ≢ 0 = rw other at h in v.inside j h1
      ];
      no_zero = update_ne s.type i 0 0 ne ∙ v.no_zero;
    }

pub iput-IsFs : (s : Fs) (i : ℕ) → IsFs s → i ≢ 0 → IsFs (iput i s)
unfolding iput
iput-IsFs s i v ne = elim (Bool-cases (s.ref i == 1 && s.nlink i == 0)) [
  | inl last ↦ rw last (freed-IsFs s i v ne (ground arith))
  | inr more ↦ rw more (IsFs-ref s (update s.ref i (s.ref i - 1)) v)
]
