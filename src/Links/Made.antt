-- ===== src/Links/Made.antt =====
-- That a new inode with its entry keeps the numbers of links.
use mathlib.Core.Path.{fun_ext}
use operating_systems_cs.Prelude.{
  ℕ, ◌+◌, ◌<◌, ◌≡◌, ◌≢◌, refl, ap, ◌⊎◌, inl, inr, Bool-cases, ◌∙◌, true, false, ◌&&◌, arith, List,
  [], ◌∷◌, ◌==◌, update, update_self, none, some,
}
use operating_systems_cs.Links.{
  t_dir, Entry, dot, dotdot, Fs, lookup, add_entry, dirlink_panics, entered, if_entered, dirlink,
  set_nlink, add_dots,
}
use operating_systems_cs.Links.Entries.{bit, names, Dotted, is_proper}
use operating_systems_cs.Links.Balance.{IsFs}
use operating_systems_cs.Links.Added.{unlike, linked-IsFs, filled-IsFs}

pub update_twice {ℓ} :
    {A : Type ℓ} (f : ℕ → A) (i : ℕ) (a b : A) → update (update f i a) i b ≡ update f i b
update_twice f i a b = fun_ext λ x. ground arith

abbrev pub dot_entry : ℕ → Entry
dot_entry ip = record { inum = ip; name = dot }

abbrev pub dotdot_entry : ℕ → Entry
dotdot_entry dp = record { inum = dp; name = dotdot }

pub dirlink-absent :
    (d inum : ℕ) (name : List ℕ) (s : Fs)
    → lookup name (s.slots d) ≡ none
    → (dirlink d name inum s ≡ dirlink_panics)
      ⊎ (dirlink d name inum s
          ≡ entered (record s { slots = update s.slots d (add_entry name inum (s.slots d)) }))
unfolding dirlink
dirlink-absent d inum name s h = elim (Bool-cases (s.takes d (s.slots d))) [
  | inr full ↦ inl (rw (h, full, dirlink) refl)
  | inl room ↦ inr (rw (h, room, dirlink) refl)
]

-- The new directory gets `.` and `..`, or the disk is full.
pub add_dots_lem :
    (ip dp : ℕ) (s : Fs)
    → ip ≢ 0
    → s.slots ip ≡ []
    → (add_dots ip dp s ≡ none)
      ⊎ (add_dots ip dp s
          ≡ some (record s {
            nlink = update s.nlink dp (s.nlink dp + 1);
            slots = update s.slots ip (dot_entry ip ∷ dotdot_entry dp ∷ []);
          }))
unfolding add_dots lookup add_entry
add_dots_lem ip dp s ne h =
    let self : (ip == ip) ≡ true = ground arith in
    let used : (ip == 0) ≡ false = ground arith in
    let s1 = set_nlink dp (s.nlink dp + 1) s in
    let s2 = record s1 { slots = update s.slots ip (dot_entry ip ∷ []) } in
    let at : s2.slots ip ≡ dot_entry ip ∷ [] = update_self s.slots ip (dot_entry ip ∷ []) in
    let both : update s2.slots ip (add_entry dotdot dp (s2.slots ip))
        ≡ update s.slots ip (dot_entry ip ∷ dotdot_entry dp ∷ []) =
      ap (λ es. update s2.slots ip (add_entry dotdot dp es)) at
      ∙ rw used
          (update_twice s.slots ip (dot_entry ip ∷ []) (dot_entry ip ∷ dotdot_entry dp ∷ [])) in
    elim (dirlink-absent ip ip dot s1 (ap (lookup dot) h)) [
      | inl full ↦ inl (rw (full, add_dots) refl)
      | inr done ↦
          let first : dirlink ip dot ip s1 ≡ entered s2 = done ∙ rw h refl in
          elim (dirlink-absent ip dp dotdot s2 (ap (lookup dotdot) at ∙ rw used refl)) [
            | inl full ↦ inl (rw (first, add_dots) (ap if_entered full))
            | inr second ↦ inr (
                rw (first, add_dots)
                  (ap if_entered second ∙ ap (λ f. some (record s1 { slots = f })) both))
          ]
    ]

-- The free inode `i`, with an entry in the directory `dp`.
module _ (s : Fs) (v : IsFs s) (i dp type : ℕ) (name : List ℕ) where
  pub made-IsFs :
      (es : List Entry) (nl ref : ℕ → ℕ) (device : ℕ → ℕ × ℕ)
      → s.type i ≡ 0
      → i ≢ 0
      → i < s.ninodes
      → type ≢ 0
      → names es ≡ 0
      → (type ≡ t_dir → Dotted es)
      → (type ≢ t_dir → es ≡ [])
      → s.type dp ≡ t_dir
      → s.nlink dp ≢ 0
      → is_proper name ≡ true
      → ((j : ℕ) → nl j ≡ s.nlink j + bit (i == j) + bit (dp == j && type == t_dir))
      → IsFs (record s {
        type = update s.type i type;
        nlink = nl;
        device = device;
        slots = update (update s.slots i es) dp (add_entry name i (update s.slots i es dp));
        ref = ref;
      })
  made-IsFs es nl ref device free ne lt used empty dots bare dir linked p diff =
      let apart = unlike s.type i dp (λ e. omega arith) in
      let full = record s { type = update s.type i type; slots = update s.slots i es } in
      let self : update s.type i type i ≡ type = update_self s.type i type in
      let w =
        linked-IsFs full (filled-IsFs s v i type es free ne lt used empty dots bare) dp i name nl
          (rw apart dir) linked (rw self used) p (λ j. rw self (diff j)) in
      record {
        counted = w.counted;
        plain = w.plain;
        dotted = w.dotted;
        orphan = w.orphan;
        unused = w.unused;
        inside = w.inside;
        no_zero = w.no_zero;
      }

pub dots-names : (i dp : ℕ) → names (dot_entry i ∷ dotdot_entry dp ∷ []) ≡ 0
dots-names i dp = ground arith

pub dots-Dotted : (i dp : ℕ) → i ≢ 0 → dp ≢ 0 → Dotted (dot_entry i ∷ dotdot_entry dp ∷ [])
dots-Dotted i dp a b = (a, b, refl, refl)
