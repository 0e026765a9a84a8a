-- ===== src/Links/Removed.antt =====
-- That an entry that is removed keeps the numbers of links.
use operating_systems_cs.Prelude.{
  ℕ, ◌+◌, ◌-◌, ◌≤◌, ◌<◌, ◌≡◌, ◌≢◌, refl, sym, ap, ◌∙◌, inl, inr, true, false, ◌&&◌, Bool-cases,
  arith, List, ◌==◌, eq_of_eqb, update,
}
use operating_systems_cs.Links.{t_dir, Fs, clear_entry, iput}
use operating_systems_cs.Links.Sums.{sum_to, sum_to-update}
use operating_systems_cs.Links.Entries.{
  bit, count, subdirs, names, is_proper, At, At-pos, count-clear, subdirs-clear, names-clear,
  names-At, Dotted-clear,
}
use operating_systems_cs.Links.Balance.{links, IsFs, not_zero, links-count}

-- The entry at `k` of the directory `dp`.
module _ (s : Fs) (v : IsFs s) (dp ip k : ℕ) (name : List ℕ) where
  links-clear :
      (j : ℕ)
      → j ≢ 0
      → dp < s.ninodes
      → At name (s.slots dp) ip k
      → is_proper name ≡ true
      → sum_to s.ninodes (λ d. count j (update s.slots dp (clear_entry k (s.slots dp)) d))
          + bit (ip == j)
        ≡ links j s
  links-clear j nj lt a p =
      let whole = sum_to-update s.ninodes dp (count j) s.slots (clear_entry k (s.slots dp)) lt in
      let one : count j (clear_entry k (s.slots dp)) + bit (ip == j) ≡ count j (s.slots dp) =
        elim (Bool-cases (ip == j)) [
          | inl e ↦
              let q = count-clear j name (s.slots dp) ip k nj a in
              let r : count j (clear_entry k (s.slots dp)) + 1 ≡ count j (s.slots dp) =
                rw (e, p) at q in
              rw e r
          | inr e ↦
              let q = count-clear j name (s.slots dp) ip k nj a in
              let r : count j (clear_entry k (s.slots dp)) + 0 ≡ count j (s.slots dp) = rw e at q in
              rw e r
        ] in
      omega arith

  pub unlinked-IsFs :
      (nl : ℕ → ℕ)
      → s.type dp ≡ t_dir
      → At name (s.slots dp) ip k
      → is_proper name ≡ true
      → ((j : ℕ) → nl j + bit (ip == j) + bit (dp == j && s.type ip == t_dir) ≡ s.nlink j)
      → names (s.slots ip) ≡ 0
      → IsFs (record s { nlink = nl; slots = update s.slots dp (clear_entry k (s.slots dp)) })
  unlinked-IsFs nl dir a p diff empty =
      let lt = v.inside dp (λ e. omega arith) in
      record {
        counted = λ j nj.
            let all = links-clear j nj lt a p in
            let old = v.counted j nj in
            let here = diff j in
            let subs : subdirs s.type (update s.slots dp (clear_entry k (s.slots dp)) j)
                  + bit (dp == j && s.type ip == t_dir)
                ≡ subdirs s.type (s.slots j) =
              elim (Bool-cases (dp == j)) [
                | inl e ↦
                    let q = subdirs-clear s.type name (s.slots dp) ip k a in
                    let r : subdirs s.type (clear_entry k (s.slots dp)) + bit (s.type ip == t_dir)
                        ≡ subdirs s.type (s.slots dp) =
                      rw p at q in
                    rw (e, ← eq_of_eqb dp j e) r
                | inr e ↦ rw e (omega arith)
              ] in
            omega arith;
        plain = λ j h. elim (Bool-cases (dp == j)) [
          | inl e ↦ absurd (h (ap s.type (sym (eq_of_eqb dp j e)) ∙ dir))
          | inr e ↦ rw e (v.plain j h)
        ];
        dotted = λ j h. elim (Bool-cases (dp == j)) [
          | inl e ↦ rw e (Dotted-clear name (s.slots dp) ip k p a (v.dotted dp dir))
          | inr e ↦ rw e (v.dotted j h)
        ];
        orphan = λ j nj nr h.
            let all = links-clear j nj lt a p in
            let shrinks : names (update s.slots dp (clear_entry k (s.slots dp)) j)
                ≤ names (s.slots j) =
              elim (Bool-cases (dp == j)) [
                | inl e ↦ rw (e, ← eq_of_eqb dp j e) (names-clear k (s.slots dp))
                | inr e ↦ rw e (omega arith)
              ] in
            elim (Bool-cases (ip == j)) [
              | inl e ↦ let z : names (s.slots j) ≡ 0 = rw (← eq_of_eqb ip j e) empty in omega arith
              | inr e ↦
                  let old : links j s ≡ 0 = ground arith in
                  let z = v.orphan j nj nr old in omega arith
            ];
        unused = λ j h. let z = v.unused j h in let q = diff j in omega arith;
        inside = v.inside;
        no_zero = v.no_zero;
      }

-- An inode with links stays.
pub iput-linked :
    (s : Fs) (i : ℕ) → s.nlink i ≢ 0 → iput i s ≡ record s { ref = update s.ref i (s.ref i - 1) }
unfolding iput
iput-linked s i h =
    let linked : (s.nlink i == 0) ≡ false = ground arith in
    elim (Bool-cases (s.ref i == 1)) [ inl e ↦ rw (e, linked) refl | inr e ↦ rw e refl ]

-- The directory of a proper entry has more links than that entry gives it.
pub bit-nlink :
    (s : Fs) (dp ip k : ℕ) (name : List ℕ)
    → IsFs s
    → s.type dp ≡ t_dir
    → At name (s.slots dp) ip k
    → is_proper name ≡ true
    → bit (s.type ip == t_dir) < s.nlink dp
bit-nlink s dp ip k name v dir a p =
    let ne = not_zero s v dp (λ e. omega arith) in
    let whole = v.counted dp ne in
    let q = subdirs-clear s.type name (s.slots dp) ip k a in
    let r : subdirs s.type (clear_entry k (s.slots dp)) + bit (s.type ip == t_dir)
        ≡ subdirs s.type (s.slots dp) =
      rw p at q in
    let full = names-At name (s.slots dp) ip k p a in
    elim (Bool-cases (dp == 1)) [
      | inl e ↦
          let w : s.nlink dp ≡ links dp s + subdirs s.type (s.slots dp) + 1 = rw e at whole in
          omega arith
      | inr e ↦
          let held : links dp s ≢ 0 = λ z. omega (arith, v.orphan dp ne (ground arith) z) in
          omega arith
    ]

pub links-At :
    (s : Fs) (dp ip k : ℕ) (name : List ℕ)
    → IsFs s
    → At name (s.slots dp) ip k
    → is_proper name ≡ true
    → links ip s ≢ 0
links-At s dp ip k name v a p z =
    let ne = At-pos name (s.slots dp) ip k a in
    let here : (ip == ip) ≡ true = ground arith in
    let q = count-clear ip name (s.slots dp) ip k ne a in
    let r : count ip (clear_entry k (s.slots dp)) + 1 ≡ count ip (s.slots dp) = rw (here, p) at q in
    omega (arith, links-count s v ip dp ne z)

-- An inode with a proper entry has links.
pub nlink-At :
    (s : Fs) (dp ip k : ℕ) (name : List ℕ)
    → IsFs s
    → At name (s.slots dp) ip k
    → is_proper name ≡ true
    → s.nlink ip ≢ 0
nlink-At s dp ip k name v a p z =
    let whole = v.counted ip (At-pos name (s.slots dp) ip k a) in
    let linked = links-At s dp ip k name v a p in omega arith
