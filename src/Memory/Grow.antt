-- ===== src/Memory/Grow.antt =====
-- Growing an address space maps fresh pages; when memory runs out, everything is given back.
use mathlib.Core.Path.{fun_ext}
use operating_systems_cs.Prelude.{
  ℕ, zero, suc, ◌+◌, ◌*◌, ◌/◌, ◌≤◌, ◌<◌, ◌≡◌, ◌≢◌, refl, sym, ap, ◌∙◌, ◌⊎◌, inl, inr, Bool, true,
  false, List, [], ◌∷◌, arith, ltb, leb, ◌==◌, Bool-cases, Option, none, some, update, update_self,
  update_ne, length, take, drop, eq_of_eqb,
}
use operating_systems_cs.Memory.{
  pgsize, nptentries, kernbase, pgroundup, Ptes, Space, walk_alloc, mapped, mappage, out_of_memory,
  grown, alloc_loop, dealloc_loop, returns, deallocuvm, give_back, allocuvm,
}

-- The entries with the pages `ps` mapped from `v` on.
abbrev pub assign : ℕ → List ℕ → Ptes → Ptes
assign v [] t = t
assign v (p ∷ ps) t = assign (v + 1) ps (update t v (some (p, true)))

abbrev pub rev_onto : List ℕ → List ℕ → List ℕ
rev_onto [] ys = ys
rev_onto (x ∷ xs) ys = rev_onto xs (x ∷ ys)

-- The tables for `m` pages from `v` on are there, and none of the pages is mapped.
pub record IsRoom (v m : ℕ) (tables : ℕ → Bool) (t : Ptes) : Type 0 where
  pub tabled : (x : ℕ) → v ≤ x → x < v + m → tables (x / nptentries) ≡ true
  pub unmapped : (x : ℕ) → v ≤ x → x < v + m → t x ≡ none

next-IsRoom :
    (v m p : ℕ) (tables : ℕ → Bool) (t : Ptes)
    → IsRoom v (suc m) tables t
    → IsRoom (v + 1) m tables (update t v (some (p, true)))
next-IsRoom v m p tables t r = record {
  tabled = λ x lo hi. r.tabled x (omega arith) (omega arith);
  unmapped = λ x lo hi.
      update_ne t v x (some (p, true)) (λ e. omega arith)
      ∙ r.unmapped x (omega arith) (omega arith);
}

-- `newsz` is in the last of `m` pages from `v` on, or at its end.
abbrev pub Spans : ℕ → ℕ → ℕ → Type 0
Spans v m newsz = (newsz ≤ pgsize * (v + m)) × ((x : ℕ) → x < v + m → v ≤ x → pgsize * x < newsz)

abbrev pub space : (ℕ → Bool) → Ptes → List ℕ → Space
space tables t l = record { tables = tables; ptes = t; free = l }

map_step :
    (v m p : ℕ) (tables : ℕ → Bool) (t : Ptes) (ps : List ℕ)
    → IsRoom v (suc m) tables t
    → mappage v p true (space tables t ps) ≡ mapped (space tables (update t v (some (p, true))) ps)
unfolding mappage walk_alloc
map_step v m p tables t ps r =
    let a = r.tabled v (omega arith) (omega arith) in
    let b = r.unmapped v (omega arith) (omega arith) in rw (a, b, mappage, walk_alloc) refl

pub alloc_done : (k v newsz : ℕ) (s : Space) → newsz ≤ pgsize * v → alloc_loop k v newsz s ≡ grown s
unfolding alloc_loop
alloc_done zero v newsz s h = refl
alloc_done (suc k) v newsz s h =
    let b : ltb (pgsize * v) newsz ≡ false = ground arith in rw (b, alloc_loop) refl

-- What the loop does: it maps the first free pages, until it is done or has none.
alloc_loop_lem :
    (rounds v m newsz : ℕ) (tables : ℕ → Bool) (t : Ptes) (l : List ℕ)
    → m ≤ rounds
    → Spans v m newsz
    → IsRoom v m tables t
    → ((m ≤ length l)
        × (alloc_loop rounds v newsz (space tables t l)
            ≡ grown (space tables (assign v (take m l) t) (drop m l))))
      ⊎ ((length l < m)
          × (alloc_loop rounds v newsz (space tables t l)
              ≡ out_of_memory (space tables (assign v l t) [])))
unfolding alloc_loop
alloc_loop_lem rounds v zero newsz tables t l hr (hi, lo) r =
    inl (omega arith, alloc_done rounds v newsz (space tables t l) (omega arith))
alloc_loop_lem zero v (suc m) newsz tables t l hr h r = absurd (omega arith)
alloc_loop_lem (suc rounds) v (suc m) newsz tables t [] hr (hi, lo) r =
    let first = lo v (omega arith) (omega arith) in
    let b : ltb (pgsize * v) newsz ≡ true = ground arith in
    inr (omega arith, rw (b, alloc_loop) refl)
alloc_loop_lem (suc rounds) v (suc m) newsz tables t (p ∷ ps) hr (hi, lo) r =
    let first = lo v (omega arith) (omega arith) in
    let b : ltb (pgsize * v) newsz ≡ true = ground arith in
    let step = map_step v m p tables t ps r in
    let next = update t v (some (p, true)) in
    elim (alloc_loop_lem rounds (v + 1) m newsz tables next ps (omega arith)
      (omega arith, λ x a c. lo x (omega arith) (omega arith)) (next-IsRoom v m p tables t r)) [
        | inl (enough, e) ↦ inl (omega arith, rw (b, step, alloc_loop) e)
        | inr (short, e) ↦ inr (omega arith, rw (b, step, alloc_loop) e)
      ]

update_swap :
    (t : Ptes) (v w : ℕ) (a b : Option (ℕ × Bool))
    → v ≢ w
    → update (update t v a) w b ≡ update (update t w b) v a
update_swap t v w a b ne = fun_ext λ x. ground arith

-- An entry before the assigned ones commutes with them.
assign_before :
    (ps : List ℕ) (v w : ℕ) (t : Ptes) (a : Option (ℕ × Bool))
    → v < w
    → assign w ps (update t v a) ≡ update (assign w ps t) v a
assign_before [] v w t a h = refl
assign_before (p ∷ ps) v w t a h =
    ap (assign (w + 1) ps) (update_swap t v w a (some (p, true)) (λ e. omega arith))
    ∙ assign_before ps v (w + 1) (update t w (some (p, true))) a (omega arith)

update_back : (t : Ptes) (v : ℕ) (a : Option (ℕ × Bool)) → update (update t v a) v (t v) ≡ t
update_back t v a = fun_ext λ x. elim (Bool-cases (v == x)) [
  | inl same ↦ rw (same, ← eq_of_eqb v x same) refl
  | inr other ↦ rw other refl
]

assign_apart : (ps : List ℕ) (v w : ℕ) (t : Ptes) → v < w → assign w ps t v ≡ t v
assign_apart [] v w t h = refl
assign_apart (p ∷ ps) v w t h =
    assign_apart ps v (w + 1) (update t w (some (p, true))) (omega arith)
    ∙ update_ne t w v (some (p, true)) (λ e. omega arith)

assign_first : (ps : List ℕ) (v p : ℕ) (t : Ptes) → assign v (p ∷ ps) t v ≡ some (p, true)
assign_first ps v p t =
    assign_apart ps v (v + 1) (update t v (some (p, true))) (omega arith)
    ∙ update_self t v (some (p, true))

-- Clearing the first assigned entry leaves the others.
assign_clear :
    (ps : List ℕ) (v p : ℕ) (t : Ptes)
    → t v ≡ none
    → update (assign v (p ∷ ps) t) v none ≡ assign (v + 1) ps t
assign_clear ps v p t e =
    ap (λ g. update g v none) (assign_before ps v (v + 1) t (some (p, true)) (omega arith))
    ∙ ap (λ a. update (update (assign (v + 1) ps t) v (some (p, true))) v a)
        (sym e ∙ sym (assign_apart ps v (v + 1) t (omega arith)))
    ∙ update_back (assign (v + 1) ps t) v (some (p, true))

-- No page is page 0, which `kfree` would not take.
abbrev pub AllPages : List ℕ → Type 0
AllPages [] = Unit {0}
AllPages (p ∷ ps) = (0 < p) × AllPages ps

-- Freeing the pages of a range of which the first ones are mapped.
dealloc_loop_lem :
    (rounds v m oldsz : ℕ) (tables : ℕ → Bool) (t : Ptes) (ps l : List ℕ)
    → m ≤ rounds
    → length ps ≤ m
    → Spans v m oldsz
    → IsRoom v m tables t
    → AllPages ps
    → dealloc_loop rounds v oldsz (space tables (assign v ps t) l)
      ≡ some (space tables t (rev_onto ps l))
unfolding dealloc_loop
dealloc_loop_lem zero v m oldsz tables t [] l hr hl h r pos = refl
dealloc_loop_lem zero v m oldsz tables t (p ∷ ps) l hr hl h r pos = absurd (omega arith)
dealloc_loop_lem (suc rounds) v zero oldsz tables t (p ∷ ps) l hr hl h r pos = absurd (omega arith)
dealloc_loop_lem (suc rounds) v zero oldsz tables t [] l hr hl (hi, lo) r pos =
    let b : ltb (pgsize * v) oldsz ≡ false = ground arith in rw (b, dealloc_loop) refl
dealloc_loop_lem (suc rounds) v (suc m) oldsz tables t [] l hr hl (hi, lo) r pos =
    let first = lo v (omega arith) (omega arith) in
    let b : ltb (pgsize * v) oldsz ≡ true = ground arith in
    let there = r.tabled v (omega arith) (omega arith) in
    let e = r.unmapped v (omega arith) (omega arith) in
    rw (b, there, e, dealloc_loop)
      (dealloc_loop_lem rounds (v + 1) m oldsz tables t [] l (omega arith) (omega arith)
        (omega arith, λ x a c. lo x (omega arith) (omega arith))
        (record {
          tabled = λ x a c. r.tabled x (omega arith) (omega arith);
          unmapped = λ x a c. r.unmapped x (omega arith) (omega arith);
        })
        tt)
dealloc_loop_lem (suc rounds) v (suc m) oldsz tables t (p ∷ ps) l hr hl (hi, lo) r (pos, all) =
    let first = lo v (omega arith) (omega arith) in
    let b : ltb (pgsize * v) oldsz ≡ true = ground arith in
    let there = r.tabled v (omega arith) (omega arith) in
    let e = r.unmapped v (omega arith) (omega arith) in
    let nz : (p == 0) ≡ false = ground arith in
    rw (b, there, assign_first ps v p t, nz, assign_clear ps v p t e, dealloc_loop)
      (dealloc_loop_lem rounds (v + 1) m oldsz tables t ps (p ∷ l) (omega arith) (omega arith)
        (omega arith, λ x a c. lo x (omega arith) (omega arith))
        (record {
          tabled = λ x a c. r.tabled x (omega arith) (omega arith);
          unmapped = λ x a c. r.unmapped x (omega arith) (omega arith);
        })
        all)

-- The pages from the end of `oldsz` to the end of `newsz`.
pages_spanned :
    (oldsz newsz m : ℕ) → pgroundup oldsz + m ≡ pgroundup newsz → Spans (pgroundup oldsz) m newsz
pages_spanned oldsz newsz m h = (omega arith, λ x a b. omega arith)

-- Growing from `oldsz` to `newsz` where the tables for the `m` new pages are there: with `m` free pages,
-- each new page gets one and the rest stays free; with fewer, it returns 0, no entry has changed, and every
-- page is free again.
pub allocuvm_lem :
    (oldsz newsz m : ℕ) (tables : ℕ → Bool) (t : Ptes) (l : List ℕ)
    → oldsz ≤ newsz
    → newsz < kernbase
    → pgroundup oldsz + m ≡ pgroundup newsz
    → IsRoom (pgroundup oldsz) m tables t
    → AllPages l
    → ((m ≤ length l)
        × (allocuvm oldsz newsz (space tables t l)
            ≡ returns newsz (space tables (assign (pgroundup oldsz) (take m l) t) (drop m l))))
      ⊎ ((length l < m)
          × (allocuvm oldsz newsz (space tables t l) ≡ returns 0 (space tables t (rev_onto l []))))
unfolding allocuvm deallocuvm
allocuvm_lem oldsz newsz m tables t l grows low sum room pages =
    let small : leb kernbase newsz ≡ false = ground arith in
    let up : ltb newsz oldsz ≡ false = ground arith in
    let span = pages_spanned oldsz newsz m sum in
    let rounds : m ≤ newsz = omega arith in
    elim (alloc_loop_lem newsz (pgroundup oldsz) m newsz tables t l rounds span room) [
      | inl (enough, e) ↦ inl (enough, rw (small, up, e) refl)
      | inr (short, e) ↦
          let more : leb newsz oldsz ≡ false = ground arith in
          let back =
            dealloc_loop_lem newsz (pgroundup oldsz) m newsz tables t l [] rounds (omega arith) span
              room pages in
          inr (short, rw (small, up, e, more, back, give_back, deallocuvm) refl)
    ]
