-- ===== src/Drive/Serve.antt =====
-- Interrupts serve all requests.
use operating_systems_cs.Prelude.{
  ℕ, ◌<◌, ◌≡◌, refl, sym, ap, ◌∙◌, inl, inr, Bool, true, false, not, ◌&&◌, ◌||◌, Bool-cases, arith,
  List, [], ◌∷◌, ◌++◌, append-nil, append_assoc, length, ltb, ◌==◌, eq_of_eqb, update, update_self,
  update_ne, Option, has, has-append,
}
use operating_systems_cs.Bio.{Buf}
use operating_systems_cs.Drive.{
  fssize, Command, Drive, End, panics, hangs, returns, idestart, received, serve, ideintr, waits,
  enqueue, iderw,
}
use operating_systems_cs.Drive.Steps.{asked, distinct, IsDrive, finished, distinct-append}

-- The blocks of the queued buffers are on the disk.
abbrev pub OnDisk : (ℕ → Buf) → List ℕ → Type 0
OnDisk bufs q = (b : ℕ) → has b q ≡ true → (bufs b).blockno < fssize

-- An interrupt for each pair: whether there was no error, and what was read.
pub drain : List (Bool × ℕ) → Drive → End
drain [] s = returns s
drain ((ok, incoming) ∷ ins) s = elim (ideintr ok incoming (finished s)) [
  | panics ↦ panics
  | hangs ↦ hangs
  | returns s' ↦ drain ins s'
]

or_true : (a : Bool) → (a || true) ≡ true
or_true false = refl
or_true true = refl

-- What one interrupt does.
abbrev served : Bool → ℕ → ℕ → List ℕ → Drive → Drive
served ok incoming b bs s = record s {
  queue = bs;
  bufs = update s.bufs b (received ok incoming (s.bufs b));
  woken = s.woken ++ (b ∷ []);
  active = asked (update s.bufs b (received ok incoming (s.bufs b))) bs;
}

serve_lem :
    (ok : Bool) (incoming b : ℕ) (bs : List ℕ) (s : Drive)
    → distinct (b ∷ bs) ≡ true
    → OnDisk s.bufs (b ∷ bs)
    → serve ok incoming (b ∷ bs) (finished s) ≡ returns (served ok incoming b bs s)
unfolding asked idestart
serve_lem ok incoming b [] s d h = refl
serve_lem ok incoming b (c ∷ bs) s d h =
    let other : (b == c) ≡ false = ground arith in
    let self : (c == c) ≡ true = ground arith in
    let on = h c (rw self (or_true (c == b))) in
    let small : ltb (s.bufs c).blockno fssize ≡ true = ground arith in rw (other, small) refl

-- The requests `q` are served, and nothing else has changed.
pub record Drained (s : Drive) (q : List ℕ) (s' : Drive) : Type 0 where
  pub empty : s'.queue ≡ []
  pub ready : (b : ℕ) → has b q ≡ true → waits (s'.bufs b) ≡ false
  pub kept : (b : ℕ) → has b q ≡ false → s'.bufs b ≡ s.bufs b
  pub order : s'.woken ≡ s.woken ++ q

abbrev pub Finishes : Drive → List ℕ → End → Type 0
Finishes s q panics = ⊥
Finishes s q hangs = ⊥
Finishes s q (returns s') = Drained s q s'

OnDisk-served :
    (s : Drive) (b : ℕ) (buf : Buf) (bs : List ℕ)
    → has b bs ≡ false
    → OnDisk s.bufs (b ∷ bs)
    → OnDisk (update s.bufs b buf) bs
OnDisk-served s b buf bs out h c there = elim (Bool-cases (b == c)) [
  | inl e ↦ absurd (let bad : has b bs ≡ true = rw (eq_of_eqb b c e) there in cc)
  | inr e ↦ rw e (h c (rw there (or_true (c == b))))
]

-- The other requests are served after the first one.
Finishes-served :
    (ok : Bool) (incoming b : ℕ) (bs : List ℕ) (s : Drive) (end : End)
    → has b bs ≡ false
    → Finishes (served ok incoming b bs s) bs end
    → Finishes s (b ∷ bs) end
unfolding asked
Finishes-served ok incoming b bs s panics out d = d
Finishes-served ok incoming b bs s hangs out d = d
Finishes-served ok incoming b bs s (returns s') out d = record {
  empty = d.empty;
  ready = λ c there. elim (Bool-cases (b == c)) [
    | inl e ↦
        let at : s'.bufs b ≡ received ok incoming (s.bufs b) =
          d.kept b out ∙ update_self s.bufs b _ in
        rw (← eq_of_eqb b c e, at) refl
    | inr e ↦ d.ready c (ground arith)
  ];
  kept = λ c away. d.kept c (ground arith) ∙ update_ne s.bufs b c _ (λ e. ground arith);
  order = d.order ∙ append_assoc s.woken (b ∷ []) bs;
}

drain-Finishes :
    (ins : List (Bool × ℕ)) (q : List ℕ) (s : Drive)
    → length ins ≡ length q
    → s.queue ≡ q
    → distinct q ≡ true
    → OnDisk s.bufs q
    → Finishes s q (drain ins s)
unfolding drain ideintr asked
drain-Finishes [] [] s n e d h = record {
  empty = e;
  ready = λ b there. cc;
  kept = λ b away. refl;
  order = sym (append-nil s.woken);
}
drain-Finishes [] (b ∷ q) s n e d h = absurd (omega arith)
drain-Finishes (i ∷ ins) [] s n e d h = absurd (omega arith)
drain-Finishes ((ok, incoming) ∷ ins) (b ∷ q) s n e d h =
    let out : has b q ≡ false = ground arith in
    let first : ideintr ok incoming (finished s) ≡ returns (served ok incoming b q s) =
      ap (λ x. serve ok incoming x (finished s)) e ∙ serve_lem ok incoming b q s d h in
    let rest =
      drain-Finishes ins q (served ok incoming b q s) (omega arith) refl (ground arith)
        (OnDisk-served s b (received ok incoming (s.bufs b)) q out h) in
    rw (drain, first) (Finishes-served ok incoming b q s _ out rest)

-- `iderw`, and then the interrupts.
abbrev pub then_drain : List (Bool × ℕ) → End → End
then_drain ins panics = panics
then_drain ins hangs = hangs
then_drain ins (returns s) = drain ins s

enqueue_lem :
    (s : Drive) (b : ℕ) (q : List ℕ)
    → s.queue ≡ q
    → has b q ≡ false
    → IsDrive s
    → (s.bufs b).blockno < fssize
    → enqueue b (record s { queue = q ++ (b ∷ []) })
      ≡ returns (record s { queue = q ++ (b ∷ []); active = asked s.bufs (q ++ (b ∷ [])) })
unfolding asked idestart
enqueue_lem s b [] e out v small =
    let free = v.working ∙ ap (asked s.bufs) e in
    let self : (b == b) ≡ true = ground arith in
    let ok : ltb (s.bufs b).blockno fssize ≡ true = ground arith in rw (self, ok, free) refl
enqueue_lem s b (c ∷ q) e out v small =
    let works = v.working ∙ ap (asked s.bufs) e in
    let other : (c == b) ≡ false = ground arith in rw (other, works) refl

Finishes-active :
    (s : Drive) (q' : List ℕ) (active : Option Command) (q : List ℕ) (end : End)
    → Finishes (record s { queue = q'; active = active }) q end
    → Finishes s q end
Finishes-active s q' active q panics f = f
Finishes-active s q' active q hangs f = f
Finishes-active s q' active q (returns s') f = record {
  empty = f.empty;
  ready = f.ready;
  kept = f.kept;
  order = f.order;
}

-- `iderw` of a buffer that its process holds, that is unread or dirty, that is not queued yet and that is
-- for a disk that is there, followed by one interrupt for each request in the queue, does not panic or wait
-- for the controller. The buffer and those queued before it are served, in their order, so that the loop
-- of `iderw` ends; the blocks of the buffers must be on the disk.
pub iderw-Finishes :
    (s : Drive) (b : ℕ) (ins : List (Bool × ℕ))
    → IsDrive s
    → has b s.queue ≡ false
    → (s.bufs b).busy ≡ true
    → waits (s.bufs b) ≡ true
    → ((s.bufs b).dev == 0 || s.havedisk1) ≡ true
    → OnDisk s.bufs (s.queue ++ (b ∷ []))
    → length ins ≡ length (s.queue ++ (b ∷ []))
    → Finishes s (s.queue ++ (b ∷ [])) (then_drain ins (iderw b s))
unfolding iderw
iderw-Finishes s b ins v out busy waiting there on n =
    let good : (not (s.bufs b).busy
          || ((s.bufs b).valid && not (s.bufs b).dirty)
          || (not ((s.bufs b).dev == 0) && not s.havedisk1))
        ≡ false =
      ground arith in
    let self : (b == b) ≡ true = ground arith in
    let last : has b (s.queue ++ (b ∷ [])) ≡ true =
      has-append b s.queue (b ∷ []) ∙ rw (self, out) refl in
    let s1 = record s {
      queue = s.queue ++ (b ∷ []);
      active = asked s.bufs (s.queue ++ (b ∷ []));
    } in
    let start : iderw b s ≡ returns s1 = rw good (enqueue_lem s b s.queue refl out v (on b last)) in
    rw start (
      Finishes-active s s1.queue s1.active s1.queue (drain ins s1)
        (drain-Finishes ins s1.queue s1 n refl (distinct-append b s.queue out v.once) on))
