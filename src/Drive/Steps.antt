-- ===== src/Drive/Steps.antt =====
-- The steps of the driver, and what they keep.
use mathlib.Core.Path.{subst}
use operating_systems_cs.Prelude.{
  ℕ, ◌≡◌, ◌≢◌, refl, sym, ap, ◌∙◌, inl, inr, Bool, true, false, not, ◌&&◌, ◌||◌, Bool-cases, arith,
  List, [], ◌∷◌, ◌++◌, ltb, ◌==◌, eq_of_eqb, update, Option, none, some, has, has-append,
}
use operating_systems_cs.Bio.{Buf}
use operating_systems_cs.Drive.{
  fssize, Command, Drive, panics, hangs, returns, command, idestart, received, serve, ideintr,
  waits, enqueue, iderw,
}

-- The command that the first buffer of a queue asks for.
unfoldable pub asked : (ℕ → Buf) → List ℕ → Option Command
asked bufs [] = none
asked bufs (b ∷ bs) = some (command (bufs b))

abbrev pub distinct : List ℕ → Bool
distinct [] = true
distinct (b ∷ bs) = not (has b bs) && distinct bs

-- The controller works on what the first buffer asks for, every buffer in the queue is held by the process
-- that waits for it, and none is there twice.
pub record IsDrive (s : Drive) : Type 0 where
  pub working : s.active ≡ asked s.bufs s.queue
  pub pending :
      (b : ℕ) → has b s.queue ≡ true → ((s.bufs b).busy ≡ true) × (waits (s.bufs b) ≡ true)
  pub once : distinct s.queue ≡ true

-- The controller has done its command.
abbrev pub finished : Drive → Drive
finished s = record s { active = none }

-- A process starts `iderw` for a buffer that it holds, the controller interrupts when it has done its
-- command, or a process that holds a buffer changes it.
pub data Step : List ℕ → Drive → Drive → Type 0 where
  requests :
      {s s' : Drive} (b : ℕ) → has b s.queue ≡ false → iderw b s ≡ returns s' → Step (b ∷ []) s s'
  interrupts :
      {s s' : Drive} (ok : Bool) (incoming : ℕ)
      → s.active ≢ none
      → ideintr ok incoming (finished s) ≡ returns s'
      → Step [] s s'
  changes :
      {s : Drive} (b : ℕ) (buf : Buf)
      → has b s.queue ≡ false
      → Step [] s (record s { bufs = update s.bufs b buf })

pub returns_inj : {s t : Drive} → returns s ≡ returns t → s ≡ t
returns_inj {s} {t} h = ap (λ e. elim e [ panics ↦ s | hangs ↦ s | returns x ↦ x ]) h

-- A start that succeeds.
pub idestart_lem :
    (b : ℕ) (s s' : Drive)
    → s.active ≡ none
    → idestart b s ≡ returns s'
    → s' ≡ record s { active = some (command (s.bufs b)) }
unfolding idestart
idestart_lem b s s' free h = elim (Bool-cases (ltb (s.bufs b).blockno fssize)) [
  | inl ok ↦
      let q : returns (record s { active = some (command (s.bufs b)) }) ≡ returns s' =
        rw (ok, free) at h in
      sym (returns_inj q)
  | inr out ↦ let q : panics ≡ returns s' = rw out at h in cc
]

-- A buffer that is not in the queue does not matter to it.
asked-update :
    (bufs : ℕ → Buf) (b : ℕ) (buf : Buf) (bs : List ℕ)
    → has b bs ≡ false
    → asked (update bufs b buf) bs ≡ asked bufs bs
unfolding asked
asked-update bufs b buf [] h = refl
asked-update bufs b buf (c ∷ bs) h = let e : (b == c) ≡ false = ground arith in rw e refl

changed-IsDrive :
    (s : Drive) (b : ℕ) (buf : Buf)
    → has b s.queue ≡ false
    → IsDrive s
    → IsDrive (record s { bufs = update s.bufs b buf })
changed-IsDrive s b buf h v = record {
  working = v.working ∙ sym (asked-update s.bufs b buf s.queue h);
  pending = λ c there. elim (Bool-cases (b == c)) [
    | inl e ↦ (let bad : has b s.queue ≡ true = rw (eq_of_eqb b c e) there in cc)
    | inr e ↦ rw e (v.pending c there)
  ];
  once = v.once;
}

pub distinct-append :
    (b : ℕ) (bs : List ℕ) → has b bs ≡ false → distinct bs ≡ true → distinct (bs ++ (b ∷ [])) ≡ true
distinct-append b [] h d = refl
distinct-append b (c ∷ bs) h d =
    let e : (b == c) ≡ false = ground arith in
    let f : (c == b) ≡ false = ground arith in
    let rest = distinct-append b bs (ground arith) (ground arith) in
    let apart : has c bs ≡ false = ground arith in
    let out : has c (bs ++ (b ∷ [])) ≡ false = has-append c bs (b ∷ []) ∙ rw (apart, f) refl in
    rw (out, rest) refl

-- A buffer comes to the end of the queue, behind others or alone.
queued-IsDrive :
    (s : Drive) (b : ℕ) (active : Option Command)
    → active ≡ asked s.bufs (s.queue ++ (b ∷ []))
    → has b s.queue ≡ false
    → (s.bufs b).busy ≡ true
    → waits (s.bufs b) ≡ true
    → IsDrive s
    → IsDrive (record s { queue = s.queue ++ (b ∷ []); active = active })
queued-IsDrive s b active w h busy waiting v = record {
  working = w;
  pending = λ c there. elim (Bool-cases (c == b)) [
    | inl e ↦ rw (eq_of_eqb c b e) (busy, waiting)
    | inr e ↦ let q = has-append c s.queue (b ∷ []) in v.pending c (ground arith)
  ];
  once = distinct-append b s.queue h v.once;
}

module _ (s s' : Drive) (b : ℕ) (v : IsDrive s) (h : has b s.queue ≡ false) where
  enqueue-IsDrive :
      (q : List ℕ)
      → s.queue ≡ q
      → (s.bufs b).busy ≡ true
      → waits (s.bufs b) ≡ true
      → enqueue b (record s { queue = q ++ (b ∷ []) }) ≡ returns s'
      → IsDrive s'
  unfolding asked
  enqueue-IsDrive [] e busy waiting r =
      let self : (b == b) ≡ true = ground arith in
      let s1 = record s { queue = b ∷ [] } in
      let r1 : idestart b s1 ≡ returns s' = rw self at r in
      let free = v.working ∙ ap (asked s.bufs) e in
      let q = idestart_lem b s1 s' free r1 in
      let w = queued-IsDrive s b (some (command (s.bufs b))) (rw e refl) h busy waiting v in
      subst IsDrive
        (ap (λ x. record s { queue = x ++ (b ∷ []); active = some (command (s.bufs b)) }) e ∙ sym q)
        w
  enqueue-IsDrive (c ∷ q) e busy waiting r =
      let other : (c == b) ≡ false =
        (let n : has b (c ∷ q) ≡ false = sym (ap (has b) e) ∙ h in ground arith) in
      let s1 = record s { queue = c ∷ q ++ (b ∷ []) } in
      let r1 : returns s1 ≡ returns s' = rw other at r in
      let w = queued-IsDrive s b s.active (v.working ∙ rw e refl) h busy waiting v in
      subst IsDrive (ap (λ x. record s { queue = x ++ (b ∷ []) }) e ∙ returns_inj r1) w

  iderw-IsDrive : iderw b s ≡ returns s' → IsDrive s'
  unfolding iderw
  iderw-IsDrive r =
      elim (Bool-cases (
        not (s.bufs b).busy
        || ((s.bufs b).valid && not (s.bufs b).dirty)
        || (not ((s.bufs b).dev == 0) && not s.havedisk1))) [
          | inl bad ↦ let q : panics ≡ returns s' = rw bad at r in cc
          | inr good ↦
              let q : enqueue b (record s { queue = s.queue ++ (b ∷ []) }) ≡ returns s' =
                rw good at r in
              enqueue-IsDrive s.queue refl (ground arith) (ground arith) q
        ]

first-absent : (s : Drive) (b : ℕ) (bs : List ℕ) → s.queue ≡ b ∷ bs → IsDrive s → has b bs ≡ false
first-absent s b bs e v =
    let d : (not (has b bs) && distinct bs) ≡ true = sym (ap distinct e) ∙ v.once in ground arith

-- The first buffer leaves the queue.
dequeued-IsDrive :
    (s : Drive) (b : ℕ) (buf : Buf) (bs woken : List ℕ) (active : Option Command)
    → s.queue ≡ b ∷ bs
    → active ≡ asked s.bufs bs
    → IsDrive s
    → IsDrive (record s { queue = bs; bufs = update s.bufs b buf; woken = woken; active = active })
dequeued-IsDrive s b buf bs woken active e w v =
    let out = first-absent s b bs e v in
    let d : (not (has b bs) && distinct bs) ≡ true = sym (ap distinct e) ∙ v.once in
    record {
      working = w ∙ sym (asked-update s.bufs b buf bs out);
      pending = λ c there. elim (Bool-cases (b == c)) [
        | inl same ↦ absurd (let bad : has b bs ≡ true = rw (eq_of_eqb b c same) there in cc)
        | inr other ↦
            let in_queue : has c s.queue ≡ true = ap (has c) e ∙ ground arith in
            rw other (v.pending c in_queue)
      ];
      once = ground arith;
    }

-- The interrupt for the first buffer.
served-IsDrive :
    (s s' : Drive) (ok : Bool) (incoming : ℕ) (q : List ℕ)
    → s.queue ≡ q
    → IsDrive s
    → serve ok incoming q (finished s) ≡ returns s'
    → IsDrive s'
unfolding asked
served-IsDrive s s' ok incoming [] e v r =
    subst IsDrive (returns_inj r)
      record { working = sym (ap (asked s.bufs) e); pending = v.pending; once = v.once }
served-IsDrive s s' ok incoming (b ∷ []) e v r =
    subst IsDrive (returns_inj r) (
      dequeued-IsDrive s b (received ok incoming (s.bufs b)) [] (s.woken ++ (b ∷ [])) none e refl v)
served-IsDrive s s' ok incoming (b ∷ c ∷ q) e v r =
    let q' =
      idestart_lem c
        (record s {
          queue = c ∷ q;
          bufs = update s.bufs b (received ok incoming (s.bufs b));
          woken = s.woken ++ (b ∷ []);
          active = none;
        })
        s' refl r in
    let out = first-absent s b (c ∷ q) e v in
    let same = asked-update s.bufs b (received ok incoming (s.bufs b)) (c ∷ q) out in
    subst IsDrive (sym q') (
      dequeued-IsDrive s b (received ok incoming (s.bufs b)) (c ∷ q) (s.woken ++ (b ∷ []))
        (some (command (update s.bufs b (received ok incoming (s.bufs b)) c))) e same v)

-- Every step keeps the state well-formed: the controller works on what the first buffer in the queue asks
-- for, and on nothing where the queue is empty; every buffer in the queue is held and waited for, and none
-- is there twice.
pub Step-IsDrive : {rs : List ℕ} {s s' : Drive} → Step rs s s' → IsDrive s → IsDrive s'
unfolding ideintr
Step-IsDrive {s = s} {s' = s'} (requests b h r) v = iderw-IsDrive s s' b v h r
Step-IsDrive {s = s} {s' = s'} (interrupts ok incoming busy r) v =
    served-IsDrive s s' ok incoming s.queue refl v r
Step-IsDrive {s = s} (changes b buf h) v = changed-IsDrive s b buf h v
