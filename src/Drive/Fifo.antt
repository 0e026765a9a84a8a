-- ===== src/Drive/Fifo.antt =====
-- The driver serves requests in the order in which they come.
use operating_systems_cs.Prelude.{
  ℕ, ◌≡◌, refl, sym, ap, ◌∙◌, inl, inr, Bool, not, ◌&&◌, ◌||◌, Bool-cases, List, [], ◌∷◌, ◌++◌,
  append-nil, append_assoc, ltb, ◌==◌, some, Option-cases,
}
use operating_systems_cs.Drive.{
  fssize, Drive, panics, hangs, returns, command, idestart, serve, ideintr, is_first, iderw,
}
use operating_systems_cs.Drive.Steps.{finished, Step, requests, interrupts, changes, returns_inj}

-- The buffers that were served and those that are queued, in order.
abbrev pub in_order : Drive → List ℕ
in_order s = s.woken ++ s.queue

idestart-in_order : (b : ℕ) (s s' : Drive) → idestart b s ≡ returns s' → in_order s' ≡ in_order s
unfolding idestart
idestart-in_order b s s' h = elim (Bool-cases (ltb (s.bufs b).blockno fssize)) [
  | inr out ↦ let q : panics ≡ returns s' = rw out at h in cc
  | inl ok ↦ elim (Option-cases s.active) [
    | inl free ↦
        let q : returns (record s { active = some (command (s.bufs b)) }) ≡ returns s' =
          rw (ok, free) at h in
        ap in_order (sym (returns_inj q))
    | inr (c, busy) ↦ let q : hangs ≡ returns s' = rw (ok, busy) at h in cc
  ]
]

iderw-in_order :
    (b : ℕ) (s s' : Drive) → iderw b s ≡ returns s' → in_order s' ≡ in_order s ++ (b ∷ [])
unfolding iderw
iderw-in_order b s s' h =
    let s1 = record s { queue = s.queue ++ (b ∷ []) } in
    let longer : in_order s1 ≡ in_order s ++ (b ∷ []) =
      sym (append_assoc s.woken s.queue (b ∷ [])) in
    elim (Bool-cases (
      not (s.bufs b).busy
      || ((s.bufs b).valid && not (s.bufs b).dirty)
      || (not ((s.bufs b).dev == 0) && not s.havedisk1))) [
        | inl bad ↦ let q : panics ≡ returns s' = rw bad at h in cc
        | inr good ↦ elim (Bool-cases (is_first b (s.queue ++ (b ∷ [])))) [
          | inl first ↦
              let q : idestart b s1 ≡ returns s' = rw (good, first) at h in
              idestart-in_order b s1 s' q ∙ longer
          | inr behind ↦
              let q : returns s1 ≡ returns s' = rw (good, behind) at h in
              ap in_order (sym (returns_inj q)) ∙ longer
        ]
      ]

serve-in_order :
    (ok : Bool) (incoming : ℕ) (q : List ℕ) (s s' : Drive)
    → s.queue ≡ q
    → serve ok incoming q s ≡ returns s'
    → in_order s' ≡ in_order s
serve-in_order ok incoming [] s s' e h = ap in_order (sym (returns_inj h))
serve-in_order ok incoming (b ∷ []) s s' e h =
    ap in_order (sym (returns_inj h))
    ∙ append-nil (s.woken ++ (b ∷ []))
    ∙ ap (λ q. s.woken ++ q) (sym e)
serve-in_order ok incoming (b ∷ c ∷ q) s s' e h =
    idestart-in_order c _ s' h
    ∙ append_assoc s.woken (b ∷ []) (c ∷ q)
    ∙ ap (λ q. s.woken ++ q) (sym e)

Step-in_order : {rs : List ℕ} {s s' : Drive} → Step rs s s' → in_order s' ≡ in_order s ++ rs
unfolding ideintr
Step-in_order {s = s} {s' = s'} (requests b h r) = iderw-in_order b s s' r
Step-in_order {s = s} {s' = s'} (interrupts ok incoming busy r) =
    serve-in_order ok incoming s.queue (finished s) s' refl r ∙ sym (append-nil (in_order s))
Step-in_order {s = s} (changes b buf h) = sym (append-nil (in_order s))

-- A run of the driver, with the requests in it.
pub data Steps : List ℕ → Drive → Drive → Type 0 where
  stays : {s : Drive} → Steps [] s s
  then_step :
      {rs qs : List ℕ} {s s' s'' : Drive} → Steps rs s s' → Step qs s' s'' → Steps (rs ++ qs) s s''

-- In every run, the buffers that were served followed by those that are queued are those before, followed by
-- the requests of the run in their order.
pub Steps-in_order :
    {rs : List ℕ} {s s' : Drive} → Steps rs s s' → s'.woken ++ s'.queue ≡ (s.woken ++ s.queue) ++ rs
Steps-in_order {s = s} stays = sym (append-nil (in_order s))
Steps-in_order {s = s} (then_step {rs = rs} {qs = qs} run step) =
    Step-in_order step ∙ ap (λ x. x ++ qs) (Steps-in_order run) ∙ append_assoc (in_order s) rs qs
