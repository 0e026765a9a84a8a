-- ===== src/Sort/Link.antt =====
-- The four cases of linking the new node.
use mathlib.Core.Path.{subst}
use operating_systems_cs.Prelude.{
  ℕ, ◌≡◌, refl, sym, ap, ◌∙◌, true, false, arith, List, [], ◌∷◌, ◌++◌, append_assoc, append-nil,
  ◌==◌, Option, none, some, update_self, update_ne,
}
use operating_systems_cs.Sort.{Nodes, create_node, set_next, set_prev, link}
use operating_systems_cs.Sort.Between.{left_piece, Linked, created, Between-Linked}
use operating_systems_cs.Sort.Half.{
  half_linked, half_other, half_new, half_after, half-Agree, half-word, set_next-word,
}
use operating_systems_cs.Sort.Segments.{
  first, last, Seg, Apart, Distinct, last-append, Seg-split, Agree-Seg, Agree-refl, Agree-update,
  Apart-split, Distinct-middle,
}

link_only : (n : Nodes) (s : List ℕ) (t : ℕ) → Linked n s t [] [] (link t none (created n s t []))
unfolding link
link_only n s t =
    Between-Linked (create_node t s n) n s t [] [] _
      (record {
        fresh = tt;
        left = tt;
        back = ground arith;
        forth = ground arith;
        right = tt;
        word = ground arith;
        others = λ y d. ground arith;
      })
      refl

link_front :
    (n : Nodes) (s : List ℕ) (t c : ℕ) (cs : List ℕ)
    → Seg n none (c ∷ cs) none
    → Apart t (c ∷ cs)
    → Distinct (c ∷ cs)
    → Linked n s t [] (c ∷ cs) (link t (some c) (created n s t (c ∷ cs)))
unfolding link
link_front n s t c cs (p, q, r) (ne, a) (o, d) =
    let m = set_prev c (some t) (set_next t (some c) (create_node t s n)) in
    let agree =
      Agree-update _ n c _ cs o
        (Agree-update _ n t _ cs a (Agree-update _ n t _ cs a (Agree-refl n cs))) in
    let same : (c == c) ≡ true = ground arith in
    Between-Linked m n s t [] (c ∷ cs) _
      (record {
        fresh = (ne, a);
        left = tt;
        back = ground arith;
        forth = ground arith;
        right = (ground arith, ground arith, Agree-Seg m n (some c) cs none agree r);
        word = ground arith;
        others = λ y d. ground arith;
      })
      (rw same refl)

abbrev head_of : List ℕ → ℕ → ℕ
head_of [] p = p
head_of (w ∷ ws) p = w

first-head_of :
    (ws : List ℕ) (p : ℕ) (vs : List ℕ) (a : Option ℕ)
    → first ((ws ++ (p ∷ [])) ++ vs) a ≡ some (head_of ws p)
first-head_of [] p vs a = refl
first-head_of (w ∷ ws) p vs a = refl

last_node : (ws : List ℕ) (p : ℕ) → last none (ws ++ (p ∷ [])) ≡ some p
last_node ws p = last-append none ws (p ∷ [])

link_back :
    (n : Nodes) (s : List ℕ) (t p : ℕ) (ws : List ℕ)
    → Seg n none ((ws ++ (p ∷ [])) ++ []) none
    → Apart t ((ws ++ (p ∷ [])) ++ [])
    → Distinct (ws ++ (p ∷ []))
    → Linked n s t (ws ++ (p ∷ [])) [] (link t none (created n s t ((ws ++ (p ∷ [])) ++ [])))
unfolding link
link_back n s t p ws seg a d =
    let us = ws ++ (p ∷ []) in
    let m = set_next p (some t) (set_prev t (some p) (create_node t s n)) in
    let (au, av) = Apart-split t us [] a in
    let (aw, (ne, u)) = Apart-split t ws (p ∷ []) au in
    let (pw, v) = Distinct-middle p ws [] d in
    let (segu, w) = Seg-split n none us [] none seg in
    let agree =
      Agree-update _ n p _ ws pw
        (Agree-update _ n t _ ws aw (Agree-update _ n t _ ws aw (Agree-refl n ws))) in
    let tail : last none (us ++ []) ≡ some p = ap (last none) (append-nil us) ∙ last_node ws p in
    let before : (m t).prev ≡ some p = ground arith in
    Between-Linked m n s t us [] _
      (record {
        fresh = a;
        left = left_piece m n t p ws none segu agree (ground arith) (ground arith);
        back = before ∙ sym (last_node ws p);
        forth = ground arith;
        right = tt;
        word = ground arith;
        others = λ y d. ground arith;
      })
      (rw
        (
          first-head_of ws p [] none,
          first-head_of ws p (t ∷ []) none,
          tail,
          last-append none us (t ∷ []),
        )
        refl)

head_apart : (ws : List ℕ) (p c : ℕ) → Apart c (ws ++ (p ∷ [])) → (c == head_of ws p) ≡ false
head_apart [] p c (ne, u) = ground arith
head_apart (w ∷ ws) p c (ne, u) = ground arith

distinct_before :
    (ws : List ℕ) (p c : ℕ) (cs : List ℕ)
    → Distinct ((ws ++ (p ∷ [])) ++ (c ∷ cs))
    → Apart p ws × Apart p (c ∷ cs)
distinct_before ws p c cs d =
    Distinct-middle p ws (c ∷ cs) (subst Distinct (append_assoc ws (p ∷ []) (c ∷ cs)) d)

link_middle :
    (n : Nodes) (s : List ℕ) (t p c : ℕ) (ws cs : List ℕ)
    → Seg n none ((ws ++ (p ∷ [])) ++ (c ∷ cs)) none
    → Apart t ((ws ++ (p ∷ [])) ++ (c ∷ cs))
    → Distinct ((ws ++ (p ∷ [])) ++ (c ∷ cs))
    → Linked n s t
        (ws ++ (p ∷ []))
        (c ∷ cs)
        (link t (some c) (created n s t ((ws ++ (p ∷ [])) ++ (c ∷ cs))))
unfolding link
link_middle n s t p c ws cs seg a d =
    let us = ws ++ (p ∷ []) in
    let half = half_linked s t c n in
    let m = set_next p (some t) half in
    let (au, (tc, ac)) = Apart-split t us (c ∷ cs) a in
    let (aw, (tp, u)) = Apart-split t ws (p ∷ []) au in
    let (cu, cc') = Distinct-middle c us cs d in
    let (cw, (cp, v)) = Apart-split c ws (p ∷ []) cu in
    let (pw, (pc, pcs)) = distinct_before ws p c cs d in
    let (segu, (cprev, cnext, rest)) = Seg-split n none us (c ∷ cs) none seg in
    let old : (n c).prev ≡ some p = cprev ∙ last_node ws p in
    let front = Agree-update half n p _ ws pw (half-Agree s t c n ws aw cw) in
    let behind = Agree-update half n p _ cs pcs (half-Agree s t c n cs ac cc') in
    let at_p = update_self half p (record (half p) { next = some t }) in
    let at_t =
      update_ne half p t (record (half p) { next = some t }) (λ e. tp (sym e))
      ∙ half_new s t c n tc in
    let at_c = update_ne half p c (record (half p) { next = some t }) pc ∙ half_after s t c n tc in
    let same_p = ap (λ x. x.prev) (half_other s t c p n tp cp) in
    let ends = head_apart ws p c cu in
    let prev_t : (half t).prev ≡ some p = ap (λ x. x.prev) (half_new s t c n tc) ∙ old in
    Between-Linked m n s t us (c ∷ cs) _
      (record {
        fresh = a;
        left =
            left_piece m n t p ws (some c) segu front (ap (λ x. x.prev) at_p ∙ same_p)
              (ap (λ x. x.next) at_p);
        back = ap (λ x. x.prev) at_t ∙ cprev;
        forth = ap (λ x. x.next) at_t;
        right = (
          ap (λ x. x.prev) at_c,
          ap (λ x. x.next) at_c ∙ cnext,
          Agree-Seg m n (some c) cs none behind rest,
        );
        word = ap (λ x. x.word) at_t;
        others = λ y ty. set_next-word half p y (some t) ∙ half-word s t c y n tc ty;
      })
      (rw
        (
          first-head_of ws p (c ∷ cs) none,
          first-head_of ws p (t ∷ (c ∷ cs)) none,
          ends,
          prev_t,
          last-append none us (c ∷ cs),
          last-append none us (t ∷ (c ∷ cs)),
        )
        refl)

-- A list is empty or has a last address.
data Ending : List ℕ → Type 0 where
  no_end : Ending []
  ending : (ws : List ℕ) (p : ℕ) → Ending (ws ++ (p ∷ []))

cons-Ending : (x : ℕ) (xs : List ℕ) → Ending xs → Ending (x ∷ xs)
cons-Ending x xs no_end = ending [] x
cons-Ending x xs (ending ws p) = ending (x ∷ ws) p

has_end : (xs : List ℕ) → Ending xs
has_end [] = no_end
has_end (x ∷ xs) = cons-Ending x xs (has_end xs)

link_at :
    (n : Nodes) (s : List ℕ) (t : ℕ) (us vs : List ℕ)
    → Ending us
    → Seg n none (us ++ vs) none
    → Apart t (us ++ vs)
    → Distinct (us ++ vs)
    → Linked n s t us vs (link t (first vs none) (created n s t (us ++ vs)))
link_at n s t us [] no_end seg a d = link_only n s t
link_at n s t us (c ∷ cs) no_end seg a d = link_front n s t c cs seg a d
link_at n s t us [] (ending ws p) seg a d =
    link_back n s t p ws seg a (subst Distinct (append-nil (ws ++ (p ∷ []))) d)
link_at n s t us (c ∷ cs) (ending ws p) seg a d = link_middle n s t p c ws cs seg a d

-- The new node is linked between `us` and `vs`.
pub link-Linked :
    (n : Nodes) (s : List ℕ) (t : ℕ) (us vs : List ℕ)
    → Seg n none (us ++ vs) none
    → Apart t (us ++ vs)
    → Distinct (us ++ vs)
    → Linked n s t us vs (link t (first vs none) (created n s t (us ++ vs)))
link-Linked n s t us vs = link_at n s t us vs (has_end us)
