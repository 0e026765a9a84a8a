-- ===== src/Log/Crash.antt =====
-- Crash safety: whatever write of a commit the machine stops after, recovery yields the disk before
-- the transaction or the disk with all of it.
use operating_systems_cs.Prelude.{
  ℕ, zero, suc, ◌+◌, ◌-◌, ◌≤◌, ◌<◌, ◌≡◌, refl, sym, ap, ◌∙◌, ◌⊎◌, inl, inr, true, false, List, [],
  ◌∷◌, ◌++◌, arith, if◌then◌else◌, Bool-cases, length, length-append, take, take_all, take_of_le,
  take-append, take-nil, append-nil, has, update, update_self, update_ne,
}
use operating_systems_cs.Log.{
  block, header, Disk, header_of, Write, apply_all, write_log, write_head, install_trans,
  commit_writes, recover_from_log,
}

abbrev pub InLog : ℕ → ℕ → ℕ → Type 0
InLog start n a = (start ≤ a) × (a ≤ start + n)

abbrev pub OutLog : ℕ → ℕ → ℕ → Type 0
OutLog start n a = (a < start) ⊎ (start + n < a)

-- No block of the transaction lies in the log region, the header and `n` slots from `start` on.
abbrev pub Outside : ℕ → ℕ → List ℕ → Type 0
Outside start n bs = (a : ℕ) → InLog start n a → has a bs ≡ false

-- The disk with the whole transaction installed.
abbrev pub updated : (ℕ → ℕ) → List ℕ → Disk → Disk
updated cache bs d a = if has a bs then block (cache a) else d a

apply-append :
    (us vs : List Write) (d : Disk) → apply_all (us ++ vs) d ≡ apply_all vs (apply_all us d)
unfolding apply_all
apply-append [] vs d = refl
apply-append (u ∷ us) vs d = apply-append us vs (update d u.at u.what)

module _ (cache : ℕ → ℕ) (start : ℕ) where
  -- Writing a part of the log changes only its slots.
  write_log_frame :
      (tail : ℕ) (bs : List ℕ) (k : ℕ) (d : Disk) (a : ℕ)
      → (a < start + tail + 1) ⊎ (start + tail + length bs < a)
      → apply_all (take k (write_log cache start tail bs)) d a ≡ d a
  unfolding apply_all write_log
  write_log_frame tail bs zero d a h = refl
  write_log_frame tail [] (suc k) d a h = refl
  write_log_frame tail (b ∷ bs) (suc k) d a h =
      write_log_frame (tail + 1) bs k (update d (start + tail + 1) (block (cache b))) a
        (omega arith)
      ∙ update_ne d (start + tail + 1) a (block (cache b)) (omega arith)

  length-write_log : (tail : ℕ) (bs : List ℕ) → length (write_log cache start tail bs) ≡ length bs
  unfolding write_log
  length-write_log tail [] = refl
  length-write_log tail (b ∷ bs) = ap suc (length-write_log (tail + 1) bs)

  -- Each slot from `tail` on holds the cached contents of its block.
  abbrev Slots : Disk → ℕ → List ℕ → Type 0
  Slots d tail [] = Unit {0}
  Slots d tail (b ∷ bs) = (d (start + tail + 1) ≡ block (cache b)) × Slots d (tail + 1) bs

  write_log-Slots :
      (tail : ℕ) (bs : List ℕ) (d : Disk)
      → Slots (apply_all (write_log cache start tail bs) d) tail bs
  unfolding apply_all write_log
  write_log-Slots tail [] d = tt
  write_log-Slots tail (b ∷ bs) d =
      let d' = update d (start + tail + 1) (block (cache b)) in
      let rest = write_log cache start (tail + 1) bs in
      (
        ap (λ ws. apply_all ws d' (start + tail + 1)) (sym (take_all rest))
            ∙ write_log_frame (tail + 1) bs (length rest) d' (start + tail + 1) (omega arith)
            ∙ update_self d (start + tail + 1) (block (cache b)),
        write_log-Slots (tail + 1) bs d',
      )

  Slots-same :
      (n : ℕ) (d e : Disk) (tail : ℕ) (bs : List ℕ)
      → ((a : ℕ) → start < a → a ≤ start + n → e a ≡ d a)
      → tail + length bs ≤ n
      → Slots d tail bs
      → Slots e tail bs
  Slots-same n d e tail [] same h s = tt
  Slots-same n d e tail (b ∷ bs) same h (s, ss) = (
    same (start + tail + 1) (omega arith) (omega arith) ∙ s,
    Slots-same n d e (tail + 1) bs same (omega arith) ss,
  )

  -- The writes of an installation: each block's cached contents to its home.
  homes : List ℕ → List Write
  homes [] = []
  homes (b ∷ bs) = record { at = b; what = block (cache b) } ∷ homes bs

  install-homes :
      (d : Disk) (tail : ℕ) (bs : List ℕ)
      → Slots d tail bs
      → install_trans d start tail bs ≡ homes bs
  unfolding install_trans homes
  install-homes d tail [] s = refl
  install-homes d tail (b ∷ bs) (s, ss) = rw (s, install-homes d (tail + 1) bs ss)

  take-homes : (k : ℕ) (bs : List ℕ) → take k (homes bs) ≡ homes (take k bs)
  unfolding homes
  take-homes zero bs = refl
  take-homes (suc k) [] = refl
  take-homes (suc k) (b ∷ bs) = rw (take-homes k bs)

  apply-homes : (bs : List ℕ) (d : Disk) (a : ℕ) → apply_all (homes bs) d a ≡ updated cache bs d a
  unfolding apply_all homes
  apply-homes [] d a = refl
  apply-homes (b ∷ bs) d a = apply-homes bs (update d b (block (cache b))) a ∙ ground arith

has-take : (k a : ℕ) (bs : List ℕ) → has a bs ≡ false → has a (take k bs) ≡ false
has-take zero a bs h = refl
has-take (suc k) a [] h = refl
has-take (suc k) a (b ∷ bs) h = ground (arith, has-take k a bs)

updated_twice :
    (cache : ℕ → ℕ) (k : ℕ) (bs : List ℕ) (d : Disk) (a : ℕ)
    → updated cache bs (updated cache (take k bs) d) a ≡ updated cache bs d a
updated_twice cache k bs d a = elim (Bool-cases (has a bs)) [
  | inl e ↦ rw e
  | inr e ↦ rw (e, has-take k a bs e)
]

header_lem : (bs : List ℕ) → header_of (header bs) ≡ bs
unfolding header_of
header_lem bs = refl

write_head-erases :
    (start : ℕ) (d : Disk) → apply_all (write_head start [] ∷ []) d ≡ update d start (header [])
unfolding apply_all write_head
write_head-erases start d = refl

module _ (cache : ℕ → ℕ) (start n : ℕ) where
  -- A disk whose header is empty is recovered as it is.
  recover_clean :
      (e : Disk)
      → header_of (e start) ≡ []
      → (a : ℕ) → OutLog start n a
      → recover_from_log start e a ≡ e a
  unfolding recover_from_log apply_all write_head install_trans
  recover_clean e clean a out = rw clean (update_ne e start a (header []) (omega arith))

  -- A disk whose header names the blocks and whose slots hold them is recovered to the whole
  -- transaction, however many of the homes it has already.
  recover_committed :
      (e : Disk) (bs : List ℕ)
      → header_of (e start) ≡ bs
      → Slots cache start e 0 bs
      → (a : ℕ) → OutLog start n a
      → recover_from_log start e a ≡ updated cache bs e a
  unfolding recover_from_log write_head apply_all
  recover_committed e bs head slots a out =
      let home = homes cache start bs in
      rw (head, install-homes cache start e 0 bs slots)
        (ap (λ f. f a) (apply-append home (write_head start [] ∷ []) e)
          ∙ update_ne (apply_all home e) start a (header []) (omega arith)
          ∙ apply-homes cache start bs e a)

  -- The disk once the header is written and `j` homes are installed.
  installed : Disk → List ℕ → ℕ → Disk
  installed d bs j =
      apply_all (take j (homes cache start bs))
        (update (apply_all (write_log cache start 0 bs) d) start (header bs))

  installed_get :
      (d : Disk) (bs : List ℕ) (j a : ℕ)
      → installed d bs j a
        ≡ updated cache
            (take j bs)
            (update (apply_all (write_log cache start 0 bs) d) start (header bs))
            a
  unfolding installed
  installed_get d bs j a =
      rw (take-homes cache start j bs) (apply-homes cache start (take j bs) _ a)

  logged_frame :
      (d : Disk) (bs : List ℕ) (a : ℕ)
      → length bs ≤ n
      → OutLog start n a
      → apply_all (write_log cache start 0 bs) d a ≡ d a
  logged_frame d bs a short out =
      ap (λ ws. apply_all ws d a) (sym (take_all (write_log cache start 0 bs)))
      ∙ write_log_frame cache start 0 bs (length (write_log cache start 0 bs)) d a (omega arith)

  recover_installed :
      (d : Disk) (bs : List ℕ) (j : ℕ)
      → length bs ≤ n
      → Outside start n bs
      → (a : ℕ) → OutLog start n a
      → recover_from_log start (installed d bs j) a ≡ updated cache bs d a
  recover_installed d bs j short apart a out =
      recover_committed (installed d bs j) bs head slots a out ∙ final (Bool-cases (has a bs))
    where
      logged : Disk
      logged = apply_all (write_log cache start 0 bs) d

      kept :
          (c : ℕ)
          → has c (take j bs) ≡ false
          → installed d bs j c ≡ update logged start (header bs) c
      kept c e = installed_get d bs j c ∙ rw e

      in_log : (c : ℕ) → InLog start n c → installed d bs j c ≡ update logged start (header bs) c
      in_log c i = kept c (has-take j c bs (apart c i))

      head : header_of (installed d bs j start) ≡ bs
      head =
          ap header_of (in_log start (omega arith) ∙ update_self logged start (header bs))
          ∙ header_lem bs

      slots : Slots cache start (installed d bs j) 0 bs
      slots =
          Slots-same cache start n logged (installed d bs j) 0 bs
            (λ c lo hi. in_log c (omega arith) ∙ update_ne logged start c (header bs) (omega arith))
            (omega arith) (write_log-Slots cache start 0 bs d)

      final :
          (has a bs ≡ true) ⊎ (has a bs ≡ false)
          → updated cache bs (installed d bs j) a ≡ updated cache bs d a
      final (inl e) = rw e
      final (inr e) = rw e (
          kept a (has-take j a bs e)
          ∙ update_ne logged start a (header bs) (omega arith)
          ∙ logged_frame d bs a short out)

  -- The writes of a commit, with the homes in place of the slots that are copied there.
  writes : List ℕ → List Write
  writes bs =
      write_log cache start 0 bs
      ++ (write_head start bs ∷ (homes cache start bs ++ (write_head start [] ∷ [])))

  commit-writes :
      (d : Disk) (b : ℕ) (bs : List ℕ) → commit_writes cache d start (b ∷ bs) ≡ writes (b ∷ bs)
  unfolding commit_writes writes
  commit-writes d b bs =
      ap
        (λ ws.
          write_log cache start 0 (b ∷ bs)
          ++ (write_head start (b ∷ bs) ∷ (ws ++ (write_head start [] ∷ []))))
        (install-homes cache start (apply_all (write_log cache start 0 (b ∷ bs)) d) 0 (b ∷ bs)
          (write_log-Slots cache start 0 (b ∷ bs) d))

  -- The disk after `k` writes: the log in part, the header and some homes, or all of it.
  crash_early :
      (d : Disk) (bs : List ℕ) (k : ℕ)
      → k - length (write_log cache start 0 bs) ≡ 0
      → apply_all (take k (writes bs)) d ≡ apply_all (take k (write_log cache start 0 bs)) d
  unfolding writes
  crash_early d bs k e = rw (
    take-append k (write_log cache start 0 bs),
    e,
    append-nil (take k (write_log cache start 0 bs)),
  )

  late_tail : List ℕ → ℕ → List Write
  late_tail bs j = take j (homes cache start bs ++ (write_head start [] ∷ []))

  crash_late :
      (d : Disk) (bs : List ℕ) (k j : ℕ)
      → k - length (write_log cache start 0 bs) ≡ suc j
      → apply_all (take k (writes bs)) d
        ≡ apply_all
            (late_tail bs j)
            (update (apply_all (write_log cache start 0 bs) d) start (header bs))
  unfolding writes late_tail apply_all write_head
  crash_late d bs k j e =
      let full = take_of_le k (write_log cache start 0 bs) (omega arith) in
      rw (take-append k (write_log cache start 0 bs), e, full)
        (ap (λ f. f) (apply-append (write_log cache start 0 bs) _ d))

  recover_early :
      (d : Disk) (bs : List ℕ) (k : ℕ)
      → header_of (d start) ≡ []
      → length bs ≤ n
      → (a : ℕ) → OutLog start n a
      → recover_from_log start (apply_all (take k (write_log cache start 0 bs)) d) a ≡ d a
  recover_early d bs k clean short a out =
      recover_clean (apply_all (take k (write_log cache start 0 bs)) d)
        (ap header_of (write_log_frame cache start 0 bs k d start (omega arith)) ∙ clean) a out
      ∙ write_log_frame cache start 0 bs k d a (omega arith)

  -- All the writes are done: the homes are installed and the header is empty.
  recover_done :
      (d : Disk) (bs : List ℕ)
      → length bs ≤ n
      → (a : ℕ) → OutLog start n a
      → recover_from_log start
          (apply_all
            (homes cache start bs ++ (write_head start [] ∷ []))
            (update (apply_all (write_log cache start 0 bs) d) start (header bs)))
          a
        ≡ updated cache bs d a
  recover_done d bs short a out =
      ap (λ g. recover_from_log start g a) (apply-append (homes cache start bs) _ _ ∙ erased)
      ∙ recover_clean (update installed_all start (header []))
          (ap header_of (update_self installed_all start (header [])) ∙ header_lem []) a out
      ∙ update_ne installed_all start a (header []) (omega arith)
      ∙ apply-homes cache start bs _ a
      ∙ ap (λ s. if has a bs then block (cache a) else s)
          (update_ne logged start a (header bs) (omega arith) ∙ logged_frame d bs a short out)
    where
      logged : Disk
      logged = apply_all (write_log cache start 0 bs) d

      installed_all : Disk
      installed_all = apply_all (homes cache start bs) (update logged start (header bs))

      erased :
          apply_all (write_head start [] ∷ []) installed_all
          ≡ update installed_all start (header [])
      erased = write_head-erases start installed_all

  recover_late :
      (d : Disk) (bs : List ℕ) (j m : ℕ)
      → j - length (homes cache start bs) ≡ m
      → length bs ≤ n
      → Outside start n bs
      → (a : ℕ) → OutLog start n a
      → recover_from_log start
          (apply_all
            (late_tail bs j)
            (update (apply_all (write_log cache start 0 bs) d) start (header bs)))
          a
        ≡ updated cache bs d a
  unfolding late_tail installed
  recover_late d bs j zero e short apart a out =
      rw (take-append j (homes cache start bs), e, append-nil (take j (homes cache start bs)))
        (recover_installed d bs j short apart a out)
  recover_late d bs j (suc m) e short apart a out =
      let full =
        take_of_le j (homes cache start bs ++ (write_head start [] ∷ []))
          (omega (arith, length-append (homes cache start bs) (write_head start [] ∷ []))) in
      rw full (recover_done d bs short a out)

-- Take a disk whose log header is empty, and commit a transaction of the blocks `bs`, which fit in the
-- `n` slots of the log and lie outside the log region. Stop after any number `k` of the commit's
-- disk writes and run recovery: outside the log region the disk is as before the commit, or every
-- block of `bs` has its new contents and no other block has changed.
pub commit_atomic :
    (cache : ℕ → ℕ) (start n : ℕ) (d : Disk) (bs : List ℕ) (k : ℕ)
    → header_of (d start) ≡ []
    → length bs ≤ n
    → Outside start n bs
    → let r = recover_from_log start (apply_all (take k (commit_writes cache d start bs)) d) in
      ((a : ℕ) → OutLog start n a → r a ≡ d a)
      ⊎ ((a : ℕ) → OutLog start n a → r a ≡ updated cache bs d a)
unfolding commit_writes
commit_atomic cache start n d [] k clean short apart =
    inl (λ a out. rw (take-nil k) (recover_clean cache start n d clean a out))
commit_atomic cache start n d (b ∷ bs) k clean short apart =
    rw (commit-writes cache start n d b bs)
      (cases (k - length (write_log cache start 0 (b ∷ bs))) refl)
  where
    after : Disk
    after = recover_from_log start (apply_all (take k (writes cache start n (b ∷ bs))) d)

    cases :
        (m : ℕ)
        → k - length (write_log cache start 0 (b ∷ bs)) ≡ m
        → ((a : ℕ) → OutLog start n a → after a ≡ d a)
          ⊎ ((a : ℕ) → OutLog start n a → after a ≡ updated cache (b ∷ bs) d a)
    cases zero e = inl (λ a out.
        ap (λ g. recover_from_log start g a) (crash_early cache start n d (b ∷ bs) k e)
        ∙ recover_early cache start n d (b ∷ bs) k clean short a out)
    cases (suc j) e = inr (λ a out.
        ap (λ g. recover_from_log start g a) (crash_late cache start n d (b ∷ bs) k j e)
        ∙ recover_late cache start n d (b ∷ bs) j (j - length (homes cache start (b ∷ bs))) refl
            short apart a out)
