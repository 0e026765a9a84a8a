-- ===== src/Pipe/Ring.antt =====
-- A pipe as the queue of the bytes between its two counters, also where the counters wrap.
use mathlib.Core.Path.{ap₂}
use operating_systems_cs.Prelude.{
  ℕ, zero, suc, ◌+◌, ◌-◌, ◌%◌, ◌^◌, ◌≤◌, ◌<◌, ◌≡◌, refl, ap, ◌≢◌, false, List, [], ◌∷◌, ◌++◌, arith,
  ◌==◌, length, update, update_self, update_ne,
}
use operating_systems_cs.Pipe.{Pipe, pipesize, is_full, is_empty, put, advance, head_byte}

-- The number of bytes stored, `nwrite - nread` in 32 bits.
abbrev pub count : Pipe → ℕ
count p = (p.nwrite + 2 ^ 32 - p.nread) % 2 ^ 32

pub record IsValid (p : Pipe) : Type 0 where
  pub nread_lt : p.nread < 2 ^ 32
  pub nwrite_lt : p.nwrite < 2 ^ 32
  pub fits : count p ≤ pipesize

-- The `n` bytes from counter `r` on.
abbrev pub window : (ℕ → ℕ) → ℕ → ℕ → List ℕ
window bytes r zero = []
window bytes r (suc n) = bytes (r % pipesize) ∷ window bytes ((r + 1) % 2 ^ 32) n

abbrev pub contents : Pipe → List ℕ
contents p = window p.bytes p.nread (count p)

length-window : (bytes : ℕ → ℕ) (r n : ℕ) → length (window bytes r n) ≡ n
length-window bytes r zero = refl
length-window bytes r (suc n) = ap suc (length-window bytes ((r + 1) % 2 ^ 32) n)

pub length-contents : (p : Pipe) → length (contents p) ≡ count p
length-contents p = length-window p.bytes p.nread (count p)

pub is_full_iff : (p : Pipe) → IsValid p → is_full p ≡ (count p == pipesize)
unfolding is_full
is_full_iff p v = ground arith

pub is_empty_iff : (p : Pipe) → IsValid p → is_empty p ≡ (count p == 0)
unfolding is_empty
is_empty_iff p v = ground arith

pub put-IsValid : (p : Pipe) (x : ℕ) → IsValid p → is_full p ≡ false → IsValid (put p x)
unfolding put is_full
put-IsValid p x v room = ground arith

pub count-put : (p : Pipe) (x : ℕ) → IsValid p → is_full p ≡ false → count (put p x) ≡ count p + 1
unfolding put is_full
count-put p x v room = ground arith

count_lt : (p : Pipe) → IsValid p → is_full p ≡ false → count p < pipesize
unfolding is_full
count_lt p v room = ground arith

count-put-suc :
    (p : Pipe) (x : ℕ)
    → IsValid p
    → is_full p ≡ false
    → ((p.nwrite + 1) % 2 ^ 32 + 2 ^ 32 - p.nread) % 2 ^ 32 ≡ suc (count p)
count-put-suc p x v room = omega (arith, count_lt p v room)

pub advance-IsValid : (p : Pipe) → IsValid p → is_empty p ≡ false → IsValid (advance p)
unfolding advance is_empty
advance-IsValid p v some_left = ground arith

pub count-advance : (p : Pipe) → IsValid p → is_empty p ≡ false → count p ≡ suc (count (advance p))
unfolding advance is_empty
count-advance p v some_left = ground arith

-- A write at the counter just past the window appends to it: the two indices differ from those of
-- the window because the window is shorter than the ring.
window-update :
    (bytes : ℕ → ℕ) (r w n x : ℕ)
    → r < 2 ^ 32
    → w ≡ (r + n) % 2 ^ 32
    → n < pipesize
    → window (update bytes (w % pipesize) x) r (suc n) ≡ window bytes r n ++ (x ∷ [])
window-update bytes r w zero x hr hw hn =
    let e : w % pipesize ≡ r % pipesize = omega arith in rw (e, update_self bytes (r % pipesize) x)
window-update bytes r w (suc n) x hr hw hn =
    let apart : w % pipesize ≢ r % pipesize = omega arith in
    ap₂ ◌∷◌ (update_ne bytes (w % pipesize) (r % pipesize) x apart)
      (window-update bytes ((r + 1) % 2 ^ 32) w n x (omega arith) (omega arith) (omega arith))

pub contents-put :
    (p : Pipe) (x : ℕ) → IsValid p → is_full p ≡ false → contents (put p x) ≡ contents p ++ (x ∷ [])
unfolding put
contents-put p x v room = rw (count-put-suc p x v room) (
    window-update p.bytes p.nread p.nwrite (count p) x v.nread_lt (omega arith) (count_lt p v room))

pub contents-advance :
    (p : Pipe) → IsValid p → is_empty p ≡ false → contents p ≡ head_byte p ∷ contents (advance p)
unfolding advance head_byte
contents-advance p v some_left = rw (count-advance p v some_left)
