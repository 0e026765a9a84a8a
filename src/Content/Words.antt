-- ===== src/Content/Words.antt =====
-- A word that is stored in a block is read back, and the other words stay.
use operating_systems_cs.Prelude.{ℕ, ◌^◌, ◌<◌, ◌≡◌, ◌≢◌, refl, arith}
use operating_systems_cs.Content.{word_at, set_word}

pub word_at-set_word : (f : ℕ → ℕ) (i w : ℕ) → w < 2 ^ 32 → word_at (set_word f i w) i ≡ w
unfolding word_at set_word
word_at-set_word f i w h = ground arith

pub word_at-set_word_ne : (f : ℕ → ℕ) (i j w : ℕ) → i ≢ j → word_at (set_word f i w) j ≡ word_at f j
unfolding word_at set_word
word_at-set_word_ne f i j w h = ground arith

pub word_at_zero : (i : ℕ) → word_at (λ _. 0) i ≡ 0
unfolding word_at
word_at_zero i = refl
