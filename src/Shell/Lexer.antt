-- ===== src/Shell/Lexer.antt =====
-- `gettoken` and `peek` on the characters of a list of tokens.
use operating_systems_cs.Prelude.{
  ℕ, ◌≡◌, refl, ap, ◌∙◌, true, false, arith, List, [], ◌∷◌, ◌++◌, has, ◌==◌,
}
use operating_systems_cs.Shell.Monad.{done}
use operating_systems_cs.Shell.Grammar.{
  Tok, sym_tok, gt_tok, gtgt_tok, word_tok, chars, text, AllWord, IsTok, AllTok,
}
use operating_systems_cs.Shell.{
  whitespace, skip_white, in_word, word, after_word, is_single, token_at, gettoken, starts, peek,
}

abbrev pub kind : Tok → ℕ
kind (sym_tok c) = c
kind gt_tok = b'>'
kind gtgt_tok = b'+'
kind (word_tok w) = b'a'

single-white : (c : ℕ) → is_single c ≡ true → has c whitespace ≡ false
single-white c h = ground arith

word-white : (c : ℕ) → in_word c ≡ true → has c whitespace ≡ false
word-white c h = ground arith

word-single : (c : ℕ) → in_word c ≡ true → is_single c ≡ false
word-single c h = ground arith

word-gt : (c : ℕ) → in_word c ≡ true → (c == b'>') ≡ false
word-gt c h = ground arith

single-gt : (c : ℕ) → is_single c ≡ true → (c == b'>') ≡ false
single-gt c h = ground arith

-- No token starts with white space.
skip-chars : (t : Tok) (r : List ℕ) → IsTok t → skip_white (chars t ++ r) ≡ chars t ++ r
unfolding skip_white
skip-chars (sym_tok c) r h = rw (single-white c h) refl
skip-chars gt_tok r h = refl
skip-chars gtgt_tok r h = refl
skip-chars (word_tok []) r (all, ne) = absurd (ne refl)
skip-chars (word_tok (c ∷ cs)) r ((w, all), ne) = rw (word-white c w) refl

pub skip-text : (ts : List Tok) → AllTok ts → skip_white (text ts) ≡ text ts
unfolding skip_white
skip-text [] h = refl
skip-text (t ∷ ts) (h, hs) = skip-chars t (b' ' ∷ text ts) h

word-append : (w r : List ℕ) → AllWord w → word (w ++ (b' ' ∷ r)) ≡ w
unfolding word
word-append [] r h = refl
word-append (c ∷ cs) r (h, hs) = rw (h, word-append cs r hs) refl

after_word-append : (w r : List ℕ) → AllWord w → after_word (w ++ (b' ' ∷ r)) ≡ b' ' ∷ r
unfolding after_word
after_word-append [] r h = refl
after_word-append (c ∷ cs) r (h, hs) = rw (h, after_word-append cs r hs) refl

pub token_at-cons :
    (c : ℕ) (cs : List ℕ)
    → is_single c ≡ false
    → (c == b'>') ≡ false
    → token_at (c ∷ cs) ≡ ((b'a', word (c ∷ cs)), after_word (c ∷ cs))
unfolding token_at
token_at-cons c cs h k = rw (h, k) refl

token_at-word :
    (c : ℕ) (cs r : List ℕ)
    → AllWord (c ∷ cs)
    → token_at (c ∷ (cs ++ (b' ' ∷ r))) ≡ ((b'a', c ∷ cs), b' ' ∷ r)
token_at-word c cs r (w, all) =
    token_at-cons c (cs ++ (b' ' ∷ r)) (word-single c w) (word-gt c w)
    ∙ ap (λ x. ((b'a', x), after_word (c ∷ (cs ++ (b' ' ∷ r))))) (word-append (c ∷ cs) r (w, all))
    ∙ ap (λ x. ((b'a', c ∷ cs), x)) (after_word-append (c ∷ cs) r (w, all))

token_at-chars :
    (t : Tok) (r : List ℕ)
    → IsTok t
    → token_at (chars t ++ (b' ' ∷ r)) ≡ ((kind t, chars t), b' ' ∷ r)
unfolding token_at
token_at-chars (sym_tok c) r h = rw h refl
token_at-chars gt_tok r h = refl
token_at-chars gtgt_tok r h = refl
token_at-chars (word_tok []) r (all, ne) = absurd (ne refl)
token_at-chars (word_tok (c ∷ cs)) r (all, ne) = token_at-word c cs r all

pub gettoken-text :
    (t : Tok) (ts : List Tok)
    → IsTok t
    → AllTok ts
    → gettoken (text (t ∷ ts)) ≡ done (kind t, chars t) (text ts)
unfolding gettoken skip_white
gettoken-text t ts h hs =
    rw (skip-chars t (b' ' ∷ text ts) h, token_at-chars t (text ts) h) (rw (skip-text ts hs) refl)

pub peek-text :
    (toks : List ℕ) (ts : List Tok)
    → AllTok ts
    → peek toks (text ts) ≡ done (starts toks (text ts)) (text ts)
unfolding peek
peek-text toks ts hs = rw (skip-text ts hs) refl
