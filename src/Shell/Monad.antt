-- ===== src/Shell/Monad.antt =====
-- A parser takes what is left of the line, and ends with a result and the rest, or with a panic.
use operating_systems_cs.Prelude.{ℕ, List}

-- The messages of `panic`.
pub data Panic : Type 0 where
  missing_file : Panic
  parseblock_panic : Panic
  missing_paren : Panic
  syntax_error : Panic
  too_many_args : Panic
  leftovers : Panic

pub data Parsed (A : Type 0) : Type 0 where
  out_of_fuel : Parsed A
  panics : Panic → Parsed A
  done : A → List ℕ → Parsed A

abbrev pub M : Type 0 → Type 0
M A = List ℕ → Parsed A

infixl 5 ◌>>=◌ ◌>>◌
abbrev pub ◌>>=◌ : {A B : Type 0} → M A → (A → M B) → M B
◌>>=◌ m f s = elim (m s) [ out_of_fuel ↦ out_of_fuel | panics p ↦ panics p | done a r ↦ f a r ]

abbrev pub ◌>>◌ : {A B : Type 0} → M A → M B → M B
m >> k = m >>= λ _. k

abbrev pub return : {A : Type 0} → A → M A
return a s = done a s

abbrev pub panic : {A : Type 0} → Panic → M A
panic p s = panics p

abbrev pub no_fuel : {A : Type 0} → M A
no_fuel s = out_of_fuel
