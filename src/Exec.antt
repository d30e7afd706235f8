-- ===== src/Exec.antt =====
-- Python methods as actions: they read and write a state, and return a value or raise. What was
-- written before a raise stays written, so the state comes back beside the exception too.
pub mod Post
use anime_app_backend.Prelude.{Bool, if◌then◌else◌}

pub data Result {ℓ} (E A : Type ℓ) : Type ℓ where
  ok : A → Result E A
  err : E → Result E A

abbrev pub Exec {ℓ} : Type ℓ → Type ℓ → Type ℓ → Type ℓ
Exec E S A = S → Result E A × S

module _ {ℓ} {E S A : Type ℓ} where
  abbrev pub pure : A → Exec E S A
  pure a s = (ok a, s)

  abbrev pub raise : E → Exec E S A
  raise e s = (err e, s)

  abbrev pub gets : (S → A) → Exec E S A
  gets f s = (ok (f s), s)

  -- `try: m` with `except` clauses that are chosen by `handler`.
  abbrev pub recover : Result E A × S → (E → Exec E S A) → Result E A × S
  recover (ok a, s) handler = (ok a, s)
  recover (err e, s) handler = handler e s

  abbrev pub try_except : Exec E S A → (E → Exec E S A) → Exec E S A
  try_except m handler s = recover (m s) handler

abbrev pub modify {ℓ} : {E S : Type ℓ} → (S → S) → Exec E S (Unit {ℓ})
modify f s = (ok tt, f s)

module _ {ℓ} {E S A B : Type ℓ} where
  abbrev pub continue : Result E A × S → (A → Exec E S B) → Result E B × S
  continue (ok a, s) f = f a s
  continue (err e, s) f = (err e, s)

  infixl 10 ◌>>=◌ ◌>>◌
  abbrev pub ◌>>=◌ : Exec E S A → (A → Exec E S B) → Exec E S B
  ◌>>=◌ m f s = continue (m s) f

  abbrev pub ◌>>◌ : Exec E S A → Exec E S B → Exec E S B
  ◌>>◌ m n s = continue (m s) (λ _. n)

-- `if test: raise e`
abbrev pub raise_if {ℓ} : {E S : Type ℓ} → Bool → E → Exec E S (Unit {ℓ})
raise_if b e s = (if b then err e else ok tt, s)

-- The state that a call leaves, and what it returned or raised.
abbrev pub state_after {ℓ} : {E S A : Type ℓ} → Exec E S A → S → S
state_after m s = (m s).1

abbrev pub result_of {ℓ} : {E S A : Type ℓ} → Exec E S A → S → Result E A
result_of m s = (m s).0
