-- ===== src/Exec/Post.antt =====
-- Postconditions of actions: `Q` of a returned value and the state, `X` of an exception and it.
use anime_app_backend.Exec.{Result, Exec, ok, err, recover, continue}

module _ {E S A : Type 0} where
  abbrev pub Post : (A → S → Type 0) → (E → S → Type 0) → Result E A × S → Type 0
  Post Q X (ok a, s) = Q a s
  Post Q X (err e, s) = X e s

  -- A weaker postcondition.
  pub Post-mono :
      (Q Q' : A → S → Type 0) (X X' : E → S → Type 0) (end : Result E A × S)
      → Post Q X end
      → ((a : A) (s : S) → Q a s → Q' a s)
      → ((e : E) (s : S) → X e s → X' e s)
      → Post Q' X' end
  Post-mono Q Q' X X' (ok a, s) p q x = q a s p
  Post-mono Q Q' X X' (err e, s) p q x = x e s p

  -- `try`: the handler meets the postcondition from what the body's exceptions leave.
  pub recover-Post :
      (Q : A → S → Type 0) (X X' : E → S → Type 0) (end : Result E A × S) (handler : E → Exec E S A)
      → Post Q X end
      → ((e : E) (s : S) → X e s → Post Q X' (handler e s))
      → Post Q X' (recover end handler)
  recover-Post Q X X' (ok a, s) handler p k = p
  recover-Post Q X X' (err e, s) handler p k = k e s p

  -- Whatever an action does.
  pub any-Post : (end : Result E A × S) → Post (λ _ _. Unit {0}) (λ _ _. Unit {0}) end
  any-Post (ok a, s) = tt
  any-Post (err e, s) = tt

module _ {E S A B : Type 0} where
  -- Sequence: the rest meets the postcondition from what the first part returns.
  pub continue-Post :
      (Q : A → S → Type 0) (R : B → S → Type 0) (X : E → S → Type 0) (end : Result E A × S)
      (rest : A → Exec E S B)
      → Post Q X end
      → ((a : A) (s : S) → Q a s → Post R X (rest a s))
      → Post R X (continue end rest)
  continue-Post Q R X (ok a, s) rest p k = k a s p
  continue-Post Q R X (err e, s) rest p k = p
