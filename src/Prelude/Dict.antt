-- ===== src/Prelude/Dict.antt =====
-- Python's dicts as lists of pairs in the order of insertion, with a test for equal keys.
use mathlib.Core.Path.{◌≡◌, refl}
use mathlib.Core.Bool.{Bool, true}
use mathlib.Core.Option.{Option, none, some}
use mathlib.Core.List.{List, [], ◌∷◌, ◌++◌}
use native.Mathlib.Omega.{arith}
use anime_app_backend.Prelude.{if◌then◌else◌}

-- The first of two values that is there.
abbrev pub first_some {ℓ} : {A : Type ℓ} → Option A → Option A → Option A
first_some (some a) o = some a
first_some none o = o

module _ {ℓ κ} {K : Type ℓ} {V : Type κ} (same : K → K → Bool) where
  -- `d.get(k)`, the first pair with the key
  unfoldable pub find : K → List (K × V) → Option V
  find k [] = none
  find k ((a, v) ∷ d) = if same a k then some v else find k d

  -- `d[k] = v`: a key keeps its place.
  unfoldable pub put : K → V → List (K × V) → List (K × V)
  put k v [] = (k, v) ∷ []
  put k v ((a, u) ∷ d) = let rest = put k v d in if same a k then (a, v) ∷ d else (a, u) ∷ rest

  -- `d.setdefault(k, v)`
  unfoldable pub setdefault : K → V → List (K × V) → List (K × V)
  setdefault k v [] = (k, v) ∷ []
  setdefault k v ((a, u) ∷ d) =
      let rest = setdefault k v d in if same a k then (a, u) ∷ d else (a, u) ∷ rest

  -- `d.update(pairs)`
  unfoldable pub put_all : List (K × V) → List (K × V) → List (K × V)
  put_all [] d = d
  put_all ((k, v) ∷ pairs) d = put_all pairs (put k v d)

  -- The last pair with a key.
  unfoldable pub find_last : K → List (K × V) → Option V
  find_last k [] = none
  find_last k ((a, v) ∷ pairs) = first_some (find_last k pairs) (if same a k then some v else none)

  -- No key stands twice.
  abbrev pub IsDistinct : List (K × V) → Type κ
  IsDistinct [] = Unit
  IsDistinct ((k, v) ∷ d) = (find k d ≡ none) × IsDistinct d

  module _ (same_refl : (a : K) → same a a ≡ true)
      (same_eq : (a b : K) → same a b ≡ true → a ≡ b) where
    pub find-put :
        (k j : K) (v : V) (d : List (K × V))
        → find j (put k v d) ≡ (if same k j then some v else find j d)
    unfolding find put
    find-put k j v [] = refl
    find-put k j v ((a, u) ∷ d) =
        ground (arith, find-put k j v d, same_refl k, same_eq a k, same_eq a j, same_eq k j)

    pub find-setdefault :
        (k j : K) (v : V) (d : List (K × V))
        → find j (setdefault k v d) ≡ first_some (find j d) (if same k j then some v else none)
    unfolding find setdefault
    find-setdefault k j v [] = ground arith
    find-setdefault k j v ((a, u) ∷ d) =
        ground (arith, find-setdefault k j v d, same_refl k, same_eq a k, same_eq a j, same_eq k j)

    pub put-IsDistinct : (k : K) (v : V) (d : List (K × V)) → IsDistinct d → IsDistinct (put k v d)
    unfolding put find
    put-IsDistinct k v [] h = ground arith
    put-IsDistinct k v ((a, u) ∷ d) h = ground (
      arith,
      put-IsDistinct k v d h.1,
      find-put k a v d,
      h.0,
      same_refl k,
      same_eq a k,
      same_eq k a,
    )

    pub setdefault-IsDistinct :
        (k : K) (v : V) (d : List (K × V)) → IsDistinct d → IsDistinct (setdefault k v d)
    unfolding setdefault find
    setdefault-IsDistinct k v [] h = ground arith
    setdefault-IsDistinct k v ((a, u) ∷ d) h = ground (
      arith,
      setdefault-IsDistinct k v d h.1,
      find-setdefault k a v d,
      h.0,
      same_refl k,
      same_eq a k,
      same_eq k a,
    )

    -- After an update, a key has its last new value, or the old one if it has no new one.
    pub find-put_all :
        (j : K) (pairs d : List (K × V))
        → find j (put_all pairs d) ≡ first_some (find_last j pairs) (find j d)
    unfolding put_all find_last
    find-put_all j [] d = refl
    find-put_all j ((k, v) ∷ pairs) d =
        ground (arith, find-put_all j pairs (put k v d), find-put k j v d)

    pub put_all-IsDistinct : (pairs d : List (K × V)) → IsDistinct d → IsDistinct (put_all pairs d)
    unfolding put_all
    put_all-IsDistinct [] d h = h
    put_all-IsDistinct ((k, v) ∷ pairs) d h =
        put_all-IsDistinct pairs (put k v d) (put-IsDistinct k v d h)

  pub find_last-append :
      (j : K) (xs ys : List (K × V))
      → find_last j (xs ++ ys) ≡ first_some (find_last j ys) (find_last j xs)
  unfolding find_last
  find_last-append j [] ys = ground arith
  find_last-append j ((k, v) ∷ xs) ys = ground (arith, find_last-append j xs ys)

  pub find-append :
      (j : K) (xs ys : List (K × V)) → find j (xs ++ ys) ≡ first_some (find j xs) (find j ys)
  unfolding find
  find-append j [] ys = refl
  find-append j ((k, v) ∷ xs) ys = ground (arith, find-append j xs ys)
