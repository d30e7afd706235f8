-- ===== src/Ingestion/Tasks/Claim.antt =====
-- `claim_next` against its contract: the claimable task that comes first, if there is one.
use anime_app_backend.Prelude.{
  ℕ, ◌≤◌, ◌<◌, ◌≡◌, refl, sym, ap, ◌⊎◌, inl, inr, Bool, true, false, Option, none, some, List, [],
  ◌∷◌, arith, if◌then◌else◌, subst,
}
use anime_app_backend.Prelude.Lists.{any_of, All}
use anime_app_backend.Ingestion.Enums.{
  Key, same_key, key_ltb, eq_of_same_key, same_key_refl, rank, pending, failed,
}
use anime_app_backend.Ingestion.Tasks.{Task, has_key, is_claimable, is_due, earlier, claim_next}
use anime_app_backend.Ingestion.Tasks.Sound.{IsSound, IsTable, Unique, IsCurrent, IsClaimed}

abbrev pub Among : Task → List Task → Type 0
Among t [] = ⊥
Among t (u ∷ ts) = (t ≡ u) ⊎ Among t ts

key_ltb_trans : (a b c : Key) → key_ltb b a ≡ false → key_ltb c b ≡ false → key_ltb c a ≡ false
unfolding key_ltb
key_ltb_trans a b c h k = ground arith

key_ltb_asym : (a b : Key) → key_ltb a b ≡ true → key_ltb b a ≡ false
unfolding key_ltb
key_ltb_asym a b h = ground arith

key_ltb_refl : (a : Key) → key_ltb a a ≡ false
unfolding key_ltb
key_ltb_refl a = ground arith

module _ (locked : Key → Bool) (now : ℕ) where
  -- No claimable row comes before `t`.
  abbrev pub IsLeast : Task → List Task → Type 0
  IsLeast t = All (λ u. is_claimable locked now u ≡ true → key_ltb u.key t.key ≡ false)

  IsLeast-mono :
      (t u : Task) (ts : List Task) → key_ltb u.key t.key ≡ false → IsLeast u ts → IsLeast t ts
  IsLeast-mono t u [] le h = tt
  IsLeast-mono t u (x ∷ ts) le h =
      (λ c. key_ltb_trans t.key u.key x.key le (h.0 c), IsLeast-mono t u ts le h.1)

  None-IsLeast :
      (t : Task) (ts : List Task) → All (λ u. is_claimable locked now u ≡ false) ts → IsLeast t ts
  None-IsLeast t [] h = tt
  None-IsLeast t (u ∷ ts) h = (λ c. cc (h.0), None-IsLeast t ts h.1)

  -- What the search returns: nothing, if no row is claimable, or the first of those that are.
  abbrev pub Best : List Task → Option Task → Type 0
  Best ts none = All (λ u. is_claimable locked now u ≡ false) ts
  Best ts (some t) = Among t ts × (is_claimable locked now t ≡ true) × IsLeast t ts

  earlier-Best :
      (t u : Task) (ts : List Task) (b : Bool)
      → key_ltb u.key t.key ≡ b
      → is_claimable locked now t ≡ true
      → Best ts (some u)
      → Best (t ∷ ts) (some (if b then u else t))
  earlier-Best t u ts true e c h = (inr h.0, h.1, ((λ _. key_ltb_asym u.key t.key e), h.2))
  earlier-Best t u ts false e c h =
      (inl refl, c, ((λ _. key_ltb_refl t.key), IsLeast-mono t u ts e h.2))

  Best-cons :
      (t : Task) (ts : List Task) (best : Option Task) (b : Bool)
      → is_claimable locked now t ≡ b
      → Best ts best
      → Best (t ∷ ts) (if b then some (earlier t best) else best)
  Best-cons t ts none true e h = (inl refl, e, ((λ _. key_ltb_refl t.key), None-IsLeast t ts h))
  Best-cons t ts none false e h = (e, h)
  Best-cons t ts (some u) true e h = earlier-Best t u ts (key_ltb u.key t.key) refl e h
  Best-cons t ts (some u) false e h = (inr h.0, h.1, ((λ c. cc e), h.2))

  claim_next-Best : (ts : List Task) → Best ts (claim_next locked now ts)
  unfolding claim_next
  claim_next-Best [] = tt
  claim_next-Best (t ∷ ts) =
      Best-cons t ts (claim_next locked now ts) (is_claimable locked now t) refl
        (claim_next-Best ts)

-- Another session does not hold the task, and it waits for an attempt that is due at `now`.
pub record IsClaimable (locked : Key → Bool) (now : ℕ) (t : Task) : Type 0 where
  pub is_waiting : (t.status ≡ pending) ⊎ (t.status ≡ failed)
  pub is_over : (at : ℕ) → t.next_attempt_at ≡ some at → at ≤ now
  pub is_free : locked t.key ≡ false

-- The order of (mal_id, resource).
abbrev pub Precedes : Key → Key → Type 0
Precedes a b = (a.mal_id < b.mal_id) ⊎ ((a.mal_id ≡ b.mal_id) × (rank a.resource ≤ rank b.resource))

Precedes-intro : (a b : Key) → key_ltb b a ≡ false → Precedes a b
unfolding key_ltb
Precedes-intro a b h = ground arith

module _ (locked : Key → Bool) (now : ℕ) where
  IsClaimable-intro : (t : Task) → is_claimable locked now t ≡ true → IsClaimable locked now t
  IsClaimable-intro t h = record {
    is_waiting = ground arith;
    is_over = λ at e. ground arith;
    is_free = ground arith;
  }

  due_of_over : (next : Option ℕ) → ((at : ℕ) → next ≡ some at → at ≤ now) → is_due now next ≡ true
  due_of_over none h = refl
  due_of_over (some at) h = ground (arith, h at refl)

  IsClaimable-elim : (t : Task) → IsClaimable locked now t → is_claimable locked now t ≡ true
  IsClaimable-elim t c =
      ground (arith, c.is_waiting, c.is_free, due_of_over t.next_attempt_at c.is_over)

  -- What the claim is to find: no task, where none is claimable, or a claimable row of the table
  -- that precedes every other one.
  abbrev pub Finds : List Task → Option Task → Type 0
  Finds ts none = All (λ u. IsClaimable locked now u → ⊥) ts
  Finds ts (some t) =
      Among t ts
      × IsClaimable locked now t
      × All (λ u. IsClaimable locked now u → Precedes t.key u.key) ts

  All-map :
      {P Q : Task → Type 0} → ((t : Task) → P t → Q t) → (ts : List Task) → All P ts → All Q ts
  All-map f [] h = tt
  All-map f (t ∷ ts) h = (f t h.0, All-map f ts h.1)

  Best-Finds : (ts : List Task) (o : Option Task) → Best locked now ts o → Finds ts o
  Best-Finds ts none h = All-map (λ u e c. cc (e, IsClaimable-elim u c)) ts h
  Best-Finds ts (some t) h = (
    h.0,
    IsClaimable-intro t h.1,
    All-map (λ u first c. Precedes-intro t.key u.key (first (IsClaimable-elim u c))) ts h.2,
  )

  -- `claim_next` returns a task exactly when some row is pending or failed, has no next attempt
  -- after `now`, and is not locked by another session; the task is such a row of the table, and
  -- it precedes every other one in the order of (mal_id, resource).
  pub claim_next-Finds : (ts : List Task) → Finds ts (claim_next locked now ts)
  claim_next-Finds ts = Best-Finds ts (claim_next locked now ts) (claim_next-Best locked now ts)

pub Among-any : (t : Task) (ts : List Task) → Among t ts → any_of (has_key t.key) ts ≡ true
Among-any t [] m = elim m [ ]
Among-any t (x ∷ ts) (inl e) = ground (arith, ap (λ (y : Task). y.key) e, same_key_refl t.key)
Among-any t (x ∷ ts) (inr m) = ground (arith, Among-any t ts m)

-- A row that shares no key with those behind it is the only one with its key.
no_match-IsCurrent :
    (t : Task) (ts : List Task) → any_of (has_key t.key) ts ≡ false → IsCurrent t ts
no_match-IsCurrent t [] h = tt
no_match-IsCurrent t (x ∷ ts) h =
    ((λ e. absurd (cc (h, e))), no_match-IsCurrent t ts (ground arith))

-- A row behind another one has another key.
pub key-ne_of_Among :
    (x t : Task) (ts : List Task)
    → any_of (has_key x.key) ts ≡ false
    → Among t ts
    → same_key x.key t.key ≡ false
key-ne_of_Among x t ts fresh m = ground (
  arith,
  Among-any t ts m,
  eq_of_same_key x.key t.key,
  ap (λ (k : Key). any_of (has_key k) ts) {x = x.key} {y = t.key},
)

Among-IsCurrent : (t : Task) (ts : List Task) → Unique ts → Among t ts → IsCurrent t ts
Among-IsCurrent t [] u m = elim m [ ]
Among-IsCurrent t (x ∷ ts) u (inl e) = (
  (λ _. sym e),
  no_match-IsCurrent t ts (subst (λ (y : Task). any_of (has_key y.key) ts ≡ false) (sym e) u.0),
)
Among-IsCurrent t (x ∷ ts) u (inr m) = (
  (λ e. ground (
    arith,
    u.0,
    Among-any t ts m,
    eq_of_same_key x.key t.key e,
    ap (λ (k : Key). any_of (has_key k) ts) (eq_of_same_key x.key t.key e),
  )),
  Among-IsCurrent t ts u.1 m,
)

Among-All : (P : Task → Type 0) (t : Task) (ts : List Task) → All P ts → Among t ts → P t
Among-All P t [] h m = elim m [ ]
Among-All P t (x ∷ ts) h (inl e) = subst P (sym e) h.0
Among-All P t (x ∷ ts) h (inr m) = Among-All P t ts h.1 m

-- So a claimed task may be marked.
pub claim_next-IsClaimed :
    (locked : Key → Bool) (now : ℕ) (ts : List Task) {t : Task}
    → IsTable ts
    → claim_next locked now ts ≡ some t
    → IsClaimed t ts
claim_next-IsClaimed locked now ts {t} h e =
    let (among, claimable, first) = subst (Best locked now ts) e (claim_next-Best locked now ts) in
    record {
      open_status = ground arith;
      sound = Among-All IsSound t ts h.sound among;
      current = Among-IsCurrent t ts h.unique among;
    }

pub claim_next-Among :
    (locked : Key → Bool) (now : ℕ) (ts : List Task) {t : Task}
    → claim_next locked now ts ≡ some t
    → Among t ts
claim_next-Among locked now ts e = (subst (Best locked now ts) e (claim_next-Best locked now ts)).0
