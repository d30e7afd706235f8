-- ===== src/Users/Mailing/Once.antt =====
-- About tokens that were used, and mails that are asked for too soon.
use anime_app_backend.Prelude.{
  ℕ, ◌≡◌, refl, sym, ◌∙◌, ap, true, Option, none, some, List, [], ◌∷◌, arith, if◌then◌else◌, inl,
  inr, ◌⊎◌,
}
use anime_app_backend.Exec.Post.{Post, Post-mono, continue-Post}
use anime_app_backend.Security.State.{
  Exc, redis_error, not_found, Name, Entry, Redis, Outside, State, Job, command,
}
use anime_app_backend.Security.State.Steps.{Untouched, Commanded, command-Commanded}
use anime_app_backend.Users.Keys.{same_name, read, remove, getdel}
use anime_app_backend.Users.Mailing.{Purpose, by_token, redeem_found, redeem}

-- No entry has the key, at any time.
abbrev pub HasNo : Name → State → Type 0
HasNo name w = (now : ℕ) → read now name w.redis.entries ≡ none

pub same_name_refl : (a : Name) → same_name a a ≡ true
same_name_refl a = ground arith

read-remove_same : (now : ℕ) (name : Name) (es : List Entry) → read now name (remove name es) ≡ none
unfolding read remove
read-remove_same now name [] = refl
read-remove_same now name (e ∷ es) = ground (arith, read-remove_same now name es)

same_name_eq : (a b : Name) → same_name a b ≡ true → a ≡ b
same_name_eq a b h = ground arith

pub read-remove :
    (now : ℕ) (name other : Name) (es : List Entry)
    → read now name (remove other es) ≡ (if same_name other name then none else read now name es)
unfolding read remove
read-remove now name other [] = ground arith
read-remove now name other (e ∷ es) = ground (
  arith,
  read-remove now name other es,
  same_name_eq e.name other,
  same_name_eq e.name name,
  same_name_eq other name,
  same_name_refl other,
)

pub remove-HasNo :
    (name other : Name) (es : List Entry)
    → ((now : ℕ) → read now name es ≡ none)
    → (now : ℕ) → read now name (remove other es) ≡ none
remove-HasNo name other es h now = ground (arith, read-remove now name other es, h now)

module _ {T : Type 0} (out : Outside T) (purpose : Purpose) where
  -- A token that is not in Redis is refused, whatever it would be used for, and no row changes.
  pub redeem-Refused :
      (use_for : ℕ → Job (Unit {0})) (token : ℕ) (w : State)
      → HasNo (by_token purpose token) w
      → Post
          (λ _ _. ⊥)
          (λ e w'.
            ((e ≡ not_found) ⊎ (e ≡ redis_error)) × (w'.seen ≡ w.seen) × (w'.saved ≡ w.saved))
          (redeem out purpose use_for token w)
  unfolding redeem getdel redeem_found
  redeem-Refused use_for token w absent =
      let name = by_token purpose token in
      let f : Redis → Option ℕ × Redis = λ (r : Redis).
        (read (out.utc w.step) name r.entries, record r { entries = remove name r.entries }) in
      continue-Post (λ found w'. (found ≡ none) × (w'.seen ≡ w.seen) × (w'.saved ≡ w.saved)) _ _
        (command out f w) _
        (Post-mono _ _ _ _ (command out f w) (command-Commanded out f w)
          (λ found w' c. (c.result ∙ absent (out.utc w.step), c.seen, c.saved))
          (λ e w' c. (inr c.0, c.1.seen, c.1.saved)))
        (λ found w' q. refused found w' q.0 q.1 q.2)
    where
      refused :
          (found : Option ℕ) (w' : State)
          → found ≡ none
          → w'.seen ≡ w.seen
          → w'.saved ≡ w.saved
          → Post
              (λ _ _. ⊥)
              (λ e w'.
                ((e ≡ not_found) ⊎ (e ≡ redis_error)) × (w'.seen ≡ w.seen) × (w'.saved ≡ w.saved))
              (redeem_found out purpose use_for found w')
      refused none w' e seen saved = (inl refl, seen, saved)
      refused (some id) w' e seen saved = cc e

  -- A token is gone once it was redeemed, if what it is used for brings no token.
  pub redeem-HasNo :
      (use_for : ℕ → Job (Unit {0})) (token : ℕ) (w : State)
      → ((id : ℕ) (w : State)
          → HasNo (by_token purpose token) w
          → Post (λ _ w'. HasNo (by_token purpose token) w') (λ _ _. Unit {0}) (use_for id w))
      → Post
          (λ _ w'. HasNo (by_token purpose token) w')
          (λ _ _. Unit {0})
          (redeem out purpose use_for token w)
  unfolding redeem getdel redeem_found
  redeem-HasNo use_for token w keeps =
      let name = by_token purpose token in
      let f : Redis → Option ℕ × Redis = λ (r : Redis).
        (read (out.utc w.step) name r.entries, record r { entries = remove name r.entries }) in
      continue-Post (λ _ w'. HasNo name w') _ _ (command out f w) _
        (Post-mono _ _ _ _ (command out f w) (command-Commanded out f w)
          (λ _ w' c now.
            ap (λ (r : Redis). read now name r.entries) c.redis
            ∙ read-remove_same now name w.redis.entries)
          (λ _ _ _. tt))
        (λ found w' h. used found w' h)
    where
      used :
          (found : Option ℕ) (w' : State)
          → HasNo (by_token purpose token) w'
          → Post
              (λ _ w'. HasNo (by_token purpose token) w')
              (λ _ _. Unit {0})
              (redeem_found out purpose use_for found w')
      used none w' h = tt
      used (some id) w' h = keeps id w' h

  -- What is done is done for the user that the token stands for.
  pub redeem-Post :
      (Q : Unit {0} → State → Type 0) (X : Exc → State → Type 0) (use_for : ℕ → Job (Unit {0}))
      (token : ℕ) (w : State)
      → ((id : ℕ) (w₁ : State)
          → read (out.utc w.step) (by_token purpose token) w.redis.entries ≡ some id
          → w₁.seen ≡ w.seen
          → w₁.saved ≡ w.saved
          → Post Q X (use_for id w₁))
      → ((e : Exc) (w₁ : State) → w₁.saved ≡ w.saved → X e w₁)
      → Post Q X (redeem out purpose use_for token w)
  unfolding redeem getdel redeem_found
  redeem-Post Q X use_for token w used failed =
      let name = by_token purpose token in
      let f : Redis → Option ℕ × Redis = λ (r : Redis).
        (read (out.utc w.step) name r.entries, record r { entries = remove name r.entries }) in
      continue-Post (Commanded out f w) Q X (command out f w) _
        (Post-mono (Commanded out f w) _ (λ e w'. (e ≡ redis_error) × Untouched w w') _
          (command out f w) (command-Commanded out f w) (λ _ _ c. c)
          (λ e w₁ c. failed e w₁ c.1.saved))
        (λ found w₁ c. split found w₁ c.result c.seen c.saved)
    where
      split :
          (found : Option ℕ) (w₁ : State)
          → found ≡ read (out.utc w.step) (by_token purpose token) w.redis.entries
          → w₁.seen ≡ w.seen
          → w₁.saved ≡ w.saved
          → Post Q X (redeem_found out purpose use_for found w₁)
      split none w₁ e seen saved = failed not_found w₁ saved
      split (some id) w₁ e seen saved = used id w₁ (sym e) seen saved
