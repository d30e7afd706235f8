-- ===== src/Ingestion/Listing/Rows.antt =====
-- What is true of the rows that a list page gives.
use anime_app_backend.Prelude.{
  ℕ, zero, suc, ◌+◌, ◌*◌, ◌≤◌, ◌≡◌, ◌≢◌, ◌∙◌, ap, refl, Bool, true, false, ◌&&◌, ◌||◌, ◌==◌, Option,
  none, some, String, List, [], ◌∷◌, ◌++◌, arith, Bool-cases, ◌⊎◌, inl, inr, str_eq, eq_iff,
  if◌then◌else◌,
}
use anime_app_backend.Prelude.Lists.{length, length-append, any_of}
use anime_app_backend.Exec.{Result}
use anime_app_backend.Exec.Post.{Post, Post-mono, continue-Post}
use anime_app_backend.Prelude.Int.{pos, negsuc}
use anime_app_backend.Json
use anime_app_backend.Json.{Json, int, str}
use anime_app_backend.Ingestion.Errors.{Exc}
use anime_app_backend.Ingestion.Enums.{
  Resource, rank, Key, same_key, same_key_comm, same_key_refl, eq_of_same_key,
}
use anime_app_backend.Ingestion.Tasks.Refresh.{listed, Distinct}
use anime_app_backend.Ingestion.Listing.{
  Tally, is_excluded, positive_id, entry_of_type, Entry, broken, no_id, excluded, kept, read_entry,
  rows_of, take_entry, scan, without, distinct,
}

length-rows_of : (mal_id : ℕ) (rs : List Resource) → length (rows_of mal_id rs) ≡ length rs
length-rows_of mal_id [] = refl
length-rows_of mal_id (r ∷ rs) = omega (arith, length-rows_of mal_id rs)

-- The rows of anime: one for each resource of each of them.
abbrev pub is_among : List Resource → Key → List ℕ → Bool
is_among rs key ids =
    any_of (λ id. id == key.mal_id) ids && any_of (λ r. rank r == rank key.resource) rs

listed-append :
    (key : Key) (xs ys : List Key) → listed key (xs ++ ys) ≡ (listed key xs || listed key ys)
listed-append key [] ys = refl
listed-append key (x ∷ xs) ys = ground (arith, listed-append key xs ys)

listed-rows_of :
    (key : Key) (mal_id : ℕ) (rs : List Resource)
    → listed key (rows_of mal_id rs)
      ≡ ((mal_id == key.mal_id) && any_of (λ r. rank r == rank key.resource) rs)
unfolding same_key
listed-rows_of key mal_id [] = ground arith
listed-rows_of key mal_id (r ∷ rs) = ground (arith, listed-rows_of key mal_id rs)

-- The entry has this positive id, and its type is none of the excluded ones.
pub record IsAnime (id : ℕ) (entry : Json) : Type 0 where
  pub named : Json.get "mal_id" entry ≡ some (int (pos id))
  pub positive : 1 ≤ id
  pub not_music : Json.get "type" entry ≢ some (str "Music")
  pub not_cm : Json.get "type" entry ≢ some (str "CM")
  pub not_pv : Json.get "type" entry ≢ some (str "PV")

-- The ids are those of the entries that are anime, in their order.
pub data Picks : List ℕ → List Json → Type 0 where
  none_left : Picks [] []
  pass :
      {ids : List ℕ} {entry : Json} {animes : List Json}
      → ((id : ℕ) → IsAnime id entry → ⊥)
      → Picks ids animes
      → Picks ids (entry ∷ animes)
  pick :
      {id : ℕ} {ids : List ℕ} {entry : Json} {animes : List Json}
      → IsAnime id entry
      → Picks ids animes
      → Picks (id ∷ ids) (entry ∷ animes)

-- Every one of the entries is counted, and is skipped for its id, skipped for its type, or one of
-- those picked, whose rows they are.
pub record IsTallied (rs : List Resource) (animes : List Json) (t : Tally) (rows : List Key)
    (t' : Tally) : Type 0 where
  pub seen_all : t'.seen ≡ t.seen + length animes
  pub ids : List ℕ
  pub picked : Picks ids animes
  pub rows_of_ids : (key : Key) → listed key rows ≡ is_among rs key ids
  pub rows_each : length rows ≡ length ids * length rs
  pub shared_out :
      length ids + t'.skipped + t'.skipped_type ≡ length animes + t.skipped + t.skipped_type

-- What reading an entry tells of it.
abbrev Reads : Json → Entry → Type 0
Reads anime broken = Unit
Reads anime no_id = (id : ℕ) → IsAnime id anime → ⊥
Reads anime excluded = (id : ℕ) → IsAnime id anime → ⊥
Reads anime (kept mal_id) = IsAnime mal_id anime

abbrev IsPositive : Json → ℕ → Type 0
IsPositive anime mal_id = (Json.get "mal_id" anime ≡ some (int (pos mal_id))) × (1 ≤ mal_id)

positive_id-int : (v : Json) {n : ℕ} → positive_id v ≡ some n → (v ≡ int (pos n)) × (1 ≤ n)
positive_id-int (int (pos (suc n))) h = ground (arith, h)
positive_id-int (int (pos zero)) h = absurd (cc h)
positive_id-int (int (negsuc n)) h = absurd (cc h)
positive_id-int v h = absurd (cc h)

-- A value that is not excluded is not one that is.
unlisted :
    (o : Option Json) (v : Json) (name : String)
    → o ≡ some v
    → is_excluded v ≡ some false
    → is_excluded (str name) ≡ some true
    → o ≢ some (str name)
unlisted o v name e x y h = cc (e, x, y, h)

int-positive_id : (n : ℕ) → 1 ≤ n → positive_id (int (pos n)) ≡ some n
int-positive_id zero h = absurd (omega arith)
int-positive_id (suc n) h = refl

no_id-Reads :
    (anime v : Json) → Json.get "mal_id" anime ≡ some v → positive_id v ≡ none → Reads anime no_id
no_id-Reads anime v e p id x = cc (e, p, x.named, int-positive_id id x.positive)

-- A text is excluded only if it is one of the three.
excluded_text :
    (s : String) → is_excluded (str s) ≡ some true → (s ≡ "Music") ⊎ (s ≡ "CM") ⊎ (s ≡ "PV")
excluded_text s h = by_tests (str_eq s "Music") (str_eq s "CM") (str_eq s "PV") refl refl refl h
  where
    by_tests :
        (x y z : Bool)
        → str_eq s "Music" ≡ x
        → str_eq s "CM" ≡ y
        → str_eq s "PV" ≡ z
        → some (x || y || z) ≡ some true
        → (s ≡ "Music") ⊎ (s ≡ "CM") ⊎ (s ≡ "PV")
    by_tests true y z e f g k = inl ((eq_iff s "Music").0 e)
    by_tests false true z e f g k = inr (inl ((eq_iff s "CM").0 f))
    by_tests false false true e f g k = inr (inr ((eq_iff s "PV").0 g))
    by_tests false false false e f g k = absurd (cc k)

excluded-Reads :
    (anime v : Json)
    → Json.get "type" anime ≡ some v
    → is_excluded v ≡ some true
    → Reads anime excluded
excluded-Reads anime (str s) e h id x = elim (excluded_text s h) [
  | inl m ↦ x.not_music (e ∙ ap (λ y. some (str y)) m)
  | inr (inl m) ↦ x.not_cm (e ∙ ap (λ y. some (str y)) m)
  | inr (inr m) ↦ x.not_pv (e ∙ ap (λ y. some (str y)) m)
]
excluded-Reads anime v e h id x = absurd (cc h)

read_entry-Reads : (anime : Json) → Reads anime (read_entry anime)
unfolding read_entry
read_entry-Reads anime = by_id (Json.get "mal_id" anime) refl
  where
    by_type :
        (mal_id : ℕ) (v : Json) (b : Option Bool)
        → IsPositive anime mal_id
        → Json.get "type" anime ≡ some v
        → is_excluded v ≡ b
        → Reads anime (entry_of_type mal_id b)
    by_type mal_id v none p e x = tt
    by_type mal_id v (some true) p e x = excluded-Reads anime v e x
    by_type mal_id v (some false) p e x = record {
      named = p.0;
      positive = p.1;
      not_music = unlisted (Json.get "type" anime) v "Music" e x refl;
      not_cm = unlisted (Json.get "type" anime) v "CM" e x refl;
      not_pv = unlisted (Json.get "type" anime) v "PV" e x refl;
    }

    by_kind :
        (mal_id : ℕ) (o : Option Json)
        → IsPositive anime mal_id
        → Json.get "type" anime ≡ o
        → Reads anime (elim o [ none ↦ broken | some t ↦ entry_of_type mal_id (is_excluded t) ])
    by_kind mal_id none p e = tt
    by_kind mal_id (some v) p e = by_type mal_id v (is_excluded v) p e refl

    by_value :
        (v : Json) (m : Option ℕ)
        → Json.get "mal_id" anime ≡ some v
        → positive_id v ≡ m
        → Reads anime (elim m [
          | none ↦ no_id
          | some mal_id ↦ elim (Json.get "type" anime) [
            | none ↦ broken
            | some t ↦ entry_of_type mal_id (is_excluded t)
          ]
        ])
    by_value v none e p = no_id-Reads anime v e p
    by_value v (some mal_id) e p =
        let (named, positive) = positive_id-int v p in
        by_kind mal_id (Json.get "type" anime) (e ∙ ap some named, positive) refl

    by_id :
        (o : Option Json)
        → Json.get "mal_id" anime ≡ o
        → Reads anime (elim o [
          | none ↦ broken
          | some v ↦ elim (positive_id v) [
            | none ↦ no_id
            | some mal_id ↦ elim (Json.get "type" anime) [
              | none ↦ broken
              | some t ↦ entry_of_type mal_id (is_excluded t)
            ]
          ]
        ])
    by_id none e = tt
    by_id (some v) e = by_value v (positive_id v) e refl

take_entry-IsTallied :
    (rs : List Resource) (e : Entry) (entry : Json) (animes : List Json)
    (rest : Tally → Result Exc (List Key) × Tally) (t : Tally)
    → Reads entry e
    → ((t : Tally) → Post (IsTallied rs animes t) (λ _ _. Unit {0}) (rest t))
    → Post
        (IsTallied rs (entry ∷ animes) t)
        (λ _ _. Unit {0})
        (take_entry rs e rest (record t { seen = t.seen + 1 }))
take_entry-IsTallied rs broken entry animes rest t x h = tt
take_entry-IsTallied rs no_id entry animes rest t x h =
    let t₁ : Tally = record t { seen = t.seen + 1; skipped = t.skipped + 1 } in
    Post-mono (IsTallied rs animes t₁) _ _ _ (rest t₁) (h t₁)
      (λ rows t' p. record {
        seen_all = omega (arith, p.seen_all);
        ids = p.ids;
        picked = pass x p.picked;
        rows_of_ids = p.rows_of_ids;
        rows_each = p.rows_each;
        shared_out = omega (arith, p.shared_out);
      })
      (λ _ _ _. tt)
take_entry-IsTallied rs excluded entry animes rest t x h =
    let t₁ : Tally = record t { seen = t.seen + 1; skipped_type = t.skipped_type + 1 } in
    Post-mono (IsTallied rs animes t₁) _ _ _ (rest t₁) (h t₁)
      (λ rows t' p. record {
        seen_all = omega (arith, p.seen_all);
        ids = p.ids;
        picked = pass x p.picked;
        rows_of_ids = p.rows_of_ids;
        rows_each = p.rows_each;
        shared_out = omega (arith, p.shared_out);
      })
      (λ _ _ _. tt)
take_entry-IsTallied rs (kept mal_id) entry animes rest t x h =
    let t₁ : Tally = record t { seen = t.seen + 1 } in
    continue-Post (IsTallied rs animes t₁) _ _ (rest t₁) _ (h t₁) (λ rows t' p. record {
      seen_all = omega (arith, p.seen_all);
      ids = mal_id ∷ p.ids;
      picked = pick x p.picked;
      rows_of_ids = λ key. ground (
        arith,
        listed-append key (rows_of mal_id rs) rows,
        listed-rows_of key mal_id rs,
        p.rows_of_ids key,
      );
      rows_each =
          omega
            (arith, p.rows_each, length-append (rows_of mal_id rs) rows, length-rows_of mal_id rs);
      shared_out = omega (arith, p.shared_out);
    })

pub scan-IsTallied :
    (rs : List Resource) (animes : List Json) (t : Tally)
    → Post (IsTallied rs animes t) (λ _ _. Unit {0}) (scan rs animes t)
unfolding scan
scan-IsTallied rs [] t = record {
  seen_all = omega arith;
  ids = [];
  picked = none_left;
  rows_of_ids = λ key. refl;
  rows_each = omega arith;
  shared_out = omega arith;
}
scan-IsTallied rs (a ∷ animes) t =
    take_entry-IsTallied rs (read_entry a) a animes (scan rs animes) t (read_entry-Reads a)
      (scan-IsTallied rs animes)

any-without :
    (key k : Key) (ks : List Key)
    → listed key (without k ks) ≡ (if same_key k key then false else listed key ks)
any-without key k [] = ground arith
any-without key k (x ∷ ks) = ground (
  arith,
  any-without key k ks,
  eq_of_same_key x k,
  eq_of_same_key k key,
  same_key_comm x k,
  same_key_refl k,
)

without-Distinct : (k : Key) (ks : List Key) → Distinct ks → Distinct (without k ks)
without-Distinct k [] d = tt
without-Distinct k (x ∷ ks) d = elim (Bool-cases (same_key x k)) [
  | inl e ↦ rw e (without-Distinct k ks d.1)
  | inr e ↦ rw e (ground (arith, any-without x k ks, d.0), without-Distinct k ks d.1)
]

-- No row is in the list twice.
pub distinct-Distinct : (ks : List Key) → Distinct (distinct ks)
unfolding distinct
distinct-Distinct [] = tt
distinct-Distinct (k ∷ ks) = (
  ground (arith, any-without k k (distinct ks), same_key_refl k),
  without-Distinct k (distinct ks) (distinct-Distinct ks),
)

-- Dropping repeated rows loses none and adds none.
pub listed-distinct : (key : Key) (ks : List Key) → listed key (distinct ks) ≡ listed key ks
unfolding distinct
listed-distinct key [] = refl
listed-distinct key (k ∷ ks) =
    ground (arith, any-without key k (distinct ks), listed-distinct key ks)
