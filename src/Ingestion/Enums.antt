-- ===== src/Ingestion/Enums.antt =====
-- The enums of app/ingestion/enums, and the key of a task or of a raw row.
use anime_app_backend.Prelude.{ℕ, ◌≡◌, Bool, true, ◌&&◌, ◌||◌, String, arith, ◌==◌, ltb}

pub data Resource : Type 0 where
  details statistics reviews episodes characters : Resource

pub data TaskStatus : Type 0 where
  pending done failed dead gone : TaskStatus

pub data RunStatus : Type 0 where
  running succeeded failed : RunStatus

-- The text that the database stores for a resource.
abbrev pub value : Resource → String
value details = "details"
value statistics = "statistics"
value reviews = "reviews"
value episodes = "episodes"
value characters = "characters"

-- The place of a resource among the others when they are sorted by that text.
abbrev pub rank : Resource → ℕ
rank characters = 0
rank details = 1
rank episodes = 2
rank reviews = 3
rank statistics = 4

-- The primary key (mal_id, resource) of `ingestion_task` and of `raw_tenrai`.
pub record Key : Type 0 where
  pub mal_id : ℕ
  pub resource : Resource

unfoldable pub same_key : Key → Key → Bool
same_key a b = (a.mal_id == b.mal_id) && (rank a.resource == rank b.resource)

-- The order of `ORDER BY mal_id, resource`.
unfoldable pub key_ltb : Key → Key → Bool
key_ltb a b =
    ltb a.mal_id b.mal_id || (a.mal_id == b.mal_id) && ltb (rank a.resource) (rank b.resource)

rank-injective : (r r' : Resource) → rank r ≡ rank r' → r ≡ r'
rank-injective details r' h = ground arith
rank-injective statistics r' h = ground arith
rank-injective reviews r' h = ground arith
rank-injective episodes r' h = ground arith
rank-injective characters r' h = ground arith

-- Equal keys are those that the test finds equal.
pub eq_of_same_key : (a b : Key) → same_key a b ≡ true → a ≡ b
unfolding same_key
eq_of_same_key a b h = ground (arith, rank-injective a.resource b.resource)

pub same_key_refl : (a : Key) → same_key a a ≡ true
unfolding same_key
same_key_refl a = ground arith

pub same_key_comm : (a b : Key) → same_key a b ≡ same_key b a
unfolding same_key
same_key_comm a b = ground arith
