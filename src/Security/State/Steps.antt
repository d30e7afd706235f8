-- ===== src/Security/State/Steps.antt =====
-- What each kind of step does to the rows, to Redis and to the mail queue.
use anime_app_backend.Prelude.{◌≡◌, arith}
use anime_app_backend.Exec.Post.{Post}
use anime_app_backend.Security.State.{
  database_error, redis_error, Database, Redis, Outside, State, query, commit, command,
}

-- Two states with the same rows, keys and mails.
pub record Untouched (w w' : State) : Type 0 where
  pub saved : w'.saved ≡ w.saved
  pub seen : w'.seen ≡ w.seen
  pub redis : w'.redis ≡ w.redis
  pub mails : w'.mails ≡ w.mails

module _ {T : Type 0} (out : Outside T) where
  pub record Queried {A : Type 0} (f : Database → A × Database) (w : State) (a : A) (w' : State)
      : Type 0 where
    pub result : a ≡ (f w.seen).0
    pub seen : w'.seen ≡ (f w.seen).1
    pub saved : w'.saved ≡ w.saved
    pub redis : w'.redis ≡ w.redis
    pub mails : w'.mails ≡ w.mails

  pub query-Queried :
      {A : Type 0} (f : Database → A × Database) (w : State)
      → Post (Queried f w) (λ e w'. (e ≡ database_error) × Untouched w w') (query out f w)
  unfolding query
  query-Queried f w = ground arith

  pub record Commanded {A : Type 0} (f : Redis → A × Redis) (w : State) (a : A) (w' : State)
      : Type 0 where
    pub result : a ≡ (f w.redis).0
    pub redis : w'.redis ≡ (f w.redis).1
    pub seen : w'.seen ≡ w.seen
    pub saved : w'.saved ≡ w.saved
    pub mails : w'.mails ≡ w.mails

  pub command-Commanded :
      {A : Type 0} (f : Redis → A × Redis) (w : State)
      → Post (Commanded f w) (λ e w'. (e ≡ redis_error) × Untouched w w') (command out f w)
  unfolding command
  command-Commanded f w = ground arith

  pub record Committed (w w' : State) : Type 0 where
    pub saved : w'.saved ≡ w.seen
    pub seen : w'.seen ≡ w.seen
    pub redis : w'.redis ≡ w.redis
    pub mails : w'.mails ≡ w.mails

  pub commit-Committed :
      (w : State)
      → Post (λ _ w'. Committed w w') (λ e w'. (e ≡ database_error) × Untouched w w') (commit out w)
  unfolding commit
  commit-Committed w = ground arith
