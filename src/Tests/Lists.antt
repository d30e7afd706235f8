-- ===== src/Tests/Lists.antt =====
-- Discovery runs at concrete inputs.
use anime_app_backend.Prelude.{ℕ, ◌+◌, ◌≡◌, refl, true, false, none, some, String, List, [], ◌∷◌}
use anime_app_backend.Prelude.Int.{pos}
use anime_app_backend.Exec.Post.{Post}
use anime_app_backend.Json.{Json, bool, int, str, arr, obj, nil, cons, end, field}
use anime_app_backend.Ingestion.Enums.{Key, details}
use anime_app_backend.Ingestion.Runtime.{Outside, response, absent}
use anime_app_backend.Ingestion.Adapter.{Adapter}
use anime_app_backend.Ingestion.Runs
use anime_app_backend.Ingestion.Tasks.Refresh.{Distinct}
use anime_app_backend.Ingestion.Listing.{Tally, distinct}
use anime_app_backend.Ingestion.Listing.Rows.{distinct-Distinct}
use anime_app_backend.Ingestion.Discovery.{State, start_vars, start_summary}
use anime_app_backend.Ingestion.Discovery.Progress.{IsPageOf, HasSaved}
use anime_app_backend.Ingestion.Discovery.Whole.{run}
use anime_app_backend.Ingestion.Discovery.Whole.Kept.{Reports, run-Reports}
use anime_app_backend.Ingestion.Tasks.{insert_or_reset_tasks}
use anime_app_backend.Ingestion.Discovery.Weekly.{
  Anime, active_ids, rows_of_all, reset_active_from_catalogue,
}
use anime_app_backend.Ingestion.Discovery.Weekly.Chunks.{reset_active_from_catalogue-by_chunk}

abbrev anime : ℕ → String → Json
anime mal_id kind = obj (field "mal_id" (int (pos mal_id)) (field "type" (str kind) end))

-- One anime that is kept, one of an excluded type, one without an id, and the first once more.
abbrev animes : List Json
animes = anime 7 "TV" ∷ anime 8 "Music" ∷ anime 0 "TV" ∷ anime 7 "TV" ∷ []

abbrev page_json : Json
page_json = obj (
    field "data" (arr (cons (anime 7 "TV") (cons (anime 8 "Music") (cons (anime 7 "TV") nil))))
      (field "pagination" (obj (field "has_next_page" (bool false) end)) end))

abbrev listing : Outside
listing = record {
  delay = λ n. 1;
  interrupts = λ n. false;
  answer = λ n request. response 200 absent (some page_json);
  utc = λ n. 1000 + n;
  database_fault = λ n. none;
  storage_fault = λ n. none;
  locked = λ n key. false;
  describe = λ e. [];
  stored_size = λ payload. 20;
}

abbrev idle_adapter : Adapter
idle_adapter = record {
  limiter = record { interval = 600_000; last_request_time = none };
  breaker = record {
    failure_threshold = 5;
    cooldown = 300_000_000;
    consecutive_failures = 0;
    opened_at = none;
  };
  clock = record { time = 0; events = 0 };
  max_attempts = 5;
  request_count = 0;
  retry_count = 0;
  rate_limited_count = 0;
}

abbrev start : State
start = record {
  adapter = idle_adapter;
  work = record { saved = record { tasks = []; raw = [] }; seen = record { tasks = []; raw = [] } };
  objects = [];
  runs = record { saved = []; seen = [] };
  vars = record {
    page = 3;
    rate_limited_at_start = 0;
    requests_at_start = 0;
    retries_at_start = 0;
    summary = start_summary 3;
  };
}

abbrev no_tally : Tally
no_tally = record { seen = 0; skipped = 0; skipped_type = 0 }

abbrev one_row : Key
one_row = record { mal_id = 7; resource = details }

distinct-Distinct_example : Distinct (distinct (one_row ∷ one_row ∷ []))
distinct-Distinct_example = distinct-Distinct (one_row ∷ one_row ∷ [])

run-Reports_example :
    let w₀ : State = record start { vars = start_vars 1 start } in
    let page = IsPageOf listing (("status", "airing") ∷ []) (details ∷ []) in
    Post
      (Reports listing page true w₀)
      (λ _ w'. HasSaved page true w₀ w')
      (run listing 9 "discovery_weekly_airing" 1
        (("status", "airing") ∷ [])
        (details ∷ [])
        true
        none
        start)
run-Reports_example =
    run-Reports listing 9 "discovery_weekly_airing" 1 (("status", "airing") ∷ []) (details ∷ [])
      true none start refl

-- Two anime that are live and one that is finished.
abbrev catalogue : List Anime
catalogue =
    record { mal_id = 9; status = some "Not yet aired" }
    ∷ record { mal_id = 4; status = some "Finished Airing" }
    ∷ record { mal_id = 2; status = some "Currently Airing" }
    ∷ []

active_catalogue : active_ids catalogue ≡ 2 ∷ 9 ∷ []
unfolding active_ids
active_catalogue = refl

reset_active_from_catalogue-by_chunk_example :
    let rows = rows_of_all (details ∷ []) (active_ids catalogue) in
    Post
      (λ _ w'.
        w'.work.saved
        ≡ record start.work.seen { tasks = (insert_or_reset_tasks rows start.work.seen.tasks).2 })
      (λ _ w'. w'.work.saved ≡ start.work.saved)
      (reset_active_from_catalogue listing (details ∷ []) catalogue start)
reset_active_from_catalogue-by_chunk_example =
    reset_active_from_catalogue-by_chunk listing (details ∷ []) catalogue start
