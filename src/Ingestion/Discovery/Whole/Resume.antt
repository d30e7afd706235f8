-- ===== src/Ingestion/Discovery/Whole/Resume.antt =====
-- How a run that failed is resumed.
use Prim.Native.Char.{Char}
use anime_app_backend.Ingestion.Runs
