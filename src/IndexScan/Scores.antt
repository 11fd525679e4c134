-- ===== src/IndexScan/Scores.antt =====
-- The score that a query sees of a row, by the callbacks that its scans have registered.
use zombodb.Prelude.{Bool, List, Outcome, [], false, ok, suc, zero, ℕ, ◌++◌, ◌==◌, ◌>>=◌, ◌||◌, ◌∷◌}
use zombodb.Curl.{Curl}
use zombodb.IndexScan.{
  ScanPlan, ScanState, ScoreEntry, amrescan, do_search_for_scan, scoring_register_callback,
}
use zombodb.Query.{JsonText}
use zombodb.Query.Dsl.{ScanKey}

-- So many registrations of a callback.
unfoldable pub register_times : ℕ → ℕ → ℕ → List ScoreEntry → List ScoreEntry
register_times zero heap_oid callback entries = entries
register_times (suc n) heap_oid callback entries =
    scoring_register_callback heap_oid callback (register_times n heap_oid callback entries)

unfoldable pub has_heap : ℕ → List ScoreEntry → Bool
has_heap heap_oid [] = false
has_heap heap_oid (e ∷ es) = heap_oid == e.heap_oid || has_heap heap_oid es

-- So many times the same.
unfoldable pub copies : ℕ → ℕ → List ℕ
copies zero callback = []
copies (suc n) callback = copies n callback ++ (callback ∷ [])

module _ {S : Type 0} (zero_score : S) (add : S → S → S) (call : ℕ → S) where
  -- So many times the score, added up.
  unfoldable pub score_times : ℕ → S → S
  score_times zero score = zero_score
  score_times (suc n) score = add (score_times n score) score

module _ (l : JsonText) (c : Curl) where
  -- A scan that Postgres starts again so many times, and each time asks for its first rows.
  unfoldable pub rescans : ℕ → ScanPlan → ℕ → List ScanKey → ScanState l c → Outcome (ScanState l c)
  rescans zero plan id keys st = ok st
  rescans (suc n) plan id keys st = rescans n plan id keys st >>= λ st'.
      (amrescan l c keys st' >>= do_search_for_scan l c plan id)
