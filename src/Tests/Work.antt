-- ===== src/Tests/Work.antt =====
-- Deliveries, retries, runs and schedules.
use job_finder_agent.Common.{
  filter_by, ℕ, suc, ◌+◌, ◌<◌, ◌≡◌, ◌⊎◌, refl, true, false, none, some, List, [], ◌∷◌, find, ◌==◌,
  if◌then◌else◌, arith,
}
use job_finder_agent.Session.{
  commit_session, later_faults, flush_session, next_fault, refresh_session, Session, Result, ok,
}
use job_finder_agent.Notifications.Deliveries.{Delivery, delivered, Address, Failure, is_retryable}
use job_finder_agent.Notifications.Worker.{
  Outcome, returned, failure, value, dead_letter, run_with_dead_letter, after, AllRetried,
  run_with_dead_letter-answers,
}
use job_finder_agent.Ingestion.Service.{record_success, start_run}
use job_finder_agent.Ingestion.Jobs.{
  upsert, normalize_record, Outside, Source, IngestionRun, running, RawJobRecord, Catalog,
}
use job_finder_agent.Ingestion.Runs.{Collected, World, is_running, newest, runs_now}
use job_finder_agent.Ingestion.Counts.{OneRunning, start_run-OneRunning, record_success-counts}
use job_finder_agent.Ingestion.Adapters.Json.{end}
use job_finder_agent.Tests.Requests.{texts}

abbrev pub address : Address
address = record { user_id = 1; job_id = 2; profile_id = 3; channel = "email" }

abbrev pub done : Delivery
done = record {
  id = 9;
  user_id = 1;
  job_id = 2;
  profile_id = 3;
  channel = "email";
  status = delivered;
  attempt_count = 1;
  provider_message_id = some "m";
  error = none;
}

abbrev pub deliveries : Session (List Delivery)
deliveries = record { db = done ∷ []; saved = done ∷ []; faults = []; ticks = 0 }

abbrev timeout : Failure
timeout = record { retryable = true; is_connection = true; status_code = none; message = "timeout" }

-- Fails twice and then returns.
abbrev third_time : ℕ → Outcome ℕ × ℕ
third_time n = (if n == 2 then returned 7 else failure timeout, suc n)

run_with_dead_letter-answers_example :
    (n : ℕ) × (n < 2)
    × AllRetried third_time is_retryable n 0
    × (((a : ℕ) × ((third_time (after third_time n 0)).0 ≡ returned a)
          × (run_with_dead_letter third_time 2 0
              ≡ (value a, (third_time (after third_time n 0)).1)))
        ⊎ ((e : Failure) × ((third_time (after third_time n 0)).0 ≡ failure e)
            × ((is_retryable e ≡ false) ⊎ (suc n ≡ 2))
            × (run_with_dead_letter third_time 2 0
                ≡ (dead_letter (suc n) e.message, (third_time (after third_time n 0)).1))))
run_with_dead_letter-answers_example = run_with_dead_letter-answers third_time 2 0 (omega arith)

abbrev pub outside : Outside
outside = record {
  uuid4 = λ t. t + 100;
  now = λ t. t;
  sha256 = λ x. x;
  alphanumeric = λ x. x;
  payload_text = λ p. "";
}

abbrev pub board : Source
board = record {
  id = 4;
  user_id = 1;
  kind = "lever";
  name = "Acme";
  config = end;
  schedule = some "interval:60";
  enabled = true;
  last_success_at = some 100;
}

abbrev pub run : IngestionRun
run = record {
  id = 5;
  source_id = 4;
  status = running;
  started_at = 0;
  completed_at = none;
  fetched_count = 0;
  normalized_count = 0;
  created_count = 0;
  updated_count = 0;
  duplicate_count = 0;
  error_count = 0;
  error_summary = [];
}

abbrev pub catalog : Session Catalog
catalog = record {
  db = record {
    sources = board ∷ [];
    runs = run ∷ [];
    jobs = [];
    records = [];
    matches = [];
    feedback = [];
  };
  saved = record {
    sources = board ∷ [];
    runs = run ∷ [];
    jobs = [];
    records = [];
    matches = [];
    feedback = [];
  };
  faults = [];
  ticks = 0;
}

abbrev posted : RawJobRecord
posted = record {
  external_id = "x";
  title = "engineer";
  description = "python";
  application_url = "u";
  location = none;
  raw_payload = none;
}

-- The same posting twice: one job is created, and one record is a duplicate.
abbrev twice : Collected
twice = record { fetch = 1; fetched = posted ∷ posted ∷ []; malformed = 0; escaped = false }

record_success-counts_example :
    let s' = (record_success texts outside 5 (some 4) (some "acme") twice catalog).1 in
    (row : IngestionRun) × (find (λ x. x.id == 5) s'.db.runs ≡ some row)
    × (is_running row.status ≡ false)
    × (row.created_count + row.updated_count + row.duplicate_count ≡ row.fetched_count)
    × (row.fetched_count ≡ 2)
    × (row.normalized_count ≡ 2)
    × (row.error_count ≡ 0)
    × (s'.saved ≡ s'.db)
unfolding find record_success upsert flush_session next_fault commit_session later_faults
    refresh_session normalize_record
record_success-counts_example =
    record_success-counts texts outside 5 4 "acme" twice catalog run refl refl

abbrev world : World
world = record { session = catalog; locks = [] }

start_run-OneRunning_example :
    let (r, w') = start_run texts outside true ("lever" ∷ []) 4 none world in
    OneRunning 4 w'.session.db
    × OneRunning 4 w'.session.saved
    × ((x : IngestionRun)
        → r ≡ ok (x, true)
        → (w' ≡ world) × (newest (filter_by (runs_now 4) world.session.db.runs) ≡ some x))
start_run-OneRunning_example =
    start_run-OneRunning texts outside true ("lever" ∷ []) 4 none world (omega arith) (omega arith)

abbrev runner : Source → ℕ → Result ℕ × ℕ
runner source n = (ok source.id, suc n)
