-- ===== src/Tests/Requests.antt =====
-- Requests under limits, preferences, and the score of a job.
use job_finder_agent.Common.{
  all, length, filter_by, ℕ, ◌+◌, suc, ◌-◌, ◌/◌, ◌*◌, ◌≤◌, ◌<◌, min, ◌≡◌, ◌≢◌, ◌↔◌, ◌⊎◌, refl, true,
  false, none, some, [], ◌∷◌, any, All, filter_by, length, String, str_eq, eq_refl, if◌then◌else◌,
  Texts,
}
use job_finder_agent.Session.{
  later_faults, commit_session, refresh_session, next_fault, Session, ok,
}
use job_finder_agent.RateLimit.Limiter.{Redis, IsCounting, RateLimitResult}
use job_finder_agent.RateLimit.Middleware.{
  Limits, Request, Handler, rate_limit_middleware, call_with_headers, is_exempt, is_auth_path,
}
use job_finder_agent.RateLimit.Windows.{serve, serve-limit}
use job_finder_agent.RateLimit.Guard.{auth_key, rate_limit_middleware-auth}
use job_finder_agent.Preferences.Schemas.{PreferenceInput, clean_values, validate}
use job_finder_agent.Preferences.Store.{
  Profiles, PreferenceResponse, update, active_preferences, of_user, default_weights,
}
use job_finder_agent.Preferences.Versions.{update-active_preferences}
use job_finder_agent.Matching.Rules.{
  Posting, notify, review, reject, evaluate_rules, occurs, job_text,
}
use job_finder_agent.Matching.Scores.{evaluate_rules-bounds, evaluate_rules-decision}

-- Texts in lower case without spaces around them.
abbrev pub texts : Texts
texts = record {
  casefold = λ x. x;
  lower = λ x. x;
  strip = λ x. x;
  split = λ x sep. x ∷ [];
  split_spaces = λ x. x ∷ [];
  join = λ sep xs. elim xs [ [] ↦ "" | x ∷ rest ↦ x ];
  from = λ n x. x;
  until = λ n x. x;
  decimal = λ n. "n";
}

-- Redis as the counter of each key.
abbrev pub counters : Redis (String → ℕ)
counters = record {
  incr = λ k s. (some (suc (s k)), λ k'. if str_eq k' k then suc (s k) else s k');
  expire = λ k n s. (true, s);
}

abbrev counting : IsCounting counters
counting = record {
  value = λ k s. s k;
  next = λ k s k'. if str_eq k' k then suc (s k) else s k';
  expiring = λ k n s. s;
  incr-next = λ k s. refl;
  value-next = λ k s. rw (eq_refl k) refl;
  expire-expiring = λ k n s. refl;
  value-expiring = λ k n s. refl;
}

abbrev pub unused : String → ℕ
unused k = 0

serve-limit_example :
    (s' : String → ℕ) × (serve texts counters "ip:1" 2 60 (60 ∷ 61 ∷ 119 ∷ []) unused
      ≡ (some (min 3 (2 - 0)), s'))
serve-limit_example =
    serve-limit texts counters "ip:1" 2 60 counting 1 (60 ∷ 61 ∷ 119 ∷ []) unused
      (refl, (refl, (refl, tt)))

abbrev pub limits : Limits
limits = record {
  rate_limit_enabled = true;
  rate_limit_window_seconds = 60;
  rate_limit_general_requests = 100;
  rate_limit_auth_requests = 10;
  rate_limit_fail_open = true;
  trusted_proxy_ips = "";
  csrf_enabled = true;
}

abbrev pub login_request : Request
login_request = record {
  method = "POST";
  path = "/api/v1/auth/login_request";
  client_host = some "1.2.3.4";
  authorization = none;
  forwarded_for = none;
  request_id = "r";
  given_id = none;
  csrf_cookie = some "t";
  csrf_header = some "t";
  access_cookie = some "a";
  refresh_cookie = none;
}

abbrev pub handler : Handler (String → ℕ)
handler r s = (
  record {
    status_code = 200;
    content = record { code = ""; message = ""; details = []; request_id = "r" };
    headers = [];
  },
  s,
)

rate_limit_middleware-auth_example :
    let reply =
      rate_limit_middleware texts (λ x. x) limits counters handler 60 login_request unused in
    (s' : String → ℕ) × (s' (auth_key texts (λ x. x) limits counters handler 60 login_request) ≡ 1)
    × ((0 < limits.rate_limit_auth_requests)
          × ((result : RateLimitResult) × (reply
                ≡ call_with_headers texts (λ x. x) limits counters handler result login_request s'))
        ⊎ (limits.rate_limit_auth_requests ≤ 0)
          × (reply.0.status_code ≡ 429)
          × (any (λ h. str_eq h.0 "Retry-After") reply.0.headers ≡ true)
          × (reply.1 ≡ s'))
unfolding is_exempt is_auth_path
rate_limit_middleware-auth_example =
    rate_limit_middleware-auth texts (λ x. x) limits counters handler counting 60 login_request
      unused refl refl refl refl

abbrev pub wishes : PreferenceInput
wishes = record {
  titles = "engineer" ∷ [];
  skills = record { must_have = "python" ∷ "sql" ∷ []; nice_to_have = [] };
  locations = "pune" ∷ [];
  work_mode = "remote" ∷ [];
  experience = record { min = some 2; max = some 5 };
  companies = "acme" ∷ [];
  exclusions = "unpaid" ∷ [];
  minimum_score = 75;
}

abbrev profiles : Session Profiles
profiles = record {
  db = record { users = 1 ∷ []; profiles = [] };
  saved = record { users = 1 ∷ []; profiles = [] };
  faults = [];
  ticks = 0;
}

abbrev shown_wishes : PreferenceResponse
shown_wishes = record {
  preferences = wishes;
  version = 1;
  is_active = true;
  weights = default_weights;
}

update-active_preferences_example :
    let s' = (update texts (λ t. t) (λ u. "id") 1 wishes profiles).1 in
    (active_preferences texts (λ t. t) (λ u. "id") 1 s' ≡ (ok shown_wishes, s'))
    × (shown_wishes.preferences ≡ wishes)
    × All (λ p. of_user 1 p ≡ true → p.version < 1) profiles.db.profiles
    × (s'.saved ≡ s'.db)
    × (length s'.db.profiles ≡ suc (length profiles.db.profiles))
    × ((other_id : ℕ)
        → other_id ≢ 1
        → filter_by (of_user other_id) s'.db.profiles
          ≡ filter_by (of_user other_id) profiles.db.profiles)
unfolding update validate clean_values commit_session next_fault refresh_session later_faults
update-active_preferences_example =
    update-active_preferences texts (λ t. t) (λ u. "id") (λ v. refl) 1 wishes wishes profiles
      shown_wishes refl refl

abbrev posting : Posting
posting = record {
  title = "engineer";
  description = "python and sql";
  company_name = "acme";
  locations = "pune" ∷ [];
}

abbrev percent : ℕ → ℕ → ℕ
percent a b = a * 40 / b

evaluate_rules-bounds_example :
    ((evaluate_rules texts percent posting wishes).score ≤ 70)
    × (70 < 75 → (evaluate_rules texts percent posting wishes).decision ≢ notify)
evaluate_rules-bounds_example = evaluate_rules-bounds texts percent posting wishes

evaluate_rules-decision_example :
    let m = evaluate_rules texts percent posting wishes in
    let occurring = occurs texts percent (job_text texts percent posting) in
    (((any (occurs texts percent (job_text texts percent posting)) wishes.exclusions ≡ true)
        × (m.decision ≡ reject)
        × (m.score ≡ 0))
      ⊎ (any (occurs texts percent (job_text texts percent posting)) wishes.exclusions ≡ false)
        × (m.score
            ≡ m.component_scores.skills + m.component_scores.experience
              + m.component_scores.location + m.component_scores.role + m.component_scores.salary
              + m.component_scores.company)
        × ((m.decision ≡ notify) ↔ (75 ≤ m.score))
        × ((m.decision ≡ review) ↔ (m.score < 75)))
    × ((m.missing_criteria ≡ []) ↔ (all occurring wishes.skills.must_have ≡ true))
    × (length (filter_by occurring wishes.skills.must_have) + length m.missing_criteria
        ≡ length wishes.skills.must_have)
    × (length m.matched_criteria
        ≡ length (filter_by occurring wishes.skills.must_have)
          + length (filter_by occurring wishes.skills.nice_to_have))
evaluate_rules-decision_example = evaluate_rules-decision texts percent posting wishes
