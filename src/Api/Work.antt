-- ===== src/Api/Work.antt =====
-- api/v1/runs.py, notifications.py and preferences.py, api/v2/preferences.py, and the start of a run in
-- api/v1/sources.py (app). The user is the one that the dependency `user_id_from_current_user` gives.
use job_finder_agent.Common.{ℕ, false, Option, none, some, List, String, Texts, add, if◌then◌else◌}
use job_finder_agent.Session.{Action, Result, ok, raise, ◌>>=◌, pure}
use job_finder_agent.Preferences.Schemas.{PreferenceInput}
use job_finder_agent.Preferences.Store.{
  Profiles, PreferenceResponse, V2PreferenceResponse, active_preferences, active_preferences_v2,
  update, update_v2,
}
use job_finder_agent.Notifications.Deliveries.{Delivery, DeliveryStatus, get_for_user}
use job_finder_agent.Ingestion.Jobs.{Catalog, RunStatus, Outside}
use job_finder_agent.Ingestion.Runs.{run_for_user}
use job_finder_agent.Ingestion.Service.{start_run}
use job_finder_agent.Ingestion.Scheduler.{Dispatch}
use job_finder_agent.Api.Responses.{
  ClientRequest, SuccessResponse, success_response, versioned_response,
}

pub record RunPayload : Type 0 where
  pub id : String
  pub source_id : String
  pub status : RunStatus
  pub fetched_count : ℕ
  pub normalized_count : ℕ
  pub error_count : ℕ
  pub error_summary : List (String × String)
  pub started_at : ℕ
  pub completed_at : Option ℕ

pub record RunResponse : Type 0 where
  pub run_id : String
  pub status : RunStatus

pub record DeliveryPayload : Type 0 where
  pub id : String
  pub channel : String
  pub status : DeliveryStatus
  pub attempt_count : ℕ
  pub provider_message_id : Option String
  pub error : Option String

module _ (uuid_text : ℕ → String) (user_id : ℕ) (request : ClientRequest) where
  unfoldable pub get_run : ℕ → Action Catalog (SuccessResponse RunPayload)
  get_run run_id = do
    run ← run_for_user run_id user_id
    let payload : RunPayload = record {
      id = uuid_text run.id;
      source_id = uuid_text run.source_id;
      status = run.status;
      fetched_count = run.fetched_count;
      normalized_count = run.normalized_count;
      error_count = run.error_count;
      error_summary = run.error_summary;
      started_at = run.started_at;
      completed_at = run.completed_at;
    }
    pure (success_response payload request)

  unfoldable pub get_delivery : ℕ → Action (List Delivery) (SuccessResponse DeliveryPayload)
  get_delivery delivery_id = do
    d ← get_for_user delivery_id user_id
    let payload : DeliveryPayload = record {
      id = uuid_text d.id;
      channel = d.channel;
      status = d.status;
      attempt_count = d.attempt_count;
      provider_message_id = d.provider_message_id;
      error = d.error;
    }
    pure (success_response payload request)

  -- A new run is handed to the workers. `get_ingestion_service` gives the service no Redis.
  unfoldable pub run_source :
      Texts → Outside → List String → ℕ → Dispatch → Result (SuccessResponse RunResponse) × Dispatch
  run_source T O kinds source_id x =
      let (r, w) = start_run T O false kinds source_id (some user_id) x.world in
      elim r [
        | ok found ↦
            let response : RunResponse = record {
              run_id = uuid_text found.0.id;
              status = found.0.status;
            } in
            (
              ok (success_response response request),
              record {
                world = w;
                queue = if found.1 then x.queue else add (source_id, found.0.id) x.queue;
              },
            )
        | raise e ↦ (raise e, record x { world = w })
      ]

  module _ (T : Texts) (uuid4 : ℕ → ℕ) where
    unfoldable pub get_preferences : Action Profiles (SuccessResponse PreferenceResponse)
    get_preferences = do
      response ← active_preferences T uuid4 uuid_text user_id
      pure (success_response response request)

    unfoldable pub update_preferences :
        PreferenceInput → Action Profiles (SuccessResponse PreferenceResponse)
    update_preferences preferences = do
      response ← update T uuid4 uuid_text user_id preferences
      pure (success_response response request)

    unfoldable pub get_preferences_v2 : Action Profiles (SuccessResponse V2PreferenceResponse)
    get_preferences_v2 = do
      response ← active_preferences_v2 T uuid4 uuid_text user_id
      pure (versioned_response "v2" response request none none none)

    unfoldable pub update_preferences_v2 :
        PreferenceInput → Action Profiles (SuccessResponse V2PreferenceResponse)
    update_preferences_v2 preferences = do
      response ← update_v2 T uuid4 uuid_text user_id preferences
      pure (versioned_response "v2" response request none none none)

-- `validate_preferences`: the framework has validated them.
abbrev validate_preferences : PreferenceInput → ClientRequest → SuccessResponse PreferenceInput
validate_preferences preferences request = success_response preferences request
