-- ===== src/Sources.antt =====
-- domain/jobs/source_service.py, ingestion/schemas.py, the creation and the listing of sources in
-- repositories/sources.py, and their endpoints in api/v1/sources.py (app).
pub mod Listed
use job_finder_agent.Common.{
  ℕ, Bool, true, false, ◌&&◌, ◌||◌, not, Option, none, some, List, [], ◌∷◌, find, filter_by, add,
  String, str_eq, if◌then◌else◌, ◌==◌,
}
use job_finder_agent.Database.{Records}
use job_finder_agent.Session.{
  Action, raise, other, ◌>>=◌, ◌>>◌, pure, query, modify, draw, commit_session, flush_session,
  refresh_session,
}
use job_finder_agent.Auth.Models.{User, active}
use job_finder_agent.Ingestion.Jobs.{Source, Catalog}
use job_finder_agent.Ingestion.Adapters.Json.{Fields}
use job_finder_agent.Api.Responses.{ClientRequest, SuccessResponse, success_response}

pub record SourceInput : Type 0 where
  pub kind : String
  pub name : String
  pub config : Fields
  pub schedule : Option String
  pub enabled : Bool

-- `SourceResponse`, whose fields but the first are those of `SourceInput`.
pub record SourceResponse : Type 0 where
  pub id : String
  pub source : SourceInput

-- What the types of the fields of `SourceInput` ask for.
unfoldable pub is_acceptable : SourceInput → Bool
is_acceptable given =
    (str_eq given.kind "greenhouse" || str_eq given.kind "lever") && not (str_eq given.name "")

-- `User(id=user_id)`, with the defaults of the model.
abbrev pub blank_user : ℕ → User
blank_user user_id = record {
  id = user_id;
  email = none;
  password_hash = none;
  status = active;
  email_verified_at = none;
  failed_login_attempts = 0;
  locked_until = none;
}

abbrev pub source_of : ℕ → ℕ → SourceInput → Source
source_of id user_id given = record {
  id = id;
  user_id = user_id;
  kind = given.kind;
  name = given.name;
  config = given.config;
  schedule = given.schedule;
  enabled = given.enabled;
  last_success_at = none;
}

abbrev pub input_of : Source → SourceInput
input_of x = record {
  kind = x.kind;
  name = x.name;
  config = x.config;
  schedule = x.schedule;
  enabled = x.enabled;
}

abbrev pub with_user : User → Records → Records
with_user u d = record d { identity = record d.identity { users = add u d.identity.users } }

abbrev pub with_source : Source → Records → Records
with_source x d = record d { catalog = record d.catalog { sources = add x d.catalog.sources } }

-- The first half of `SourceRepository.create`: the user is added where it is missing.
unfoldable require_user : ℕ → Action Records (Unit {0})
require_user user_id = do
  user ← query (λ d. find (λ u. u.id == user_id) d.identity.users)
  elim user [ some u ↦ pure tt | none ↦ modify (with_user (blank_user user_id)) >> flush_session ]

module _ (uuid4 : ℕ → ℕ) where
  -- `SourceRepository.create`
  unfoldable pub create_row : ℕ → SourceInput → Action Records Source
  unfolding require_user
  create_row user_id given = do
    require_user user_id
    id ← draw uuid4
    modify (with_source (source_of id user_id given))
    commit_session
    refresh_session
    pure (source_of id user_id given)

-- `SourceRepository.list_for_user`. The query asks for no order: the order of the rows stands for the one in
-- which the database gives them.
unfoldable pub list_for_user : ℕ → Action Records (List Source)
list_for_user user_id = query (λ d. filter_by (λ x. x.user_id == user_id) d.catalog.sources)

module _ (uuid_text : ℕ → String) where
  -- A response validates the fields that it is made of.
  unfoldable pub respond_source : ℕ → SourceInput → Action Records SourceResponse
  unfolding is_acceptable
  respond_source id given =
      if is_acceptable given then pure (record { id = uuid_text id; source = given }) else λ s.
      (raise (other "ValidationError"), s)

  unfoldable pub respond_all : List Source → Action Records (List SourceResponse)
  unfolding respond_source
  respond_all [] = pure []
  respond_all (x ∷ xs) = do
    response ← respond_source x.id (input_of x)
    rest ← respond_all xs
    pure (response ∷ rest)

  -- `SourceService.list`
  unfoldable pub list_sources : ℕ → Action Records (List SourceResponse)
  unfolding list_for_user respond_all
  list_sources user_id = do sources ← list_for_user user_id; respond_all sources

  -- `SourceService.create`
  unfoldable pub create_source : (ℕ → ℕ) → ℕ → SourceInput → Action Records SourceResponse
  unfolding create_row respond_source
  create_source uuid4 user_id given = do
    created ← create_row uuid4 user_id given
    respond_source created.id given

  module _ (user_id : ℕ) (request : ClientRequest) where
    unfoldable pub create_source_endpoint :
        (ℕ → ℕ) → SourceInput → Action Records (SuccessResponse SourceResponse)
    create_source_endpoint uuid4 given = do
      response ← create_source uuid4 user_id given
      pure (success_response response request)

    unfoldable pub list_sources_endpoint : Action Records (SuccessResponse (List SourceResponse))
    list_sources_endpoint = do
      responses ← list_sources user_id
      pure (success_response responses request)
