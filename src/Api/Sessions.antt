-- ===== src/Api/Sessions.antt =====
-- api/v1/auth.py (app): sign-out, the sessions of a user, and roles. An endpoint that depends on the
-- current user is given as a whole, with the Authorization header of its request.
use job_finder_agent.Common.{ℕ, Bool, none, some, Option, List, String, map, if◌then◌else◌}
use job_finder_agent.Session.{Action, ◌>>=◌, ◌>>◌, pure, draw, commit_session}
use job_finder_agent.Auth.Models.{User, AuthSession, RefreshToken, Identity}
use job_finder_agent.Auth.Platform.{Platform, Settings}
use job_finder_agent.Auth.Access.{Authorization, get_current_user, require_role}
use job_finder_agent.Auth.Repository.{
  refresh_token, revoke_tokens, revoke_auth_session, create_role, has_id,
}
use job_finder_agent.Auth.Service.{
  list_sessions, revoke_session, revoke_other_sessions, assign_role_by_name,
}
use job_finder_agent.Api.Responses.{ClientRequest, SuccessResponse, success_response}
use job_finder_agent.Api.Accounts.{UserResponse, user_response}

-- Moments are left out, as in the table.
pub record SessionResponse : Type 0 where
  pub id : String
  pub device_name : Option String
  pub user_agent : Option String
  pub ip_address : Option String
  pub current : Bool

pub record RoleResponse : Type 0 where
  pub id : String
  pub name : String
  pub description : Option String

module _ (P : Platform) (cfg : Settings) where
  -- The session of the token, where sessions are managed.
  unfoldable pub end_session : RefreshToken → Action Identity (Unit {0})
  end_session t =
      if cfg.auth_session_management_enabled
      then elim t.session_id [
        | none ↦ pure tt
        | some id ↦ (do now ← draw P.now; done ← revoke_auth_session id t.user_id now; pure tt)
      ]
      else pure tt

  unfoldable pub logout : String → Action Identity (Unit {0})
  unfolding end_session
  logout raw_token = do
    token ← refresh_token (P.sha256 raw_token)
    elim token [
      | none ↦ pure tt
      | some t ↦ (do now ← draw P.now; revoke_tokens t.family_id now; end_session t; commit_session)
    ]

  abbrev pub session_response : Option ℕ → AuthSession → SessionResponse
  session_response current a = record {
    id = P.uuid_text a.id;
    device_name = a.device_name;
    user_agent = a.user_agent;
    ip_address = a.ip_address;
    current = has_id a.id current;
  }

  -- The body of `create_role`.
  abbrev pub respond_role :
      String → Option String → ClientRequest → Action Identity (SuccessResponse RoleResponse)
  respond_role name description request = do
    r ← create_role P name description
    let response : RoleResponse = record {
      id = P.uuid_text r.id;
      name = r.name;
      description = r.description;
    }
    pure (success_response response request)

  module _ (authorization : Option Authorization) where
    unfoldable pub sessions :
        ClientRequest → Action Identity (SuccessResponse (List SessionResponse))
    sessions request = do
      u ← get_current_user P cfg authorization
      values ← list_sessions P cfg u.id
      pure (success_response (map (session_response request.session_id) values) request)

    unfoldable pub revoke_other_sessions_endpoint : ClientRequest → Action Identity (Unit {0})
    revoke_other_sessions_endpoint request = do
      u ← get_current_user P cfg authorization
      count ← revoke_other_sessions P cfg u.id request.session_id
      pure tt

    unfoldable pub revoke_session_endpoint : ℕ → Action Identity (Unit {0})
    revoke_session_endpoint session_id = do
      u ← get_current_user P cfg authorization
      revoke_session P cfg u.id session_id

    unfoldable pub me : ClientRequest → Action Identity (SuccessResponse UserResponse)
    unfolding user_response
    me request = do
      u ← get_current_user P cfg authorization
      response ← user_response P cfg request u
      pure (success_response response request)

    -- `Depends(require_role("admin"))`
    unfoldable pub require_admin : Action Identity User
    require_admin = do u ← get_current_user P cfg authorization; require_role "admin" u

    unfoldable pub create_role_endpoint :
        String → Option String → ClientRequest → Action Identity (SuccessResponse RoleResponse)
    unfolding require_admin
    create_role_endpoint name description request = do
      u ← require_admin
      respond_role name description request

    unfoldable pub assign_role_endpoint : ℕ → String → Action Identity (Unit {0})
    unfolding require_admin
    assign_role_endpoint user_id role_name = do
      u ← require_admin
      assign_role_by_name P cfg user_id role_name
