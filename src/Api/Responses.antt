-- ===== src/Api/Responses.antt =====
-- api/responses.py (app), and what an endpoint reads of its request.
use job_finder_agent.Common.{ℕ, Bool, true, Option, none, String, or_default}

-- `session_id` is what `get_current_user` stores in the state of the request, and `request_id` is
-- what the middleware stores there.
pub record ClientRequest : Type 0 where
  pub ip_address : Option String
  pub user_agent : Option String
  pub device_name : Option String
  pub request_id : Option String
  pub session_id : Option ℕ

pub record ResponseMeta : Type 0 where
  pub request_id : String
  pub api_version : String
  pub page : Option ℕ
  pub page_size : Option ℕ
  pub total : Option ℕ

-- The field `data` is called `content`.
pub record SuccessResponse (A : Type 0) : Type 0 where
  pub success : Bool
  pub content : A
  pub meta : ResponseMeta

module _ {A : Type 0} where
  -- `success_response`, with all its arguments; two shorter forms follow.
  abbrev pub versioned_response :
      String → A → ClientRequest → Option ℕ → Option ℕ → Option ℕ → SuccessResponse A
  versioned_response api_version value request page page_size total = record {
    success = true;
    content = value;
    meta = record {
      request_id = or_default request.request_id "unknown";
      api_version = api_version;
      page = page;
      page_size = page_size;
      total = total;
    };
  }

  abbrev pub paged_response : A → ClientRequest → Option ℕ → Option ℕ → Option ℕ → SuccessResponse A
  paged_response = versioned_response "v1"

  abbrev pub success_response : A → ClientRequest → SuccessResponse A
  success_response value request = paged_response value request none none none
