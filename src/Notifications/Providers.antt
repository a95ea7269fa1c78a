-- ===== src/Notifications/Providers.antt =====
-- notifications/templates.py, email.py, telegram.py and whatsapp.py (app): the message of a match, and the
-- providers that send it. The HTTP client and the exceptions that it raises are parameters.
use job_finder_agent.Common.{
  ℕ, Bool, false, ◌&&◌, ◌||◌, not, Option, none, List, [], ◌∷◌, String, str_eq, contains, leb, ltb,
  or_default, if◌then◌else◌, ◌⧺◌, Texts,
}
use job_finder_agent.Ingestion.Jobs.{Job, MatchResult}
use job_finder_agent.Notifications.Deliveries.{Failure, Sent, accepted, refused}

pub record NotificationMessage : Type 0 where
  pub subject : String
  pub body : String

-- `', '.join(items) or 'none'`
abbrev listed : Texts → List String → String
listed T items = let text = T.join ", " items in if str_eq text "" then "none" else text

unfoldable render_match : Texts → Job → MatchResult → NotificationMessage
render_match T job m =
    let score = T.decimal m.outcome.score in
    record {
      subject = "Job match: " ⧺ job.title ⧺ " at " ⧺ job.company_name ⧺ " (" ⧺ score ⧺ "/100)";
      body =
          "Score: "
          ⧺ score
          ⧺ "/100\nTitle: "
          ⧺ job.title
          ⧺ "\nCompany: "
          ⧺ job.company_name
          ⧺ "\nLocation: "
          ⧺ T.join ", " job.locations
          ⧺ "\nWork mode: "
          ⧺ job.work_mode
          ⧺ "\nMatched: "
          ⧺ listed T m.outcome.matched_criteria
          ⧺ "\nMissing: "
          ⧺ listed T m.outcome.missing_criteria
          ⧺ "\nConcerns: "
          ⧺ listed T m.outcome.concerns
          ⧺ "\nApply: "
          ⧺ job.application_url;
    }

-- A ValueError, or another exception of Python's own with no attribute that `is_retryable` reads.
abbrev pub plain_error : String → Failure
plain_error message = record {
  retryable = false;
  is_connection = false;
  status_code = none;
  message = message;
}

-- `EmailProvider.send`
unfoldable send_email : String → NotificationMessage → Sent
send_email recipient m =
    if not (contains "@" recipient)
    then refused (plain_error "valid email recipient is required")
    else accepted ("outbox:" ⧺ recipient ⧺ ":" ⧺ m.subject)

-- `WhatsAppProvider.send`
unfoldable send_whatsapp : NotificationMessage → Sent
send_whatsapp m = refused (plain_error "WhatsApp delivery is disabled")

-- What a request comes to: no answer, or a status with the identifier of the message, where the body
-- names one.
pub data Posted : Type 0 where
  unanswered : String → Posted
  replied : ℕ → Option String → Posted

-- The client, and what `is_retryable` reads of the exceptions that it raises: one for a request with no
-- answer, and the one of `raise_for_status`.
pub record HttpClient : Type 0 where
  pub post : String → List (String × String) → Posted
  pub transport_error : String → Failure
  pub status_error : ℕ → Failure

abbrev is_success : ℕ → Bool
is_success status = leb 200 status && ltb status 300

-- `TelegramProvider.send`
unfoldable pub send_telegram : HttpClient → String → String → NotificationMessage → Sent
send_telegram client token chat_id m =
    if str_eq token "" || str_eq chat_id ""
    then refused (plain_error "Telegram token and chat_id are required")
    else elim (client.post ("https://api.telegram.org/bot" ⧺ token ⧺ "/sendMessage")
        (("chat_id", chat_id) ∷ ("text", m.body) ∷ [])) [
          | unanswered message ↦ refused (client.transport_error message)
          | replied status id ↦
              if is_success status
              then accepted (or_default id "unknown")
              else refused (client.status_error status)
        ]
