-- ===== src/RateLimit/Secured.antt =====
-- observability/security.py (app): `security_headers_middleware`.
use job_finder_agent.Common.{
  ◌≡◌, ◌∙◌, refl, Bool, true, false, ◌||◌, some, String, str_eq, if◌then◌else◌, ◌⧺◌, List, [], ◌∷◌,
}
use job_finder_agent.RateLimit.Headers.{
  set_headers, header_of, header_of-set_header, header_of-set_header_other, set_header,
}
use job_finder_agent.RateLimit.Middleware.{Handler}

abbrev pub docs_policy : String
docs_policy =
    "default-src 'self'; script-src 'self' https://cdn.jsdelivr.net 'unsafe-inline'; "
    ⧺ "style-src 'self' https://cdn.jsdelivr.net 'unsafe-inline'; "
    ⧺ "img-src 'self' data: https://fastapi.tiangolo.com; frame-ancestors 'none'"

abbrev pub strict_policy : String
strict_policy = "default-src 'self'; frame-ancestors 'none'"

abbrev pub is_docs : String → Bool
is_docs path = str_eq path "/docs" || str_eq path "/redoc"

unfoldable pub security_headers : Bool → String → List (String × String)
security_headers hsts_enabled path =
    ("X-Content-Type-Options", "nosniff")
    ∷ ("X-Frame-Options", "DENY")
    ∷ ("Referrer-Policy", "strict-origin-when-cross-origin")
    ∷ ("Permissions-Policy", "camera=(), microphone=(), geolocation=()")
    ∷ ("Content-Security-Policy", if is_docs path then docs_policy else strict_policy)
    ∷ (if hsts_enabled
        then ("Strict-Transport-Security", "max-age=31536000; includeSubDomains") ∷ []
        else [])

-- `security_headers_middleware`
unfoldable pub security_headers_middleware : {S : Type 0} → Bool → Bool → Handler S → Handler S
unfolding security_headers
security_headers_middleware enabled hsts_enabled call_next r s =
    let (response, s') = call_next r s in
    if enabled
    then (
      record response {
        headers = set_headers (security_headers hsts_enabled r.path) response.headers;
      },
      s',
    )
    else (response, s')

module _ (path : String) (given : List (String × String)) where
  abbrev policy : String
  policy = if is_docs path then docs_policy else strict_policy

  -- The headers without those on permissions and content, and with them.
  abbrev framed : List (String × String)
  framed =
      set_header ("X-Frame-Options", "DENY")
        (set_header ("X-Content-Type-Options", "nosniff") given)

  abbrev permitted : List (String × String)
  permitted =
      set_header ("Permissions-Policy", "camera=(), microphone=(), geolocation=()")
        (set_header ("Referrer-Policy", "strict-origin-when-cross-origin") framed)

  abbrev basic : List (String × String)
  basic = set_header ("Content-Security-Policy", policy) permitted

  basic-frame : header_of "X-Frame-Options" basic ≡ some "DENY"
  basic-frame =
      header_of-set_header_other "X-Frame-Options" ("Content-Security-Policy", policy) permitted
        refl
      ∙ header_of-set_header_other "X-Frame-Options"
          ("Permissions-Policy", "camera=(), microphone=(), geolocation=()")
          (set_header ("Referrer-Policy", "strict-origin-when-cross-origin") framed) refl
      ∙ header_of-set_header_other "X-Frame-Options"
          ("Referrer-Policy", "strict-origin-when-cross-origin") framed refl
      ∙ header_of-set_header "X-Frame-Options" "DENY"
          (set_header ("X-Content-Type-Options", "nosniff") given)

  -- What the middleware sets is what the response has.
  pub header_of-security_headers :
      (hsts_enabled : Bool)
      → let sent = set_headers (security_headers hsts_enabled path) given in
        (header_of "X-Frame-Options" sent ≡ some "DENY")
        × (header_of "Content-Security-Policy" sent
            ≡ some (if is_docs path then docs_policy else strict_policy))
  unfolding security_headers
  header_of-security_headers true =
      let strict : String × String =
        ("Strict-Transport-Security", "max-age=31536000; includeSubDomains") in
      (
        header_of-set_header_other "X-Frame-Options" strict basic refl ∙ basic-frame,
        header_of-set_header_other "Content-Security-Policy" strict basic refl
            ∙ header_of-set_header "Content-Security-Policy" policy permitted,
      )
  header_of-security_headers false =
      (basic-frame, header_of-set_header "Content-Security-Policy" policy permitted)
