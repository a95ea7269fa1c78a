-- ===== src/Tests/Access.antt =====
-- An access token that is made and then presented, where tokens are spelled out in a text.
use job_finder_agent.Common.{
  ℕ, zero, suc, ◌≡◌, refl, ap, Option, some, none, String, str_eq, eq_refl, eq_iff, Bool-cases, inl,
  inr, arith, false, find, if◌then◌else◌, [],
}
use job_finder_agent.Session.{Session, ok}
use job_finder_agent.Auth.Models.{Identity}
use job_finder_agent.Auth.Platform.{Platform, Decoded, Claims, IsLawful}
use job_finder_agent.Auth.Access.{user_of_token}
use job_finder_agent.Auth.Security.{create_access_token}
use job_finder_agent.Auth.Identification.{user_of_token-create_access_token}
use job_finder_agent.Tests.Accounts.{platform, settings, ada, token, identity, session}

-- A number in unary, and a text with a mark before each character and another at its end.
abbrev unary : ℕ → String
unary zero = ""
unary (suc n) = String.◌∷◌ "1" (unary n)

abbrev count : String → ℕ
count String.[] = 0
count (String.◌∷◌ c s) = suc (count s)

count-unary : (n : ℕ) → count (unary n) ≡ n
count-unary zero = refl
count-unary (suc n) = ap suc (count-unary n)

abbrev marked : String → String → String
marked String.[] rest = String.◌∷◌ "." rest
marked (String.◌∷◌ c s) rest = String.◌∷◌ "," (String.◌∷◌ c (marked s rest))

abbrev unmarked : String → String × String
unmarked String.[] = ("", "")
unmarked (String.◌∷◌ m String.[]) = ("", "")
unmarked (String.◌∷◌ m (String.◌∷◌ c s)) =
    let rest = unmarked s in
    if str_eq (String.◌∷◌ m String.[]) ","
    then (String.◌∷◌ c rest.0, rest.1)
    else ("", String.◌∷◌ c s)

unmarked-marked : (s rest : String) → unmarked (marked s rest) ≡ (s, rest)
unmarked-marked String.[] String.[] = refl
unmarked-marked String.[] (String.◌∷◌ c rest) = refl
unmarked-marked (String.◌∷◌ c s) rest = ap (λ e. (String.◌∷◌ c e.0, e.1)) (unmarked-marked s rest)

-- The session of a token, with a mark where it has one.
abbrev sid_of : String → Option String
sid_of String.[] = none
sid_of (String.◌∷◌ m s) = some s

abbrev encode_sid : Option String → String
encode_sid none = ""
encode_sid (some s) = String.◌∷◌ "," s

sid_of-encode_sid : (sid : Option String) → sid_of (encode_sid sid) ≡ sid
sid_of-encode_sid none = refl
sid_of-encode_sid (some s) = refl

abbrev encode : Claims → String
encode c = marked c.type (marked c.sub (encode_sid c.sid))

abbrev decode : String → Decoded
decode text =
    let (type, rest) = unmarked text in
    let (sub, sid) = unmarked rest in record { type = some type; sub = some sub; sid = sid_of sid }

decode-encode :
    (c : Claims) → decode (encode c) ≡ record { type = some c.type; sub = some c.sub; sid = c.sid }
decode-encode c =
    rw
      (
        unmarked-marked c.type (marked c.sub (encode_sid c.sid)),
        unmarked-marked c.sub (encode_sid c.sid),
        sid_of-encode_sid c.sid,
      )
      refl

abbrev id_of : String → Option ℕ
id_of String.[] = none
id_of (String.◌∷◌ m s) = some (count s)

abbrev spelled : Platform
spelled = record platform {
  uuid_text = λ u. String.◌∷◌ "," (unary u);
  parse_uuid = id_of;
  jwt_encode = λ c secret. encode c;
  jwt_decode = λ now text secret issuer. some (decode text);
}

spelled-not_empty : (u : ℕ) → str_eq (spelled.uuid_text u) "" ≡ false
spelled-not_empty u = elim (Bool-cases (str_eq (spelled.uuid_text u) "")) [
  | inl e ↦ ground (arith, ap count ((eq_iff (spelled.uuid_text u) "").0 e))
  | inr e ↦ e
]

spelled-IsLawful : IsLawful spelled
spelled-IsLawful = record {
  parse_uuid-uuid_text = λ u. ap some (count-unary u);
  uuid_text-not_empty = spelled-not_empty;
  verify_password-hash_password = λ t p. eq_refl p;
  jwt_decode-jwt_encode = λ now c secret issued h. ap some (decode-encode c);
}

abbrev made : Session Identity
made = session (identity ada token)

-- The token of user 1 and session 2.
abbrev access : String
access = ",a,c,c,e,s,s.,,,1.,,11"

user_of_token-create_access_token_example : (user_of_token spelled settings access made).0 ≡ ok ada
unfolding create_access_token find
user_of_token-create_access_token_example =
    user_of_token-create_access_token spelled settings spelled-IsLawful ada [] (some 2) made made
      access refl (ground arith) (ground arith) refl refl refl
