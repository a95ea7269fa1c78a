-- ===== src/RateLimit/Headers.antt =====
-- The headers of a response (app). Names are compared as they are written.
use job_finder_agent.Common.{
  ◌≡◌, refl, false, not, Option, none, some, List, [], ◌∷◌, All, filter_by, String, str_eq, eq_iff,
  eq_refl, if◌then◌else◌, Bool-cases, inl, inr, arith,
}

-- `response.headers[name] = value`
abbrev pub set_header : String × String → List (String × String) → List (String × String)
set_header h [] = h ∷ []
set_header h (x ∷ xs) =
    if str_eq x.0 h.0 then h ∷ filter_by (λ y. not (str_eq y.0 h.0)) xs else x ∷ set_header h xs

-- Several, one after the other.
abbrev pub set_headers : List (String × String) → List (String × String) → List (String × String)
set_headers [] given = given
set_headers (h ∷ hs) given = set_headers hs (set_header h given)

-- `response.headers.get(name)`
unfoldable pub header_of : String → List (String × String) → Option String
header_of name [] = none
header_of name (x ∷ xs) = if str_eq x.0 name then some x.1 else header_of name xs

pub header_of-set_header :
    (name value : String) (given : List (String × String))
    → header_of name (set_header (name, value) given) ≡ some value
unfolding header_of
header_of-set_header name value [] = rw eq_refl refl
header_of-set_header name value (x ∷ xs) = elim (Bool-cases (str_eq x.0 name)) [
  | inl e ↦ rw (e, eq_refl) refl
  | inr e ↦ rw e (rw e (header_of-set_header name value xs))
]

header_of-filter_by :
    (name other : String) (xs : List (String × String))
    → str_eq other name ≡ false
    → header_of name (filter_by (λ y. not (str_eq y.0 other)) xs) ≡ header_of name xs
unfolding header_of
header_of-filter_by name other [] apart = refl
header_of-filter_by name other (x ∷ xs) apart = ground (
  arith,
  eq_iff x.0 other,
  eq_iff x.0 name,
  eq_iff other name,
  header_of-filter_by name other xs apart,
)

pub header_of-set_header_other :
    (name : String) (h : String × String) (given : List (String × String))
    → str_eq h.0 name ≡ false
    → header_of name (set_header h given) ≡ header_of name given
unfolding header_of
header_of-set_header_other name h [] apart = rw apart refl
header_of-set_header_other name h (x ∷ xs) apart = ground (
  arith,
  eq_iff x.0 h.0,
  eq_iff x.0 name,
  eq_iff h.0 name,
  header_of-filter_by name h.0 xs apart,
  header_of-set_header_other name h xs apart,
)

-- A name that none of the headers that are set has.
pub header_of-set_headers :
    (name : String) (hs given : List (String × String))
    → All (λ h. str_eq h.0 name ≡ false) hs
    → header_of name (set_headers hs given) ≡ header_of name given
header_of-set_headers name [] given apart = refl
header_of-set_headers name (h ∷ hs) given apart =
    rw (header_of-set_headers name hs (set_header h given) apart.1)
      (header_of-set_header_other name h given apart.0)
