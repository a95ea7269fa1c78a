-- ===== src/Audit/Fits.antt =====
-- What it is that an event fits the filters of a search, and that events stand the newest first.
use job_finder_agent.Common.{
  ℕ, ◌≤◌, ◌≡◌, ◌↔◌, refl, Bool, true, false, Option, none, some, List, [], ◌∷◌, String, str_eq,
  eq_iff, arith, All, insert_by, order_by, All-insert_by, Bool-cases, inl, inr,
}
use job_finder_agent.Auth.Models.{AuditEvent}
use job_finder_agent.Audit.Log.{
  Filters, fits, fits_id, fits_text, fits_bool, fits_after, fits_before, is_newer,
}

-- A filter that is given, and for a text not empty, is what the event has.
abbrev pub Fits : Filters → AuditEvent → Type 0
Fits f e =
    ((id : ℕ) → f.actor_user_id ≡ some id → e.actor_user_id ≡ some id)
    × ((text : String) → f.action ≡ some text → str_eq text "" ≡ false → some e.action ≡ some text)
    × ((text : String)
        → f.resource_type ≡ some text
        → str_eq text "" ≡ false
        → some e.resource_type ≡ some text)
    × ((text : String)
        → f.resource_id ≡ some text
        → str_eq text "" ≡ false
        → e.resource_id ≡ some text)
    × ((b : Bool) → f.success ≡ some b → e.success ≡ b)
    × ((moment : ℕ) → f.created_after ≡ some moment → moment ≤ e.created_at)
    × ((moment : ℕ) → f.created_before ≡ some moment → e.created_at ≤ moment)

fits_id_iff : (x c : Option ℕ) → (fits_id x c ≡ true) ↔ ((id : ℕ) → x ≡ some id → c ≡ some id)
fits_id_iff none c = ((λ h id e. cc), λ h. refl)
fits_id_iff (some id) none = ((λ h a e. cc), λ h. cc (h id refl))
fits_id_iff (some id) (some c) = ((λ h a e. ground arith), λ h. ground (arith, h id refl))

fits_text_iff :
    (x c : Option String)
    → (fits_text x c ≡ true)
      ↔ ((text : String) → x ≡ some text → str_eq text "" ≡ false → c ≡ some text)
fits_text_iff none c = ((λ h text e full. cc), λ h. refl)
fits_text_iff (some text) none = (
  (λ h a e full. cc),
  λ h. elim (Bool-cases (str_eq text "")) [ inl e ↦ e | inr e ↦ cc (h text refl e) ],
)
fits_text_iff (some text) (some c) = (
  (λ h a e full. ground (arith, eq_iff c text)),
  λ h. elim (Bool-cases (str_eq text "")) [
    | inl e ↦ rw e refl
    | inr e ↦ ground (arith, h text refl e, eq_iff c text)
  ],
)

fits_bool_iff :
    (x : Option Bool) (c : Bool) → (fits_bool x c ≡ true) ↔ ((b : Bool) → x ≡ some b → c ≡ b)
fits_bool_iff none c = ((λ h b e. cc), λ h. refl)
fits_bool_iff (some true) c = ((λ h b e. cc), λ h. h true refl)
fits_bool_iff (some false) c = ((λ h b e. ground arith), λ h. ground (arith, h false refl))

fits_after_iff :
    (x : Option ℕ) (c : ℕ) → (fits_after x c ≡ true) ↔ ((moment : ℕ) → x ≡ some moment → moment ≤ c)
fits_after_iff none c = ((λ h m e. cc), λ h. refl)
fits_after_iff (some m) c = ((λ h a e. ground arith), λ h. ground (arith, h m refl))

fits_before_iff :
    (x : Option ℕ) (c : ℕ)
    → (fits_before x c ≡ true) ↔ ((moment : ℕ) → x ≡ some moment → c ≤ moment)
fits_before_iff none c = ((λ h m e. cc), λ h. refl)
fits_before_iff (some m) c = ((λ h a e. ground arith), λ h. ground (arith, h m refl))

pub fits-Fits : (f : Filters) (e : AuditEvent) → (fits f e ≡ true) ↔ Fits f e
unfolding fits
fits-Fits f e = (
  (λ h. (
    (fits_id_iff f.actor_user_id e.actor_user_id).0 (ground arith),
    (fits_text_iff f.action (some e.action)).0 (ground arith),
    (fits_text_iff f.resource_type (some e.resource_type)).0 (ground arith),
    (fits_text_iff f.resource_id e.resource_id).0 (ground arith),
    (fits_bool_iff f.success e.success).0 (ground arith),
    (fits_after_iff f.created_after e.created_at).0 (ground arith),
    (fits_before_iff f.created_before e.created_at).0 (ground arith),
  )),
  (λ (a, b, c, d, g, h, i).
      rw
        (
          (fits_id_iff f.actor_user_id e.actor_user_id).1 a,
          (fits_text_iff f.action (some e.action)).1 b,
          (fits_text_iff f.resource_type (some e.resource_type)).1 c,
          (fits_text_iff f.resource_id e.resource_id).1 d,
          (fits_bool_iff f.success e.success).1 g,
          (fits_after_iff f.created_after e.created_at).1 h,
          (fits_before_iff f.created_before e.created_at).1 i,
        )
        refl),
)

-- The event is not from after the other one, and among events of one moment the identifiers go down.
abbrev pub IsNotNewer : AuditEvent → AuditEvent → Type 0
IsNotNewer e x = (x.created_at ≤ e.created_at) × (x.created_at ≡ e.created_at → x.id ≤ e.id)

abbrev pub IsNewestFirst : List AuditEvent → Type 0
IsNewestFirst [] = Unit
IsNewestFirst (e ∷ es) = All (IsNotNewer e) es × IsNewestFirst es

IsNotNewer-trans :
    (a b : AuditEvent) (es : List AuditEvent)
    → IsNotNewer a b
    → All (IsNotNewer b) es
    → All (IsNotNewer a) es
IsNotNewer-trans a b [] h k = tt
IsNotNewer-trans a b (x ∷ es) (h, i) ((j, k), rest) =
    ((omega (arith, h, j), λ e. ground (arith, h, i, j, k)), IsNotNewer-trans a b es (h, i) rest)

insert_by-IsNewestFirst :
    (e : AuditEvent) (es : List AuditEvent)
    → IsNewestFirst es
    → IsNewestFirst (insert_by is_newer e es)
insert_by-IsNewestFirst e [] h = (tt, tt)
insert_by-IsNewestFirst e (x ∷ es) (h, rest) = elim (Bool-cases (is_newer e x)) [
  | inl newer ↦
      let first : IsNotNewer e x = (ground arith, λ same. ground arith) in
      rw newer ((first, IsNotNewer-trans e x es first h), (h, rest))
  | inr older ↦
      let first : IsNotNewer x e = (ground arith, λ same. ground arith) in
      rw older
        (All-insert_by (IsNotNewer x) is_newer e es first h, insert_by-IsNewestFirst e es rest)
]

pub order_by-IsNewestFirst : (es : List AuditEvent) → IsNewestFirst (order_by is_newer es)
order_by-IsNewestFirst [] = tt
order_by-IsNewestFirst (e ∷ es) =
    insert_by-IsNewestFirst e (order_by is_newer es) (order_by-IsNewestFirst es)
