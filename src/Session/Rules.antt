-- ===== src/Session/Rules.antt =====
-- Two rules for reasoning along a sequence of actions: a property of the session that every action
-- keeps on every outcome, and one that every action keeps if it returns.
use job_finder_agent.Common.{◌≡◌, inl, inr}
use job_finder_agent.Session.{Session, Action, ok, ◌>>=◌, Result-cases}

module _ {D : Type 0} (I : Session D → Type 0) where
  abbrev pub Always : {A : Type 0} → Action D A → Type 0
  Always m = (s : Session D) → I s → I (m s).1

  abbrev pub OnReturn : {A : Type 0} → Action D A → Type 0
  OnReturn {A} m = (s : Session D) → I s → (a : A) → (m s).0 ≡ ok a → I (m s).1

  module _ {A B : Type 0} (m : Action D A) (f : A → Action D B) where
    pub >>=-Always : Always m → ((a : A) → Always (f a)) → Always (m >>= f)
    >>=-Always first rest s i = elim (Result-cases (m s).0) [
      | inl (a, e) ↦ rw (e, ◌>>=◌) (rest a (m s).1 (first s i))
      | inr (x, e) ↦ rw (e, ◌>>=◌) (first s i)
    ]

    pub >>=-OnReturn : OnReturn m → ((a : A) → OnReturn (f a)) → OnReturn (m >>= f)
    >>=-OnReturn first rest s i b h = elim (Result-cases (m s).0) [
      | inl (a, e) ↦ rw (e, ◌>>=◌) (rest a (m s).1 (first s i a e) b (rw (e, ◌>>=◌) at h))
      | inr (x, e) ↦ cc (rw (e, ◌>>=◌) at h)
    ]
