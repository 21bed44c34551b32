-- ===== src/Async/Keeps.antt =====
-- Invariants of the state, kept by every call, and what holds of every value returned.
use stellar_portfolio_rebala.Prelude.{
  ◌≡◌, subst, inl, inr, String, Bool, true, false, Option, none, some, if◌then◌else◌,
}
use stellar_portfolio_rebala.Async.{
  Outcome, returned, Run, ◌>>=◌, pure, catching, rescuing, failing, lift,
}
use stellar_portfolio_rebala.Async.Returns.{
  Any, Outcome-cases, returned_injective, thrown_not_returned,
}

-- Whether the call returns or throws, the invariant holds after it; a value that it returns meets P.
pub record Keeps {H A : Type 0} (I : H → Type 0) (P : A → Type 0) (m : Run H A) : Type 0 where
  pub kept : (h : H) → I h → I (m h).1
  pub given : (h : H) → I h → (a : A) → (m h).0 ≡ returned a → P a

module _ {H A : Type 0} (I : H → Type 0) (P : A → Type 0) where
  pub pure-Keeps : (a : A) → P a → Keeps I P (pure a)
  pure-Keeps a h = record {
    kept = λ s i. i;
    given = λ s i b e. subst P (returned_injective a b e) h;
  }

  pub bind-Keeps :
      {B : Type 0} (Q : B → Type 0) (m : Run H B) (f : B → Run H A)
      → Keeps I Q m
      → ((b : B) → Q b → Keeps I P (f b))
      → Keeps I P (m >>= f)
  unfolding ◌>>=◌
  bind-Keeps Q m f first each = record {
    kept = λ h i. elim (Outcome-cases (m h).0) [
      | inl (b, e) ↦
          rw (e, ◌>>=◌) (Keeps.kept (each b (first.given h i b e)) (m h).1 (first.kept h i))
      | inr (message, e) ↦ rw (e, ◌>>=◌) (first.kept h i)
    ];
    given = λ h i a. elim (Outcome-cases (m h).0) [
      | inl (b, e) ↦
          rw (e, ◌>>=◌) (Keeps.given (each b (first.given h i b e)) (m h).1 (first.kept h i) a)
      | inr (message, e) ↦ rw (e, ◌>>=◌) (λ e'. absurd (thrown_not_returned message a e'))
    ];
  }

  -- The invariant may fail on the way to the end of the first run.
  pub after-Keeps :
      {B : Type 0} (m : Run H B) (f : B → Run H A)
      → ((b : B) → Keeps I P (f b))
      → (h : H) → I (m h).1
      → I ((m >>= f) h).1 × ((a : A) → ((m >>= f) h).0 ≡ returned a → P a)
  unfolding ◌>>=◌
  after-Keeps m f each h i = elim (Outcome-cases (m h).0) [
    | inl (b, e) ↦ rw (e, ◌>>=◌) (Keeps.kept (each b) (m h).1 i, Keeps.given (each b) (m h).1 i)
    | inr (message, e) ↦ rw (e, ◌>>=◌) (i, λ a e'. absurd (thrown_not_returned message a e'))
  ]

  pub catching-Keeps :
      (f : String → A) (m : Run H A)
      → ((message : String) → P (f message))
      → Keeps I P m
      → Keeps I P (catching f m)
  unfolding catching
  catching-Keeps f m caught first = record {
    kept = λ h i. elim (Outcome-cases (m h).0) [
      | inl (b, e) ↦ rw (e, catching) (first.kept h i)
      | inr (message, e) ↦ rw (e, catching) (first.kept h i)
    ];
    given = λ h i a. elim (Outcome-cases (m h).0) [
      | inl (b, e) ↦
          rw (e, catching) (λ e'. subst P (returned_injective b a e') (first.given h i b e))
      | inr (message, e) ↦
          rw (e, catching) (λ e'. subst P (returned_injective (f message) a e') (caught message))
    ];
  }

  pub rescuing-Keeps :
      (f : String → Run H A) (m : Run H A)
      → ((message : String) → Keeps I P (f message))
      → Keeps I P m
      → Keeps I P (rescuing f m)
  unfolding rescuing
  rescuing-Keeps f m caught first = record {
    kept = λ h i. elim (Outcome-cases (m h).0) [
      | inl (b, e) ↦ rw (e, rescuing) (first.kept h i)
      | inr (message, e) ↦ rw (e, rescuing) (Keeps.kept (caught message) (m h).1 (first.kept h i))
    ];
    given = λ h i a. elim (Outcome-cases (m h).0) [
      | inl (b, e) ↦
          rw (e, rescuing) (λ e'. subst P (returned_injective b a e') (first.given h i b e))
      | inr (message, e) ↦
          rw (e, rescuing) (Keeps.given (caught message) (m h).1 (first.kept h i) a)
    ];
  }

  pub failing-Keeps : (message : String) → Keeps I P (failing message)
  failing-Keeps message = record {
    kept = λ h i. i;
    given = λ h i a e. absurd (thrown_not_returned message a e);
  }

  pub if-Keeps :
      (b : Bool) (m k : Run H A) → Keeps I P m → Keeps I P k → Keeps I P (if b then m else k)
  if-Keeps true m k first second = first
  if-Keeps false m k first second = second

  pub option-Keeps :
      {B : Type 0} (o : Option B) (m : Run H A) (f : B → Run H A)
      → Keeps I P m
      → ((b : B) → Keeps I P (f b))
      → Keeps I P (elim o [ none ↦ m | some b ↦ f b ])
  option-Keeps none m f first each = first
  option-Keeps (some b) m f first each = each b

-- A computation that leaves the state alone.
module _ {H A : Type 0} (I : H → Type 0) where
  pub lift-Keeps : (outcome : Outcome A) → Keeps I Any (lift outcome)
  lift-Keeps outcome = record { kept = λ h i. i; given = λ h i a e. tt }
