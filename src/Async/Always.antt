-- ===== src/Async/Always.antt =====
-- Calls that always return, whatever the state, with what holds of the value.
use stellar_portfolio_rebala.Prelude.{
  ◌≡◌, refl, sym, subst, ◌∙◌, inl, inr, String, Bool, true, false, Option, none, some,
  if◌then◌else◌,
}
use stellar_portfolio_rebala.Async.{returned, Run, ◌>>=◌, pure, catching, rescuing, failing}
use stellar_portfolio_rebala.Async.Returns.{
  Returns, Outcome-cases, returned_injective, thrown_not_returned,
}

pub record Always {H A : Type 0} (P : A → Type 0) (m : Run H A) : Type 0 where
  pub result : (h : H) → (a : A) × (((m h).0 ≡ returned a) × P a)

module _ {H A : Type 0} (P : A → Type 0) where
  pub pure-Always : (a : A) → P a → Always {H = H} P (pure a)
  pure-Always a p = record { result = λ h. (a, (refl, p)) }

  pub bind-Always :
      {B : Type 0} (Q : B → Type 0) (m : Run H B) (f : B → Run H A)
      → Always Q m
      → ((b : B) → Q b → Always P (f b))
      → Always P (m >>= f)
  unfolding ◌>>=◌
  bind-Always Q m f first each = record {
    result =
        λ h. let (b, (e, q)) = first.result h in rw (e, ◌>>=◌) (Always.result (each b q) (m h).1);
  }

  pub catching-Always :
      (f : String → A) (m : Run H A)
      → ((message : String) → P (f message))
      → Returns P m
      → Always P (catching f m)
  unfolding catching
  catching-Always f m caught first = record {
    result = λ h. elim (Outcome-cases (m h).0) [
      | inl (a, e) ↦ rw (e, catching) (a, (refl, first.holds h a e))
      | inr (message, e) ↦ rw (e, catching) (f message, (refl, caught message))
    ];
  }

  pub rescuing-Always :
      (f : String → Run H A) (m : Run H A)
      → ((message : String) → Always P (f message))
      → Returns P m
      → Always P (rescuing f m)
  unfolding rescuing
  rescuing-Always f m caught first = record {
    result = λ h. elim (Outcome-cases (m h).0) [
      | inl (a, e) ↦ rw (e, rescuing) (a, (refl, first.holds h a e))
      | inr (message, e) ↦ rw (e, rescuing) (Always.result (caught message) (m h).1)
    ];
  }

  pub if-Always :
      (b : Bool) (m k : Run H A)
      → ((b ≡ true) → Always P m)
      → ((b ≡ false) → Always P k)
      → Always P (if b then m else k)
  if-Always true m k first second = first refl
  if-Always false m k first second = second refl

  pub option-Always :
      {B : Type 0} (o : Option B) (m : Run H A) (f : B → Run H A)
      → ((o ≡ none) → Always P m)
      → ((b : B) → (o ≡ some b) → Always P (f b))
      → Always P (elim o [ none ↦ m | some b ↦ f b ])
  option-Always none m f first each = first refl
  option-Always (some b) m f first each = each b refl

  pub Always-Returns : (m : Run H A) → Always P m → Returns P m
  Always-Returns m always = record {
    holds = λ h a e.
        let (b, (e', p)) = always.result h in subst P (returned_injective b a (sym e' ∙ e)) p;
  }

  -- Each branch may use the test.
  pub cond-Returns :
      (b : Bool) (m k : Run H A)
      → ((b ≡ true) → Returns P m)
      → ((b ≡ false) → Returns P k)
      → Returns P (if b then m else k)
  cond-Returns true m k first second = first refl
  cond-Returns false m k first second = second refl

  pub option-Returns :
      {B : Type 0} (o : Option B) (m : Run H A) (f : B → Run H A)
      → Returns P m
      → ((b : B) → Returns P (f b))
      → Returns P (elim o [ none ↦ m | some b ↦ f b ])
  option-Returns none m f first each = first
  option-Returns (some b) m f first each = each b

  pub failing-Returns : (message : String) → Returns {H = H} P (failing message)
  failing-Returns message = record { holds = λ h a e. absurd (thrown_not_returned message a e) }
