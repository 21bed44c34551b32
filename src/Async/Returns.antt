-- ===== src/Async/Returns.antt =====
-- What holds of every value that a run returns.
use stellar_portfolio_rebala.Prelude.{
  ◌≡◌, refl, ap, subst, ◌⊎◌, inl, inr, String, Bool, true, false, if◌then◌else◌,
}
use stellar_portfolio_rebala.Async.{Outcome, returned, thrown, Run, ◌>>=◌, pure, catching}

pub record Returns {ℓ} {H A : Type 0} (P : A → Type ℓ) (m : Run H A) : Type ℓ where
  pub holds : (h : H) (a : A) → (m h).0 ≡ returned a → P a

abbrev value_or : {A : Type 0} → A → Outcome A → A
value_or d (returned a) = a
value_or d (thrown message) = d

pub returned_injective : {A : Type 0} (a b : A) → returned a ≡ returned b → a ≡ b
returned_injective a b e = ap (value_or a) e

abbrev IsThrown : {A : Type 0} → Outcome A → Type 0
IsThrown (returned a) = ⊥
IsThrown (thrown message) = Unit

pub thrown_not_returned : {A : Type 0} (message : String) (a : A) → thrown message ≡ returned a → ⊥
thrown_not_returned message a e = subst IsThrown e tt

pub Outcome-cases :
    {A : Type 0} (o : Outcome A)
    → ((a : A) × (o ≡ returned a)) ⊎ ((message : String) × (o ≡ thrown message))
Outcome-cases (returned a) = inl (a, refl)
Outcome-cases (thrown message) = inr (message, refl)

module _ {ℓ} {H A : Type 0} (P : A → Type ℓ) where
  pub pure-Returns : (a : A) → P a → Returns {H = H} P (pure a)
  pure-Returns a h = record { holds = λ s b e. subst P (returned_injective a b e) h }

  pub bind-Returns {κ} :
      {B : Type 0} (Q : B → Type κ) (m : Run H B) (f : B → Run H A)
      → Returns Q m
      → ((b : B) → Q b → Returns P (f b))
      → Returns P (m >>= f)
  unfolding ◌>>=◌
  bind-Returns Q m f first each = record {
    holds = λ h a. elim (Outcome-cases (m h).0) [
      | inl (b, e) ↦ rw (e, ◌>>=◌) (Returns.holds (each b (first.holds h b e)) (m h).1 a)
      | inr (message, e) ↦ rw (e, ◌>>=◌) (λ e'. absurd (thrown_not_returned message a e'))
    ];
  }

  pub catching-Returns :
      (f : String → A) (m : Run H A)
      → ((message : String) → P (f message))
      → Returns P m
      → Returns P (catching f m)
  unfolding catching
  catching-Returns f m caught first = record {
    holds = λ h a. elim (Outcome-cases (m h).0) [
      | inl (b, e) ↦
          rw (e, catching) (λ e'. subst P (returned_injective b a e') (first.holds h b e))
      | inr (message, e) ↦
          rw (e, catching) (λ e'. subst P (returned_injective (f message) a e') (caught message))
    ];
  }

  pub if-Returns :
      (b : Bool) (m k : Run H A) → Returns P m → Returns P k → Returns P (if b then m else k)
  if-Returns true m k first second = first
  if-Returns false m k first second = second

-- A run of which nothing is asked.
abbrev pub Any : {A : Type 0} → A → Type 0
Any a = Unit

pub Any-Returns : {H A : Type 0} (m : Run H A) → Returns Any m
Any-Returns m = record { holds = λ h a e. tt }

module _ {H A B : Type 0} (m : Run H B) (f : B → Run H A) (h h' : H) where
  -- What the bind does with the outcome of `m`.
  abbrev bound : Outcome B × H → Outcome A × H
  bound (outcome, after) = elim outcome [
    | returned b ↦ f b after
    | thrown message ↦ (thrown message, after)
  ]

  pub >>=-returned : (b : B) → m h ≡ (returned b, h') → (m >>= f) h ≡ f b h'
  unfolding ◌>>=◌
  >>=-returned b e = ap bound e

  pub >>=-thrown :
      (message : String) → m h ≡ (thrown message, h') → (m >>= f) h ≡ (thrown message, h')
  unfolding ◌>>=◌
  >>=-thrown message e = ap bound e

pub catching-returned :
    {H A : Type 0} (f : String → A) (m : Run H A) (h h' : H) (a : A)
    → m h ≡ (returned a, h')
    → catching f m h ≡ (returned a, h')
unfolding catching
catching-returned f m h h' a e =
    ap
      (λ (r : Outcome _ × _). elim r.0 [
        | returned a ↦ (returned a, r.1)
        | thrown message ↦ (returned (f message), r.1)
      ])
      e
