-- ===== src/Auth/Audit.antt =====
-- The audit log keeps the last hundred events.
use mathlib.Core.List.{append-nil, append_assoc}
use stellar_portfolio_rebala.Prelude.{
  ℕ, zero, suc, ◌+◌, ◌-◌, ◌≤◌, ◌≡◌, refl, sym, ap, ◌∙◌, List, [], ◌∷◌, ◌++◌, foldl, arith, length,
  length-append, length-drop, drop, slice_last, ltb, Bool-cases, inl, inr,
}
use stellar_portfolio_rebala.Auth.{AuthAuditEvent, AuthState, trim_events, record_auth_audit_event}

drop_none : {A : Type 0} (n : ℕ) (xs : List A) → n ≡ 0 → drop n xs ≡ xs
drop_none zero xs h = refl
drop_none (suc n) xs h = absurd (omega (arith, h))

drop-append :
    {A : Type 0} (n : ℕ) (xs ys : List A) → n ≤ length xs → drop n (xs ++ ys) ≡ drop n xs ++ ys
drop-append zero xs ys h = refl
drop-append (suc n) [] ys h = absurd (omega (arith, h))
drop-append (suc n) (x ∷ xs) ys h = drop-append n xs ys (omega (arith, h))

drop_nil : {A : Type 0} (n : ℕ) → drop {A = A} n [] ≡ []
drop_nil zero = refl
drop_nil (suc n) = refl

drop-drop : {A : Type 0} (m n : ℕ) (xs : List A) → drop m (drop n xs) ≡ drop (m + n) xs
drop-drop m zero xs = ap (λ k. drop k xs) (omega arith)
drop-drop m (suc n) [] = drop_nil m ∙ sym (drop_nil (m + suc n))
drop-drop m (suc n) (x ∷ xs) =
    let index : suc (m + n) ≡ m + suc n = omega arith in
    drop-drop m n xs ∙ ap (λ k. drop k (x ∷ xs)) index

-- The loop of shifts.
trim_events-slice_last : (events : List AuthAuditEvent) → trim_events events ≡ slice_last 100 events
unfolding trim_events
trim_events-slice_last [] = refl
trim_events-slice_last (e ∷ events) = elim (Bool-cases (ltb 100 (suc (length events)))) [
  | inl more ↦
      let index : suc (length events - 100) ≡ suc (length events) - 100 = ground (arith, more) in
      rw more (trim_events-slice_last events ∙ ap (λ k. drop k (e ∷ events)) index)
  | inr fits ↦
      let none_left : suc (length events) - 100 ≡ 0 = ground (arith, fits) in
      rw fits (sym (drop_none (suc (length events) - 100) (e ∷ events) none_left))
]

slice_last-snoc :
    (events : List AuthAuditEvent) (e : AuthAuditEvent)
    → slice_last 100 (slice_last 100 events ++ e ∷ []) ≡ slice_last 100 (events ++ e ∷ [])
slice_last-snoc events e =
    let cut = length events - 100 in
    let kept = drop-append cut events (e ∷ []) (omega arith) in
    let index : (length (drop cut (events ++ e ∷ [])) - 100) + cut
        ≡ length (events ++ e ∷ []) - 100 =
      omega (arith, length-drop cut (events ++ e ∷ []), length-append events (e ∷ [])) in
    ap (slice_last 100) (sym kept)
    ∙ drop-drop (length (drop cut (events ++ e ∷ [])) - 100) cut (events ++ e ∷ [])
    ∙ ap (λ k. drop k (events ++ e ∷ [])) index

-- Whatever is recorded, the log is the last hundred of all events, in their order.
pub record_auth_audit_event-slice_last :
    (events more : List AuthAuditEvent) (s : AuthState)
    → s.auth_audit_events ≡ slice_last 100 events
    → (foldl (λ s' e. record_auth_audit_event e s') s more).auth_audit_events
      ≡ slice_last 100 (events ++ more)
unfolding record_auth_audit_event
record_auth_audit_event-slice_last events [] s h = h ∙ ap (slice_last 100) (sym (append-nil events))
record_auth_audit_event-slice_last events (e ∷ more) s h =
    let recorded =
      trim_events-slice_last (s.auth_audit_events ++ e ∷ [])
      ∙ ap (λ log. slice_last 100 (log ++ e ∷ [])) h
      ∙ slice_last-snoc events e in
    record_auth_audit_event-slice_last (events ++ e ∷ []) more (record_auth_audit_event e s)
      recorded
    ∙ ap (slice_last 100) (append_assoc events (e ∷ []) more)
