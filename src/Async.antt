-- ===== src/Async.antt =====
-- Asynchronous functions: a call returns or throws, and changes a state.
pub mod Returns
pub mod Keeps
pub mod Always
use stellar_portfolio_rebala.Prelude.{String}

-- A call that returns or throws, with the message of the error.
pub data Outcome (A : Type 0) : Type 0 where
  returned : A → Outcome A
  thrown : String → Outcome A

-- An asynchronous function that uses a server in a state of type H.
abbrev pub Run : Type 0 → Type 0 → Type 0
Run H A = H → Outcome A × H

infixl 5 ◌>>=◌ ◌>>◌
unfoldable pub ◌>>=◌ : {H A B : Type 0} → Run H A → (A → Run H B) → Run H B
◌>>=◌ m f h = elim (m h).0 [ returned a ↦ f a (m h).1 | thrown message ↦ (thrown message, (m h).1) ]

abbrev pub ◌>>◌ : {H A B : Type 0} → Run H A → Run H B → Run H B
m >> k = m >>= λ _. k

abbrev pub pure : {H A : Type 0} → A → Run H A
pure a h = (returned a, h)

-- `try { m } catch (error) { f(error) }`
unfoldable pub catching : {H A : Type 0} → (String → A) → Run H A → Run H A
catching f m h = elim (m h).0 [
  | returned a ↦ (returned a, (m h).1)
  | thrown message ↦ (returned (f message), (m h).1)
]

-- `try { m } catch (error) { f(error) }` where the handler is asynchronous too.
unfoldable pub rescuing : {H A : Type 0} → (String → Run H A) → Run H A → Run H A
rescuing f m h = elim (m h).0 [
  | returned a ↦ (returned a, (m h).1)
  | thrown message ↦ f message (m h).1
]

-- `throw new Error(message)`
abbrev pub failing : {H A : Type 0} → String → Run H A
failing message h = (thrown message, h)

-- A computation that may throw, and changes nothing.
abbrev pub lift : {H A : Type 0} → Outcome A → Run H A
lift outcome h = (outcome, h)

-- A function of the first part of the state, as an object's method reads and writes its fields.
abbrev pub reading : {S W A : Type 0} → (S → A) → Run (S × W) A
reading f h = (returned (f h.0), h)

abbrev pub modifying : {S W A : Type 0} → (S → A × S) → Run (S × W) A
modifying f h = (returned (f h.0).0, ((f h.0).1, h.1))

-- A call that leaves the object's fields alone.
unfoldable pub outside : {S W A : Type 0} → Run W A → Run (S × W) A
outside m h = ((m h.1).0, (h.0, (m h.1).1))
