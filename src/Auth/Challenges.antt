-- ===== src/Auth/Challenges.antt =====
-- A challenge is answered once, in time, by a signature of its message.
use stellar_portfolio_rebala.Prelude.{
  ℕ, ◌+◌, String, ◌≡◌, refl, sym, ap, ◌∙◌, Bool, false, ◌&&◌, none, some, List, [], ◌∷◌, arith, leb,
  str_eq, eq_iff, eq_refl, All, template, if◌then◌else◌, Bool-cases, Option-cases, inl, inr,
}
use stellar_portfolio_rebala.Prelude.Table.{Table, lookup, erase, lookup-insert, lookup-erase}
use stellar_portfolio_rebala.Auth.{
  AuthState, ChallengeEntry, Wallet, challenge_ttl_ms, record_failed_signature, issue_challenge,
  verify_wallet_signature,
}

pub data Call : Type 0 where
  issue : ℕ → String → String → Call
  verify : ℕ → String → String → Call

abbrev pub issues : String → Call → Bool
issues address (issue now nonce other) = str_eq other address
issues address (verify now other signature) = false

abbrev pub concerns : String → Call → Bool
concerns address (issue now nonce other) = str_eq other address
concerns address (verify now other signature) = str_eq other address

record_failed_signature-challenge_store :
    (now : ℕ) (address : String) (s : AuthState)
    → (record_failed_signature now address s).1.challenge_store ≡ s.challenge_store
unfolding record_failed_signature
record_failed_signature-challenge_store now address s = ground arith

abbrev pub signed : ⦃wallet : Wallet⦄ → String → String → String → Bool
signed ⦃wallet⦄ address message signature =
    elim (wallet.verify_signature address message signature) [ none ↦ false | some valid ↦ valid ]

module _ ⦃wallet : Wallet⦄ where
  unfoldable pub run : List Call → AuthState → AuthState
  run [] s = s
  run (issue now nonce address ∷ calls) s = run calls (issue_challenge now nonce address s).1
  run (verify now address signature ∷ calls) s =
      run calls (verify_wallet_signature now address signature s).1

  verify-challenge_store :
      (now : ℕ) (address signature : String) (s : AuthState)
      → (verify_wallet_signature now address signature s).1.challenge_store
        ≡ elim (lookup address s.challenge_store) [
          | none ↦ s.challenge_store
          | some entry ↦ erase address s.challenge_store
        ]
  unfolding verify_wallet_signature
  verify-challenge_store now address signature s =
      let used : AuthState = record s { challenge_store = erase address s.challenge_store } in
      ground (arith, record_failed_signature-challenge_store now address used)

  same_lookup :
      (a b : String) (store : Table ChallengeEntry)
      → lookup a store ≡ none
      → lookup b store ≡ (if str_eq a b then none else lookup b store)
  same_lookup a b store h = elim (Bool-cases (str_eq a b)) [
    | inl e ↦ rw e (ap (λ k. lookup k store) (sym ((eq_iff a b).0 e)) ∙ h)
    | inr e ↦ rw e refl
  ]

  -- A verification takes the address's challenge away, and leaves the others.
  verify-lookup :
      (now : ℕ) (address signature other : String) (s : AuthState)
      → lookup other (verify_wallet_signature now address signature s).1.challenge_store
        ≡ (if str_eq address other then none else lookup other s.challenge_store)
  verify-lookup now address signature other s =
      ap (lookup other) (verify-challenge_store now address signature s)
      ∙ elim (Option-cases (lookup address s.challenge_store)) [
        | inl e ↦ rw e (same_lookup address other s.challenge_store e)
        | inr (entry, e) ↦ rw e (lookup-erase address other s.challenge_store)
      ]

  issue-lookup :
      (now : ℕ) (nonce address other : String) (s : AuthState)
      → str_eq address other ≡ false
      → lookup other (issue_challenge now nonce address s).1.challenge_store
        ≡ lookup other s.challenge_store
  unfolding issue_challenge
  issue-lookup now nonce address other s h =
      lookup-insert address other _ (erase address s.challenge_store)
      ∙ rw h (lookup-erase address other s.challenge_store ∙ rw h refl)

  run-lookup_gone :
      (address : String) (calls : List Call) (s : AuthState)
      → lookup address s.challenge_store ≡ none
      → All (λ c. issues address c ≡ false) calls
      → lookup address (run calls s).challenge_store ≡ none
  unfolding run
  run-lookup_gone address [] s h l = h
  run-lookup_gone address (issue now nonce other ∷ calls) s h l =
      run-lookup_gone address calls (issue_challenge now nonce other s).1
        (issue-lookup now nonce other address s l.0 ∙ h) l.1
  run-lookup_gone address (verify now other signature ∷ calls) s h l =
      run-lookup_gone address calls (verify_wallet_signature now other signature s).1
        (ground (arith, verify-lookup now other signature address s, h)) l.1

  run-lookup :
      (address : String) (calls : List Call) (s : AuthState)
      → All (λ c. concerns address c ≡ false) calls
      → lookup address (run calls s).challenge_store ≡ lookup address s.challenge_store
  unfolding run
  run-lookup address [] s l = refl
  run-lookup address (issue now nonce other ∷ calls) s l =
      run-lookup address calls (issue_challenge now nonce other s).1 l.1
      ∙ issue-lookup now nonce other address s l.0
  run-lookup address (verify now other signature ∷ calls) s l =
      run-lookup address calls (verify_wallet_signature now other signature s).1 l.1
      ∙ verify-lookup now other signature address s
      ∙ rw l.0 refl

  -- A challenge is used up by the first verification for its address, whatever it answers: no
  -- verification for the address succeeds again, whatever calls come in between, until a new
  -- challenge is issued to it.
  pub verify_wallet_signature_once :
      (now later : ℕ) (address first second : String) (calls : List Call) (s : AuthState)
      → All (λ c. issues address c ≡ false) calls
      → let s' = run calls (verify_wallet_signature now address first s).1 in
        (verify_wallet_signature later address second s').0 ≡ false
  unfolding verify_wallet_signature
  verify_wallet_signature_once now later address first second calls s none_issued =
      let used = verify-lookup now address first address s ∙ rw (eq_refl address) refl in
      let gone =
        run-lookup_gone address calls (verify_wallet_signature now address first s).1 used
          none_issued in
      rw (gone, verify_wallet_signature) refl

  verify_wallet_signature_lem :
      (now : ℕ) (address signature : String) (s : AuthState) (entry : ChallengeEntry)
      → lookup address s.challenge_store ≡ some entry
      → (verify_wallet_signature now address signature s).0
        ≡ (leb now entry.expires_at && signed address entry.nonce signature)
  unfolding verify_wallet_signature
  verify_wallet_signature_lem now address signature s entry h =
      rw (h, verify_wallet_signature) (ground arith)

  -- The first verification after a challenge is issued succeeds exactly if at most five minutes
  -- have passed and the wallet's signature of its message is valid, whatever calls for other
  -- addresses come in between.
  pub verify_wallet_signature-issue :
      (now later : ℕ) (nonce address signature : String) (calls : List Call) (s : AuthState)
      → All (λ c. concerns address c ≡ false) calls
      → let (message, s') = issue_challenge now nonce address s in
        (verify_wallet_signature later address signature (run calls s')).0
        ≡ (leb later (now + challenge_ttl_ms) && signed address message signature)
  unfolding issue_challenge
  verify_wallet_signature-issue now later nonce address signature calls s others =
      let issued = (issue_challenge now nonce address s).1 in
      let entry : ChallengeEntry = record {
        nonce = template ("stellar-rebalancer:auth:" ∷ nonce ∷ []);
        expires_at = now + challenge_ttl_ms;
      } in
      let stored =
        lookup-insert address address entry (erase address s.challenge_store)
        ∙ rw (eq_refl address) refl in
      verify_wallet_signature_lem later address signature (run calls issued) entry
        (run-lookup address calls issued others ∙ stored)
