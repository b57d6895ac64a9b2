-- ===== src/Catalog/Transaction/Threads/OneClient.antt =====
-- The client that the calls of GetClient return stays the same.
use duckdb_google_calendar.Common.{
  ℕ, List, [], ◌∷◌, true, false, Option, none, some, some-injective, Option-cases, ◌==◌, nat_eq,
  ◌≡◌, refl, sym, ◌∙◌, inl, inr, Bool-cases,
}
use duckdb_google_calendar.Common.Except.{Exec, outcome_cases}
use duckdb_google_calendar.Resources.Base.{Client}
use duckdb_google_calendar.Catalog.Transaction.Threads.{
  CallState, waiting, entered, making, returned, threw, SharedTransaction, Turn, thread, others,
  set_call, enter, test_client, make_client, go_on, take_turn, run_turns,
}

not_both : (lock : Option ℕ) (i j : ℕ) → lock ≡ some i → (j == i) ≡ false → lock ≡ some j → ⊥
not_both lock i j mine other theirs =
    let same : j ≡ i = some-injective j i (sym theirs ∙ mine) in
    let e : (j == i) ≡ true = (nat_eq.beq_iff j i).1 same in absurd (cc (e, other))

module _ {W : Type 0} where
  -- Who is inside holds the lock, who is about to make a client found none, and who has returned
  -- gave the client of the transaction.
  abbrev pub Fine : Option ℕ → Option (Client W) → ℕ → CallState W → Type 0
  Fine lock client j waiting = Unit
  Fine lock client j entered = lock ≡ some j
  Fine lock client j making = (lock ≡ some j) × (client ≡ none)
  Fine lock client j (returned c) = client ≡ some c
  Fine lock client j (threw e) = Unit

  abbrev pub Invariant : SharedTransaction W → Type 0
  Invariant s = (j : ℕ) → Fine s.client_lock s.client j (s.calls j)

  -- What holds of the new call of `i` and of the old calls of the others holds of all.
  everywhere :
      (P : ℕ → CallState W → Type 0) (i : ℕ) (call : CallState W) (calls : ℕ → CallState W)
      → P i call
      → ((j : ℕ) → (j == i) ≡ false → P j (calls j))
      → (j : ℕ) → P j (set_call i call calls j)
  everywhere P i call calls here there j = elim (Bool-cases (j == i)) [
    | inl same ↦ let e : j ≡ i = (nat_eq.beq_iff j i).0 same in rw (same, e) here
    | inr other ↦ rw other (there j other)
  ]

  -- The call of another, where `i` takes the free lock, and where `i` leaves.
  taken :
      (lock : Option ℕ) (client : Option (Client W)) (i j : ℕ) (call : CallState W)
      → lock ≡ none
      → Fine lock client j call
      → Fine (some i) client j call
  taken lock client i j waiting free h = tt
  taken lock client i j entered free h = absurd (cc (free, h))
  taken lock client i j making free h = absurd (cc (free, h.0))
  taken lock client i j (returned c) free h = h
  taken lock client i j (threw e) free h = tt

  left :
      (lock : Option ℕ) (client client' : Option (Client W)) (i j : ℕ) (call : CallState W)
      → lock ≡ some i
      → (j == i) ≡ false
      → ((c : Client W) → client ≡ some c → client' ≡ some c)
      → Fine lock client j call
      → Fine none client' j call
  left lock client client' i j waiting mine other keeps h = tt
  left lock client client' i j entered mine other keeps h = absurd (not_both lock i j mine other h)
  left lock client client' i j making mine other keeps h = absurd (not_both lock i j mine other h.0)
  left lock client client' i j (returned c) mine other keeps h = keeps c h
  left lock client client' i j (threw e) mine other keeps h = tt

  module _ (make : Exec W (Client W)) (s : SharedTransaction W) (h : Invariant s) where
    -- A turn keeps the invariant, and the client of the transaction, once there is one.
    abbrev pub Kept : SharedTransaction W → Type 0
    Kept s' = Invariant s' × ((c : Client W) → s.client ≡ some c → s'.client ≡ some c)

    enter-Kept : (i : ℕ) → Kept (enter make i s)
    unfolding enter
    enter-Kept i = elim (Option-cases s.client_lock) [
      | inr (holder, held) ↦ rw (held, enter) (h, λ c e. e)
      | inl free ↦
          rw (free, enter)
            (
              everywhere (Fine (some i) s.client) i entered s.calls refl
                  (λ j _. taken s.client_lock s.client i j (s.calls j) free (h j)),
              λ c e. e,
            )
    ]

    test-Kept : (i : ℕ) → s.client_lock ≡ some i → Kept (test_client make i s)
    unfolding test_client
    test-Kept i mine = elim (Option-cases s.client) [
      | inr (c, there) ↦
          rw (there, test_client)
            (
              everywhere (Fine none s.client) i (returned c) s.calls there (λ j other.
                  left s.client_lock s.client s.client i j (s.calls j) mine other (λ c e. e) (h j)),
              λ d e. there ∙ e,
            )
      | inl absent ↦
          rw (absent, test_client)
            (
              everywhere (Fine s.client_lock s.client) i making s.calls (mine, absent) (λ j _. h j),
              λ c e. absurd (cc e),
            )
    ]

    make-Kept : (i : ℕ) → s.client_lock ≡ some i → s.client ≡ none → Kept (make_client make i s)
    unfolding make_client
    make-Kept i mine absent = elim (outcome_cases (make s.world)) [
      | inl (e, w', failed) ↦
          rw (failed, make_client)
            (
              everywhere (Fine none s.client) i (threw e) s.calls tt (λ j other.
                  left s.client_lock s.client s.client i j (s.calls j) mine other (λ c e. e) (h j)),
              λ c e. e,
            )
      | inr (c, w', gave) ↦
          rw (gave, make_client)
            (
              everywhere (Fine none (some c)) i (returned c) s.calls refl (λ j other.
                  left s.client_lock s.client (some c) i j (s.calls j) mine other
                    (λ c' e. absurd (cc (absent, e))) (h j)),
              λ c' e. absurd (cc (absent, e)),
            )
    ]

    go_on-Kept :
        (i : ℕ) (call : CallState W)
        → Fine s.client_lock s.client i call
        → Kept (go_on make i call s)
    go_on-Kept i waiting fine = enter-Kept i
    go_on-Kept i entered fine = test-Kept i fine
    go_on-Kept i making fine = make-Kept i fine.0 fine.1
    go_on-Kept i (returned c) fine = (h, λ c e. e)
    go_on-Kept i (threw e) fine = (h, λ c e. e)

    turn-Kept : (turn : Turn W) → Kept (take_turn make turn s)
    turn-Kept (thread i) = go_on-Kept i (s.calls i) (h i)
    turn-Kept (others change) = (h, λ c e. e)

  module _ (make : Exec W (Client W)) where
    pub run-Kept :
        (turns : List (Turn W)) (s : SharedTransaction W) (h : Invariant s)
        → Kept make s h (run_turns make turns s)
    unfolding run_turns
    run-Kept [] s h = (h, λ c e. e)
    run-Kept (turn ∷ turns) s h =
        let (h1, keeps1) = turn-Kept make s h turn in
        let (h2, keeps2) = run-Kept turns (take_turn make turn s) h1 in
        (h2, λ c e. keeps2 c (keeps1 c e))

    -- A call that has returned a client agrees with this one.
    abbrev pub Agrees : Client W → CallState W → Type 0
    Agrees c (returned d) = d ≡ c
    Agrees c _ = Unit

    -- A call that has returned a client: it is the one of the transaction, and every call that
    -- returns one, now or after more turns, agrees.
    abbrev pub Settles : SharedTransaction W → CallState W → Type 0
    Settles s (returned c) =
        (s.client ≡ some c)
        × ((more : List (Turn W)) (j : ℕ) → Agrees c ((run_turns make more s).calls j))
    Settles s _ = Unit

    agrees :
        (s : SharedTransaction W) (j : ℕ) (c : Client W) (call : CallState W)
        → s.client ≡ some c
        → Fine s.client_lock s.client j call
        → Agrees c call
    agrees s j c waiting e fine = tt
    agrees s j c entered e fine = tt
    agrees s j c making e fine = tt
    agrees s j c (returned d) e fine = some-injective d c (sym fine ∙ e)
    agrees s j c (threw x) e fine = tt

    pub settles :
        (s : SharedTransaction W) (i : ℕ) (call : CallState W)
        → Invariant s
        → Fine s.client_lock s.client i call
        → Settles s call
    settles s i waiting h fine = tt
    settles s i entered h fine = tt
    settles s i making h fine = tt
    settles s i (threw x) h fine = tt
    settles s i (returned c) h fine = (
      fine,
      λ more j.
          let s' = run_turns make more s in
          let (h', keeps) = run-Kept more s h in agrees s' j c (s'.calls j) (keeps c fine) (h' j),
    )
