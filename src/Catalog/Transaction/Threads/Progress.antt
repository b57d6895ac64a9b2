-- ===== src/Catalog/Transaction/Threads/Progress.antt =====
-- No call of GetClient is locked out: its lock is held by a thread that can go on.
use duckdb_google_calendar.Common.{
  ℕ, List, [], ◌∷◌, Bool, true, false, beq_refl, none, some, some-injective, Option-cases, subst,
  ◌==◌, nat_eq, ◌≡◌, refl, sym, inl, inr, Bool-cases,
}
use duckdb_google_calendar.Common.Except.{Exec, outcome_cases}
use duckdb_google_calendar.Resources.Base.{Client}
use duckdb_google_calendar.Catalog.Transaction.Threads.{
  CallState, waiting, entered, making, returned, threw, SharedTransaction, Turn, thread, others,
  set_call, enter, test_client, make_client, go_on, take_turn, run_turns,
}

module _ {W : Type 0} where
  -- The lock is held by a thread that is inside.
  abbrev is_inside : CallState W → Bool
  is_inside entered = true
  is_inside making = true
  is_inside _ = false

  abbrev pub Guarded : SharedTransaction W → Type 0
  Guarded s = (j : ℕ) → s.client_lock ≡ some j → is_inside (s.calls j) ≡ true

  module _ (make : Exec W (Client W)) (s : SharedTransaction W) (g : Guarded s) where
    set_inside :
        (i : ℕ) (call : CallState W)
        → is_inside call ≡ true
        → (j : ℕ) → is_inside (s.calls j) ≡ true
        → is_inside (set_call i call s.calls j) ≡ true
    set_inside i call inside j old = elim (Bool-cases (j == i)) [
      | inl same ↦ rw same inside
      | inr other ↦ rw other old
    ]

    go_on-Guarded : (i : ℕ) (call : CallState W) → Guarded (go_on make i call s)
    unfolding enter test_client make_client
    go_on-Guarded i waiting = elim (Option-cases s.client_lock) [
      | inr (holder, held) ↦ rw (held, enter) g
      | inl free ↦
          rw (free, enter)
            (λ j e. let same : i ≡ j = some-injective i j e in rw (← same) (rw (beq_refl i) refl))
    ]
    go_on-Guarded i entered = elim (Option-cases s.client) [
      | inr (c, there) ↦ rw (there, test_client) (λ j e. absurd (cc e))
      | inl absent ↦ rw (absent, test_client) (λ j e. set_inside i making refl j (g j e))
    ]
    go_on-Guarded i making = elim (outcome_cases (make s.world)) [
      | inl (e, w', failed) ↦ rw (failed, make_client) (λ j e. absurd (cc e))
      | inr (c, w', gave) ↦ rw (gave, make_client) (λ j e. absurd (cc e))
    ]
    go_on-Guarded i (returned c) = g
    go_on-Guarded i (threw e) = g

    turn-Guarded : (turn : Turn W) → Guarded (take_turn make turn s)
    turn-Guarded (thread i) = go_on-Guarded i (s.calls i)
    turn-Guarded (others change) = g

  module _ (make : Exec W (Client W)) where
    pub run-Guarded :
        (turns : List (Turn W)) (s : SharedTransaction W)
        → Guarded s
        → Guarded (run_turns make turns s)
    unfolding run_turns
    run-Guarded [] s g = g
    run-Guarded (turn ∷ turns) s g =
        run-Guarded turns (take_turn make turn s) (turn-Guarded make s g turn)

    abbrev pub is_done : CallState W → Bool
    is_done (returned c) = true
    is_done (threw e) = true
    is_done _ = false

    -- Some turns bring the call of a thread to its end.
    abbrev pub Completes : ℕ → SharedTransaction W → Type 0
    Completes i s = (turns : List (Turn W)) × (is_done ((run_turns make turns s).calls i) ≡ true)

    after_turn :
        (i j : ℕ) (call : CallState W) (s : SharedTransaction W)
        → s.calls j ≡ call
        → Completes i (go_on make j call s)
        → Completes i s
    unfolding run_turns
    after_turn i j call s e (turns, done) = (
      thread j ∷ turns,
      subst (λ c. is_done ((run_turns make turns (go_on make j c s)).calls i) ≡ true) (sym e) done,
    )

    done_now : (i : ℕ) (s : SharedTransaction W) → is_done (s.calls i) ≡ true → Completes i s
    unfolding run_turns
    done_now i s done = ([], done)

    making-Completes : (i : ℕ) (s : SharedTransaction W) → s.calls i ≡ making → Completes i s
    unfolding make_client
    making-Completes i s e = after_turn i i making s e (elim (outcome_cases (make s.world)) [
      | inl (x, w', failed) ↦ done_now i _ (rw (failed, make_client, beq_refl i) refl)
      | inr (c, w', gave) ↦ done_now i _ (rw (gave, make_client, beq_refl i) refl)
    ])

    entered-Completes : (i : ℕ) (s : SharedTransaction W) → s.calls i ≡ entered → Completes i s
    unfolding test_client
    entered-Completes i s e = after_turn i i entered s e (elim (Option-cases s.client) [
      | inr (c, there) ↦ done_now i _ (rw (there, test_client, beq_refl i) refl)
      | inl absent ↦ making-Completes i _ (rw (absent, test_client, beq_refl i) refl)
    ])

    free-Completes :
        (i : ℕ) (s : SharedTransaction W)
        → s.calls i ≡ waiting
        → s.client_lock ≡ none
        → Completes i s
    unfolding enter
    free-Completes i s e free =
        after_turn i i waiting s e (entered-Completes i _ (rw (free, enter, beq_refl i) refl))

    -- Another thread is inside, and leaves.
    behind_making :
        (i h : ℕ) (s : SharedTransaction W)
        → (i == h) ≡ false
        → s.calls i ≡ waiting
        → s.calls h ≡ making
        → Completes i s
    unfolding make_client
    behind_making i h s other e inside =
        after_turn i h making s inside (elim (outcome_cases (make s.world)) [
          | inl (x, w', failed) ↦
              free-Completes i _ (rw (failed, make_client, other) e) (rw (failed, make_client) refl)
          | inr (c, w', gave) ↦
              free-Completes i _ (rw (gave, make_client, other) e) (rw (gave, make_client) refl)
        ])

    behind :
        (i h : ℕ) (s : SharedTransaction W) (call : CallState W)
        → (i == h) ≡ false
        → s.calls i ≡ waiting
        → s.calls h ≡ call
        → is_inside call ≡ true
        → Completes i s
    unfolding test_client
    behind i h s waiting other e there inside = absurd cc
    behind i h s entered other e there inside =
        after_turn i h entered s there (elim (Option-cases s.client) [
          | inr (c, set) ↦
              free-Completes i _ (rw (set, test_client, other) e) (rw (set, test_client) refl)
          | inl absent ↦
              behind_making i h _ other (rw (absent, test_client, other) e)
                (rw (absent, test_client, beq_refl h) refl)
        ])
    behind i h s making other e there inside = behind_making i h s other e there
    behind i h s (returned c) other e there inside = absurd cc
    behind i h s (threw x) other e there inside = absurd cc

    waiting-Completes :
        (i : ℕ) (s : SharedTransaction W) → Guarded s → s.calls i ≡ waiting → Completes i s
    waiting-Completes i s g e = elim (Option-cases s.client_lock) [
      | inl free ↦ free-Completes i s e free
      | inr (h, held) ↦ elim (Bool-cases (i == h)) [
        | inr other ↦ behind i h s (s.calls h) other e refl (g h held)
        | inl same ↦
            let here : i ≡ h = (nat_eq.beq_iff i h).0 same in
            let inside : is_inside (s.calls i) ≡ true =
              subst (λ k. is_inside (s.calls k) ≡ true) (sym here) (g h held) in
            let clash : is_inside waiting ≡ true = subst (λ c. is_inside c ≡ true) e inside in
            absurd cc
      ]
    ]

    pub each-Completes :
        (i : ℕ) (s : SharedTransaction W) (call : CallState W)
        → Guarded s
        → s.calls i ≡ call
        → Completes i s
    each-Completes i s waiting g e = waiting-Completes i s g e
    each-Completes i s entered g e = entered-Completes i s e
    each-Completes i s making g e = making-Completes i s e
    each-Completes i s (returned c) g e = done_now i s (rw e refl)
    each-Completes i s (threw x) g e = done_now i s (rw e refl)
