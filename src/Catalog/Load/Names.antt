-- ===== src/Catalog/Load/Names.antt =====
-- The names of the tables of a calendar: its aliases in their order, or else its id.
use duckdb_google_calendar.Common.{
  List, [], ◌∷◌, ◌++◌, append_assoc, append-nil, true, false, Bytes, Option, none, some, bytes_eq,
  bytes_beq_iff, if◌then◌else◌, ◌≡◌, refl, ◌∙◌, arith, Bool-cases, inl, inr, sym,
}
use duckdb_google_calendar.Catalog.{same_key}
use duckdb_google_calendar.Catalog.Load.{Aliases, push_alias, invert, find_names, table_names}

module _ (fold : Bytes → Bytes) where
  -- The aliases of an id, and the names that its calendar is to have.
  abbrev pub aliases_of : Bytes → Aliases → List Bytes
  aliases_of id [] = []
  aliases_of id ((alias, i) ∷ aliases) =
      let rest = aliases_of id aliases in if same_key fold id i then alias ∷ rest else rest

  abbrev pub or_id : Bytes → List Bytes → List Bytes
  or_id id [] = id ∷ []
  or_id id (name ∷ names) = name ∷ names

  abbrev pub names_of : Bytes → Aliases → List Bytes
  names_of id aliases = or_id id (aliases_of id aliases)

  abbrev key_path : (a b : Bytes) → same_key fold a b ≡ true → fold a ≡ fold b
  key_path a b h = (bytes_eq.beq_iff (fold a) (fold b)).0 h

  -- More names behind those that are there.
  abbrev extend : Option (List Bytes) → List Bytes → Option (List Bytes)
  extend none [] = none
  extend none (name ∷ names) = some (name ∷ names)
  extend (some old) names = some (old ++ names)

  find-push_same :
      (id i alias : Bytes) (by_id : List (Bytes × List Bytes))
      → fold id ≡ fold i
      → find_names fold id (push_alias fold i alias by_id)
        ≡ extend (find_names fold id by_id) (alias ∷ [])
  unfolding find_names push_alias
  find-push_same id i alias [] h = ground (arith, bytes_beq_iff (fold id) (fold i))
  find-push_same id i alias ((j, names) ∷ by_id) h = elim (Bool-cases (same_key fold i j)) [
    | inl here ↦
        let there : same_key fold id j ≡ true = rw h here in
        rw (here, there, push_alias, find_names) refl
    | inr other ↦
        let there : same_key fold id j ≡ false = rw h other in
        rw (other, there, push_alias, find_names) (find-push_same id i alias by_id h)
  ]

  find-push_other :
      (id i alias : Bytes) (by_id : List (Bytes × List Bytes))
      → same_key fold id i ≡ false
      → find_names fold id (push_alias fold i alias by_id) ≡ find_names fold id by_id
  unfolding find_names push_alias
  find-push_other id i alias [] h = rw h refl
  find-push_other id i alias ((j, names) ∷ by_id) h = elim (Bool-cases (same_key fold i j)) [
    | inl here ↦
        let there : same_key fold id j ≡ false = rw (← (key_path i j here)) h in
        rw (here, there, push_alias, find_names) refl
    | inr other ↦ elim (Bool-cases (same_key fold id j)) [
      | inl there ↦ rw (other, there, push_alias, find_names) refl
      | inr apart ↦ rw (other, apart, push_alias, find_names) (find-push_other id i alias by_id h)
    ]
  ]

  extend_twice :
      (o : Option (List Bytes)) (name : Bytes) (names : List Bytes)
      → extend (extend o (name ∷ [])) names ≡ extend o (name ∷ names)
  extend_twice none name [] = refl
  extend_twice none name (n ∷ names) = refl
  extend_twice (some old) name names = rw (append_assoc old (name ∷ []) names) refl

  extend_nil : (o : Option (List Bytes)) → extend o [] ≡ o
  extend_nil none = refl
  extend_nil (some old) = rw (append-nil old) refl

  find-invert :
      (id : Bytes) (aliases : Aliases) (by_id : List (Bytes × List Bytes))
      → find_names fold id (invert fold aliases by_id)
        ≡ extend (find_names fold id by_id) (aliases_of id aliases)
  unfolding invert
  find-invert id [] by_id = sym (extend_nil (find_names fold id by_id))
  find-invert id ((alias, i) ∷ aliases) by_id = elim (Bool-cases (same_key fold id i)) [
    | inl same ↦ rw same (
        find-invert id aliases (push_alias fold i alias by_id)
        ∙ rw (find-push_same id i alias by_id (key_path id i same))
            (extend_twice (find_names fold id by_id) alias (aliases_of id aliases)))
    | inr other ↦ rw other (
        find-invert id aliases (push_alias fold i alias by_id)
        ∙ rw (find-push_other id i alias by_id other) refl)
  ]

  pub table_names-invert :
      (id : Bytes) (aliases : Aliases)
      → table_names fold (invert fold aliases []) id ≡ names_of id aliases
  unfolding table_names find_names
  table_names-invert id aliases =
      rw (find-invert id aliases [], table_names) (go (aliases_of id aliases))
    where
      go :
          (names : List Bytes)
          → elim (extend (find_names fold id []) names) [ none ↦ id ∷ [] | some names ↦ names ]
            ≡ or_id id names
      go [] = refl
      go (n ∷ names) = refl
