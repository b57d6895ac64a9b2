-- ===== src/Catalog/Load/Seen.antt =====
-- The ids that were seen, and the check of the aliases.
use duckdb_google_calendar.Common.{
  List, [], ◌∷◌, Bool, true, false, ◌||◌, Bytes, bytes_eq, ◌≡◌, refl, ◌∙◌, ◌⊎◌, arith, Bool-cases,
  inl, inr, sym, All,
}
use duckdb_google_calendar.Common.Except.{ok, throw, invalid_input}
use duckdb_google_calendar.Resources.CalendarList.{CalendarListEntry}
use duckdb_google_calendar.Catalog.{same_key, mark_created, was_created}
use duckdb_google_calendar.Catalog.Load.{Aliases, add_names, load_entries, check_aliases}
use duckdb_google_calendar.Catalog.Load.Tables.{key_path, differ, loaded, load_step}
use duckdb_google_calendar.Catalog.Load.Names.{names_of}

-- The id of one of the aliases.
abbrev pub Target : Bytes → Aliases → Type 0
Target id [] = ⊥
Target id (p ∷ asked) = (id ≡ p.1) ⊎ Target id asked

module _ (fold : Bytes → Bytes) where
  -- The id is that of a listed calendar.
  abbrev pub Listed : Bytes → List CalendarListEntry → Type 0
  Listed id [] = ⊥
  Listed id (cal ∷ cals) = (fold id ≡ fold cal.id) ⊎ Listed id cals

  abbrev pub Known : Aliases → List CalendarListEntry → Type 0
  Known asked cals = All (λ p. Listed p.1 cals) asked

  was_created_fold :
      (a b : Bytes) (seen : List Bytes)
      → fold a ≡ fold b
      → was_created fold a seen ≡ was_created fold b seen
  unfolding was_created
  was_created_fold a b [] h = refl
  was_created_fold a b (c ∷ seen) h = rw (h, was_created_fold a b seen h) refl

  was_created-mark :
      (id new : Bytes) (seen : List Bytes)
      → was_created fold id (mark_created fold new seen)
        ≡ (same_key fold id new || was_created fold id seen)
  unfolding mark_created was_created
  was_created-mark id new seen = elim (Bool-cases (was_created fold new seen)) [
    | inr absent ↦ rw (absent, mark_created) refl
    | inl there ↦ elim (Bool-cases (same_key fold id new)) [
      | inl same ↦
          rw (there, same, mark_created)
            (was_created_fold id new seen (key_path fold id new same) ∙ there)
      | inr other ↦ rw (there, other, mark_created) refl
    ]
  ]

  module _ (aliases : Aliases) where
    bools_apart : true ≡ false → ⊥
    bools_apart h = ground arith

    abbrev Seen : Bytes → List CalendarListEntry → List Bytes → Bool → Type 0
    Seen id cals seen true = (was_created fold id seen ≡ true) ⊎ Listed id cals
    Seen id cals seen false = (was_created fold id seen ≡ false) × (Listed id cals → ⊥)

    Seen-step :
        (id : Bytes) (cal : CalendarListEntry) (cals : List CalendarListEntry) (seen : List Bytes)
        (b : Bool)
        → Seen id cals (mark_created fold cal.id seen) b
        → Seen id (cal ∷ cals) seen b
    Seen-step id cal cals seen true (inr later) = inr (inr later)
    Seen-step id cal cals seen true (inl h) = elim (Bool-cases (same_key fold id cal.id)) [
      | inl same ↦ inr (inl (key_path fold id cal.id same))
      | inr other ↦ inl (rw other at (sym (was_created-mark id cal.id seen) ∙ h))
    ]
    Seen-step id cal cals seen false (h, not_later) = elim (Bool-cases (same_key fold id cal.id)) [
      | inl same ↦ absurd (bools_apart (rw same at (sym (was_created-mark id cal.id seen) ∙ h)))
      | inr other ↦ (
        rw other at (sym (was_created-mark id cal.id seen) ∙ h),
        λ l. elim l [ inl p ↦ differ fold id cal.id other p | inr later ↦ not_later later ],
      )
    ]

    load-Seen :
        (id : Bytes) (cals : List CalendarListEntry) (tables : List (Bytes × Bytes))
        (seen : List Bytes)
        → Seen id cals seen (was_created fold id (loaded fold aliases cals (tables, seen)).1)
    unfolding load_entries
    load-Seen id [] tables seen = go (was_created fold id seen) refl
      where
        go : (b : Bool) → was_created fold id seen ≡ b → Seen id [] seen b
        go true h = inl h
        go false h = (h, λ l. l)
    load-Seen id (cal ∷ cals) tables seen = rw (load_step fold aliases cal cals tables seen) (
        Seen-step id cal cals seen _ (
          load-Seen id cals (add_names fold cal.id (names_of fold cal.id aliases) tables)
            (mark_created fold cal.id seen)))

    -- The check of the aliases.
    pub check_cases :
        (asked : Aliases) (cals : List CalendarListEntry) (tables : List (Bytes × Bytes))
        → (let checked = check_aliases fold asked (loaded fold aliases cals (tables, [])).1 in
            (Known asked cals × (checked ≡ ok tt))
            ⊎ ((id : Bytes) × Target id asked
                × (Listed id cals → ⊥)
                × (checked
                    ≡ throw (
                        invalid_input "calendar_aliases refers to unknown calendar ID \"%s\""
                          (id ∷ [])))))
    unfolding check_aliases was_created
    check_cases [] cals tables = inl (tt, refl)
    check_cases ((alias, id) ∷ asked) cals tables =
        elim (Bool-cases (was_created fold id (loaded fold aliases cals (tables, [])).1)) [
          | inr no_id ↦
              rw (no_id, check_aliases)
                (inr (id, inl refl, (rw no_id at (load-Seen id cals tables [])).1, refl))
          | inl yes_id ↦ elim (rw yes_id at (load-Seen id cals tables [])) [
            | inl before ↦ absurd (bools_apart (sym before))
            | inr listed ↦ elim (check_cases asked cals tables) [
              | inl (known, fine) ↦ rw (yes_id, check_aliases) (inl ((listed, known), fine))
              | inr (bad, target, unlisted, threw) ↦
                  rw (yes_id, check_aliases) (inr (bad, inr target, unlisted, threw))
            ]
          ]
        ]
