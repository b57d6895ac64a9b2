-- ===== src/Scan/Filter/Bounds.antt =====
-- No event is lost by the bounds that the filters are turned into: an event whose `start` satisfies
-- the filters lies inside them.
use duckdb_google_calendar.Common.{
  ◌-◌, Option, none, some, true, ◌≡◌, refl, sym, inl, inr, ◌≢◌, Bool-cases, arith, subst, ap,
}
use duckdb_google_calendar.Common.Int.{ℤ, pos, negsuc, ◌+ℤ◌, ◌≤ℤ◌, Fits, limit64, wrap-Fits}
use duckdb_google_calendar.Sql.{SqlLib}
use duckdb_google_calendar.Scan.Filter.{
  Expression, Expressions, conjunction_and, between, comparison, column_ref, other, nil, cons,
  ExpressionType, compare_greaterthan, compare_greaterthanorequalto, compare_lessthan,
  compare_lessthanorequalto, compare_equal, compare_notequal, LogicalGet, BindData, one_day_micros,
  flip_comparison, is_start_column, time_text, format_with_buffer, try_fold_timestamp,
  apply_lower_bound, apply_upper_bound, if_folded, apply_comparison, extract_between,
  extract_comparison, extract_time_bound, extract_children, is_bounding,
}

-- What SQL says of a comparison of two instants. `none` is NULL, on which no comparison holds.
abbrev pub Compares : ExpressionType → Option ℤ → Option ℤ → Type 0
Compares op none b = ⊥
Compares op (some a) none = ⊥
Compares compare_greaterthan (some a) (some b) = (b ≤ℤ a) × (a ≢ b)
Compares compare_greaterthanorequalto (some a) (some b) = b ≤ℤ a
Compares compare_lessthan (some a) (some b) = (a ≤ℤ b) × (a ≢ b)
Compares compare_lessthanorequalto (some a) (some b) = a ≤ℤ b
Compares compare_equal (some a) (some b) = a ≡ b
Compares compare_notequal (some a) (some b) = a ≢ b

-- Whether a row satisfies a filter, from the instants that its expressions have on the row. Of a
-- filter of another kind nothing is known.
module _ (value : Expression → Option ℤ) where
  unfoldable mutual
    pub Holds : Expression → Type 0
    Holds (conjunction_and es) = HoldAll es
    Holds (between e lower upper) =
        Compares compare_greaterthanorequalto (value e) (value lower)
        × Compares compare_lessthanorequalto (value e) (value upper)
    Holds (comparison op left right) = Compares op (value left) (value right)
    Holds (column_ref i) = Unit
    Holds (other i) = Unit

    pub HoldAll : Expressions → Type 0
    HoldAll nil = Unit
    HoldAll (cons e es) = Holds e × HoldAll es

module _ (S : SqlLib) (evaluate : Expression → Option S.Value) (get : LogicalGet) where
  -- The instants a day before and a day after fit into 64 bits. Those of `infinity` and `-infinity` do
  -- not.
  abbrev pub Near : S.Value → Type 0
  Near v =
      Fits limit64 (S.get_timestamp_tz v +ℤ negsuc (one_day_micros - 1))
      × Fits limit64 (S.get_timestamp_tz v +ℤ pos one_day_micros)

  format-Fits :
      (v : S.Value) (d : ℤ)
      → Fits limit64 (S.get_timestamp_tz v +ℤ d)
      → format_with_buffer S v d ≡ time_text S (S.get_timestamp_tz v +ℤ d)
  unfolding format_with_buffer
  format-Fits v d fits = ap (time_text S) (wrap-Fits (S.get_timestamp_tz v +ℤ d) fits)

  -- The instant lies inside the bounds that are set: each is the text of a time that is a day
  -- further out than an instant on its side of it.
  abbrev pub Covers : ℤ → BindData → Type 0
  Covers t b =
      (b.has_lower ≡ true
        → (x : ℤ) × (b.time_min ≡ time_text S (x +ℤ negsuc (one_day_micros - 1))) × (x ≤ℤ t))
      × (b.has_upper ≡ true
          → (x : ℤ) × (b.time_max ≡ time_text S (x +ℤ pos one_day_micros)) × (t ≤ℤ x))

  lower_lem :
      (t : ℤ) (v : S.Value) (b : BindData)
      → Near v
      → S.get_timestamp_tz v ≤ℤ t
      → Covers t b
      → Covers t (apply_lower_bound S evaluate get v b)
  unfolding apply_lower_bound
  lower_lem t v b near le (low, high) =
      ((λ _. (S.get_timestamp_tz v, format-Fits v _ near.0, le)), high)

  upper_lem :
      (t : ℤ) (v : S.Value) (b : BindData)
      → Near v
      → t ≤ℤ S.get_timestamp_tz v
      → Covers t b
      → Covers t (apply_upper_bound S evaluate get v b)
  unfolding apply_upper_bound
  upper_lem t v b near le (low, high) =
      (low, (λ _. (S.get_timestamp_tz v, format-Fits v _ near.1, le)))

  le_self : (a b : ℤ) → a ≡ b → a ≤ℤ b
  le_self a b e = rw e (omega arith)

  comparison_lem :
      (op : ExpressionType) (t : ℤ) (v : S.Value) (b : BindData)
      → Near v
      → Compares op (some t) (some (S.get_timestamp_tz v))
      → Covers t b
      → Covers t (apply_comparison S evaluate get op v b)
  unfolding apply_comparison
  comparison_lem compare_greaterthan t v b near h c = lower_lem t v b near h.0 c
  comparison_lem compare_greaterthanorequalto t v b near h c = lower_lem t v b near h c
  comparison_lem compare_lessthan t v b near h c = upper_lem t v b near h.0 c
  comparison_lem compare_lessthanorequalto t v b near h c = upper_lem t v b near h c
  comparison_lem compare_equal t v b near h c =
      upper_lem t v _ near (le_self _ _ h) (lower_lem t v b near (le_self _ _ (sym h)) c)
  comparison_lem compare_notequal t v b near h c = c

  flip_lem :
      (op : ExpressionType) (x y : ℤ)
      → Compares op (some x) (some y)
      → Compares (flip_comparison op) (some y) (some x)
  unfolding flip_comparison
  flip_lem compare_greaterthan x y (h, ne) = (h, λ e. ne (sym e))
  flip_lem compare_greaterthanorequalto x y h = h
  flip_lem compare_lessthan x y (h, ne) = (h, λ e. ne (sym e))
  flip_lem compare_lessthanorequalto x y h = h
  flip_lem compare_equal x y h = sym h
  flip_lem compare_notequal x y h = λ e. h (sym e)

  folded_lem :
      (t : ℤ) (expr : Expression) (apply : S.Value → BindData → BindData) (b : BindData)
      → ((v : S.Value) → try_fold_timestamp S evaluate get expr ≡ some v → Covers t (apply v b))
      → Covers t b
      → Covers t (if_folded S evaluate get expr apply b)
  unfolding if_folded
  folded_lem t expr apply b h c = go (try_fold_timestamp S evaluate get expr) h
    where
      go :
          (o : Option S.Value)
          → ((v : S.Value) → o ≡ some v → Covers t (apply v b))
          → Covers t (elim o [ none ↦ b | some ts ↦ apply ts b ])
      go none h = c
      go (some v) h = h v refl

  -- A row: the instant of each expression on it, of which the column `start` has `t`, and a constant
  -- has the one that it folds to.
  module _ (value : Expression → Option ℤ) (t : ℤ)
      (starts : (e : Expression) → is_start_column get e ≡ true → value e ≡ some t)
      (folds : (e : Expression) (v : S.Value)
        → try_fold_timestamp S evaluate get e ≡ some v
        → value e ≡ some (S.get_timestamp_tz v))
      (near : (e : Expression) (v : S.Value)
        → try_fold_timestamp S evaluate get e ≡ some v
        → Near v) where
    at_row :
        (op : ExpressionType) (e : Expression) (side : Expression) (v : S.Value)
        → is_start_column get e ≡ true
        → try_fold_timestamp S evaluate get side ≡ some v
        → Compares op (value e) (value side)
        → Compares op (some t) (some (S.get_timestamp_tz v))
    at_row op e side v s f h =
        subst (λ y. Compares op (some t) y) (folds side v f)
          (subst (λ x. Compares op x (value side)) (starts e s) h)

    at_row_flipped :
        (op : ExpressionType) (e : Expression) (side : Expression) (v : S.Value)
        → is_start_column get e ≡ true
        → try_fold_timestamp S evaluate get side ≡ some v
        → Compares op (value side) (value e)
        → Compares (flip_comparison op) (some t) (some (S.get_timestamp_tz v))
    at_row_flipped op e side v s f h = flip_lem op _ _ (
        subst (λ y. Compares op (some (S.get_timestamp_tz v)) y) (starts e s)
          (subst (λ x. Compares op x (value e)) (folds side v f) h))

    between_lem :
        (e lower upper : Expression) (b : BindData)
        → Compares compare_greaterthanorequalto (value e) (value lower)
        → Compares compare_lessthanorequalto (value e) (value upper)
        → Covers t b
        → Covers t (extract_between S evaluate get e lower upper b)
    unfolding extract_between
    between_lem e lower upper b low high c = elim (Bool-cases (is_start_column get e)) [
      | inr no_start ↦ rw no_start c
      | inl start ↦ rw start (
          folded_lem t upper (apply_upper_bound S evaluate get) _
            (λ v f.
              upper_lem t v _ (near upper v f)
                (at_row compare_lessthanorequalto e upper v start f high) (lower_part start))
            (lower_part start))
    ]
      where
        lower_part :
            is_start_column get e ≡ true
            → Covers t (if_folded S evaluate get lower (apply_lower_bound S evaluate get) b)
        lower_part start =
            folded_lem t lower (apply_lower_bound S evaluate get) b
              (λ v f.
                lower_lem t v b (near lower v f)
                  (at_row compare_greaterthanorequalto e lower v start f low) c)
              c

    side_lem :
        (op : ExpressionType) (left right : Expression) (b : BindData)
        → Compares op (value left) (value right)
        → Covers t b
        → Covers t (extract_comparison S evaluate get op left right b)
    unfolding extract_comparison
    side_lem op left right b h c = elim (Bool-cases (is_bounding op)) [
      | inr no_bound ↦ rw no_bound c
      | inl bound ↦ elim (Bool-cases (is_start_column get left)) [
        | inl here ↦
            rw (bound, here)
              (folded_lem t right (apply_comparison S evaluate get op) b
                (λ v f.
                  comparison_lem op t v b (near right v f) (at_row op left right v here f h) c)
                c)
        | inr not_left ↦ elim (Bool-cases (is_start_column get right)) [
          | inr nowhere ↦ rw (bound, not_left, nowhere) c
          | inl there ↦
              rw (bound, not_left, there)
                (folded_lem t left (apply_comparison S evaluate get (flip_comparison op)) b
                  (λ v f.
                    comparison_lem (flip_comparison op) t v b (near left v f)
                      (at_row_flipped op right left v there f h) c)
                  c)
        ]
      ]
    ]

    mutual
      unfolding extract_time_bound Holds

      extract_lem :
          (e : Expression) (b : BindData)
          → Holds value e
          → Covers t b
          → Covers t (extract_time_bound S evaluate get e b)
      extract_lem (conjunction_and es) b h c = children_lem es b h c
      extract_lem (between e lower upper) b h c = between_lem e lower upper b h.0 h.1 c
      extract_lem (comparison op left right) b h c = side_lem op left right b h c
      extract_lem (column_ref i) b h c = c
      extract_lem (other i) b h c = c

      children_lem :
          (es : Expressions) (b : BindData)
          → HoldAll value es
          → Covers t b
          → Covers t (extract_children S evaluate get es b)
      children_lem nil b h c = c
      children_lem (cons e es) b h c = children_lem es _ h.1 (extract_lem e b h.0 c)
