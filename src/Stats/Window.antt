-- ===== src/Stats/Window.antt =====
-- `MovingAverageMonitor` of src/vllm_router/stats/request_stats.py: values in a sliding window.
use vllm_production_stack_cu.Base.{
  ◌+◌, ◌∙◌, ◌≡◌, refl, ap, Bool, false, not, List, [], ◌∷◌, ◌++◌, length, filter, All, Bool-cases,
  inl, inr, arith, is_empty, if◌then◌else◌,
}
use vllm_production_stack_cu.Base.Floats.{Floats, IsOrdered}

-- the list after `popleft`
abbrev pub tail {ℓ} : {A : Type ℓ} → List A → List A
tail [] = []
tail (x ∷ xs) = xs

module _ (fl : Floats) where
  open fl use {F, lt, add, sub, div, of_ℕ, minus_one}

  pub record Window : Type 0 where
    pub sliding_window_size : F
    pub timestamps : List F
    pub values : List F

  unfoldable pub new_window : F → Window
  new_window size = record { sliding_window_size = size; timestamps = []; values = [] }

  -- The `while` loop of both updates: both deques lose their first element together. That `values`
  -- has one whenever `timestamps` has is the invariant `IsAligned`.
  unfoldable pub expire : F → List F → List F → List F × List F
  expire limit [] values = ([], values)
  expire limit (t ∷ timestamps) values =
      let rest = expire limit timestamps (tail values) in
      if lt t limit then rest else (t ∷ timestamps, values)

  unfoldable pub update_no_value : F → Window → Window
  update_no_value timestamp w =
      let (timestamps, values) =
        expire (sub timestamp w.sliding_window_size) w.timestamps w.values in
      record w { timestamps = timestamps; values = values }

  -- the two appends, and then the same loop
  unfoldable pub update : F → F → Window → Window
  unfolding update_no_value
  update timestamp value w =
      update_no_value timestamp
        (record w { timestamps = w.timestamps ++ timestamp ∷ []; values = w.values ++ value ∷ [] })

  -- sum(values), from the left
  unfoldable pub sum_from : F → List F → F
  sum_from acc [] = acc
  sum_from acc (v ∷ values) = sum_from (add acc v) values

  unfoldable pub get_sum : Window → F
  unfolding sum_from
  get_sum w = sum_from (of_ℕ 0) w.values

  unfoldable pub get_average : Window → F
  unfolding sum_from
  get_average w =
      if is_empty w.values
      then minus_one
      else div (sum_from (of_ℕ 0) w.values) (of_ℕ (length w.values))

  abbrev pub IsAligned : Window → Type 0
  IsAligned w = length w.timestamps ≡ length w.values

  -- the data points in the window, with their times
  abbrev pub points : List F → List F → List (F × F)
  points [] values = []
  points (t ∷ timestamps) [] = []
  points (t ∷ timestamps) (v ∷ values) = (t, v) ∷ points timestamps values

  -- no time is before an earlier one
  abbrev pub IsAscending : List F → Type 0
  IsAscending [] = Unit
  IsAscending (t ∷ timestamps) = All (λ u. lt u t ≡ false) timestamps × IsAscending timestamps

  abbrev pub is_recent : F → F × F → Bool
  is_recent limit p = not (lt p.0 limit)

  expire-aligned :
      (limit : F) (ts vs : List F)
      → length ts ≡ length vs
      → length (expire limit ts vs).0 ≡ length (expire limit ts vs).1
  unfolding expire
  expire-aligned limit [] vs e = e
  expire-aligned limit (t ∷ ts) [] e = absurd (omega arith)
  expire-aligned limit (t ∷ ts) (v ∷ vs) e = ground (arith, expire-aligned limit ts vs)

  length-snoc : (xs : List F) (x : F) → length (xs ++ x ∷ []) ≡ length xs + 1
  length-snoc [] x = refl
  length-snoc (y ∷ xs) x = omega (arith, length-snoc xs x)

  -- Both updates keep the two deques at one length.
  pub update-IsAligned :
      (timestamp value : F) (w : Window) → IsAligned w → IsAligned (update timestamp value w)
  unfolding update
  update-IsAligned timestamp value w e =
      expire-aligned _ (w.timestamps ++ timestamp ∷ []) (w.values ++ value ∷ [])
        (omega (arith, length-snoc w.timestamps timestamp, length-snoc w.values value))

  pub update_no_value-IsAligned :
      (timestamp : F) (w : Window) → IsAligned w → IsAligned (update_no_value timestamp w)
  unfolding update_no_value
  update_no_value-IsAligned timestamp w e = expire-aligned _ w.timestamps w.values e

  points-snoc :
      (ts vs : List F) (t v : F)
      → length ts ≡ length vs
      → points (ts ++ t ∷ []) (vs ++ v ∷ []) ≡ points ts vs ++ (t, v) ∷ []
  points-snoc [] [] t v e = refl
  points-snoc [] (x ∷ vs) t v e = absurd (omega arith)
  points-snoc (s ∷ ts) [] t v e = absurd (omega arith)
  points-snoc (s ∷ ts) (x ∷ vs) t v e = ap (◌∷◌ (s, x)) (points-snoc ts vs t v (omega arith))

  module _ (law : IsOrdered fl) where
    recent_later : (limit t u : F) → lt t limit ≡ false → lt u t ≡ false → lt u limit ≡ false
    recent_later limit t u p q = elim (Bool-cases (lt u limit)) [
      | inl x ↦ elim (law.cotrans u t limit x) [ inl y ↦ cc | inr y ↦ cc ]
      | inr x ↦ x
    ]

    All-recent :
        (limit t : F) (ts vs : List F)
        → lt t limit ≡ false
        → All (λ u. lt u t ≡ false) ts
        → filter (is_recent limit) (points ts vs) ≡ points ts vs
    All-recent limit t [] vs p h = refl
    All-recent limit t (u ∷ ts) [] p h = refl
    All-recent limit t (u ∷ ts) (v ∷ vs) p h =
        ground (arith, recent_later limit t u p h.0, All-recent limit t ts vs p h.1)

    expire-filter :
        (limit : F) (ts vs : List F)
        → length ts ≡ length vs
        → IsAscending ts
        → points (expire limit ts vs).0 (expire limit ts vs).1
          ≡ filter (is_recent limit) (points ts vs)
    unfolding expire
    expire-filter limit [] vs e a = refl
    expire-filter limit (t ∷ ts) [] e a = absurd (omega arith)
    expire-filter limit (t ∷ ts) (v ∷ vs) e a = elim (Bool-cases (lt t limit)) [
      | inl old ↦ ground (arith, expire-filter limit ts vs (omega arith) a.1)
      | inr new ↦ ground (arith, All-recent limit t ts vs new a.0)
    ]

    -- With floats in order, as many values as times and times that do not go back, an update leaves
    -- exactly the data points, the new one among them, that are not older than the window at its
    -- time.
    pub update-filter :
        (timestamp value : F) (w : Window)
        → IsAligned w
        → IsAscending (w.timestamps ++ timestamp ∷ [])
        → points (update timestamp value w).timestamps (update timestamp value w).values
          ≡ filter
              (is_recent (sub timestamp w.sliding_window_size))
              (points w.timestamps w.values ++ (timestamp, value) ∷ [])
    unfolding update
    update-filter timestamp value w e a =
        expire-filter (sub timestamp w.sliding_window_size) (w.timestamps ++ timestamp ∷ [])
          (w.values ++ value ∷ [])
          (omega (arith, length-snoc w.timestamps timestamp, length-snoc w.values value)) a
        ∙ ap (filter (is_recent (sub timestamp w.sliding_window_size)))
            (points-snoc w.timestamps w.values timestamp value e)
