-- ===== src/Usage/Merged.antt =====
-- What the merged intervals measure (`merged_intervals` and `occupied_seconds` of
-- backend/app/services/usage_service.py).
use nebula_grid.Base.{
  ℕ, zero, suc, ◌+◌, ◌-◌, ◌*◌, ◌≤◌, ◌<◌, ◌≡◌, refl, sym, ap, ◌∙◌, max, min, inl, inr, true, false,
  ◌||◌, ◌&&◌, List, [], ◌∷◌, ltb, leb, All, arith, Bool-cases,
}
use nebula_grid.Base.Table.{sort_by, insert_sorted}
use nebula_grid.Base.Table.Laws.{any-sort_by}
use nebula_grid.Usage.{
  Interval, tuple_before, merge_from, merge_sorted, merged_intervals, occupied_seconds, day,
  daily_seconds, sum,
}
use nebula_grid.Usage.Instants.{
  is_within, is_occupied, instants, instants-interval, instants-cong, instants-or, instants-none,
}

abbrev StartFrom : ℕ → List Interval → Type 0
StartFrom n xs = All (λ i. n ≤ i.start) xs

StartFrom-le : (m n : ℕ) (xs : List Interval) → m ≤ n → StartFrom n xs → StartFrom m xs
StartFrom-le m n [] le h = tt
StartFrom-le m n (x ∷ xs) le h = (omega (arith, le, h.0), StartFrom-le m n xs le h.1)

IsOrdered : List Interval → Type 0
IsOrdered [] = Unit
IsOrdered (x ∷ xs) = StartFrom x.start xs × IsOrdered xs

insert_sorted-StartFrom :
    (n : ℕ) (a : Interval) (xs : List Interval)
    → n ≤ a.start
    → StartFrom n xs
    → StartFrom n (insert_sorted tuple_before a xs)
unfolding insert_sorted
insert_sorted-StartFrom n a [] le h = (le, tt)
insert_sorted-StartFrom n a (x ∷ xs) le h = elim (Bool-cases (tuple_before x a)) [
  | inl e ↦ rw (e, insert_sorted) (h.0, insert_sorted-StartFrom n a xs le h.1)
  | inr e ↦ rw (e, insert_sorted) (le, h)
]

insert_sorted-IsOrdered :
    (a : Interval) (xs : List Interval) → IsOrdered xs → IsOrdered (insert_sorted tuple_before a xs)
unfolding IsOrdered insert_sorted
insert_sorted-IsOrdered a [] h = (tt, tt)
insert_sorted-IsOrdered a (x ∷ xs) h = elim (Bool-cases (tuple_before x a)) [
  | inl e ↦
      rw (e, insert_sorted)
        (
          insert_sorted-StartFrom x.start a xs (ground (arith, e)) h.0,
          insert_sorted-IsOrdered a xs h.1,
        )
  | inr e ↦
      let le : a.start ≤ x.start = ground (arith, e) in
      rw (e, insert_sorted) ((le, StartFrom-le a.start x.start xs le h.0), h)
]

sort_by-IsOrdered : (xs : List Interval) → IsOrdered (sort_by tuple_before xs)
unfolding IsOrdered sort_by
sort_by-IsOrdered [] = tt
sort_by-IsOrdered (x ∷ xs) =
    insert_sorted-IsOrdered x (sort_by tuple_before xs) (sort_by-IsOrdered xs)

before_all : (n u : ℕ) (xs : List Interval) → StartFrom n xs → u < n → is_occupied xs u ≡ false
before_all n u [] h lt = refl
before_all n u (x ∷ xs) h lt = ground (arith, h.0, lt, before_all n u xs h.1 lt)

apart :
    (u : ℕ) (last x : Interval) (xs : List Interval)
    → leb x.start last.stop ≡ false
    → StartFrom x.start xs
    → (is_within u last && is_occupied (x ∷ xs) u) ≡ false
apart u last x xs e h = elim (Bool-cases (ltb u last.stop)) [
  | inl y ↦
      let later : is_occupied (x ∷ xs) u ≡ false =
        before_all x.start u (x ∷ xs) (omega arith, h) (ground (arith, e, y)) in
      ground (arith, later)
  | inr y ↦ ground (arith, y)
]

joined :
    (u : ℕ) (last x : Interval)
    → last.start ≤ x.start
    → leb x.start last.stop ≡ true
    → is_within u (record { start = last.start; stop = max x.stop last.stop })
      ≡ (is_within u last || is_within u x)
joined u last x le e = ground (arith, le, e)

merge_from-instants :
    (last : Interval) (xs : List Interval) (t n : ℕ)
    → StartFrom last.start xs
    → IsOrdered xs
    → occupied_seconds (merge_from last xs) t (t + n) ≡ instants (is_occupied (last ∷ xs)) t n
unfolding merge_from occupied_seconds IsOrdered
merge_from-instants last [] t n from ordered =
    let one = instants-interval last t n in
    let same =
      instants-cong (is_occupied (last ∷ [])) (λ u. is_within u last) t n (λ u. ground arith) in
    omega (arith, one, same)
merge_from-instants last (x ∷ xs) t n from ordered = elim (Bool-cases (leb x.start last.stop)) [
  | inl e ↦
      rw (e, merge_from)
        (merge_from-instants (record { start = last.start; stop = max x.stop last.stop }) xs t n
            from.1 ordered.1
          ∙ instants-cong
              (is_occupied (record { start = last.start; stop = max x.stop last.stop } ∷ xs))
              (is_occupied (last ∷ x ∷ xs)) t n (λ u. ground (arith, joined u last x from.0 e)))
  | inr e ↦
      rw (e, merge_from)
        (let one = instants-interval last t n in
          let rest = merge_from-instants x xs t n ordered.0 ordered.1 in
          let both =
            instants-or (λ u. is_within u last) (is_occupied (x ∷ xs)) t n
              (λ u. apart u last x xs e ordered.0) in
          omega (arith, one, rest, both))
]

sorted_instants :
    (xs : List Interval) (t n : ℕ)
    → IsOrdered xs
    → occupied_seconds (merge_sorted xs) t (t + n) ≡ instants (is_occupied xs) t n
unfolding merge_sorted occupied_seconds IsOrdered
sorted_instants [] t n h = sym (instants-none (is_occupied []) t n (λ u. refl))
sorted_instants (x ∷ xs) t n h = merge_from-instants x xs t n h.0 h.1

-- The merged intervals of a list measure the period of which the instants lie in some interval of the
-- list, each instant once, whatever the order and the overlaps of the intervals are.
pub merged_intervals-instants :
    (intervals : List Interval) (t n : ℕ)
    → occupied_seconds (merged_intervals intervals) t (t + n) ≡ instants (is_occupied intervals) t n
unfolding merged_intervals
merged_intervals-instants intervals t n =
    sorted_instants (sort_by tuple_before intervals) t n (sort_by-IsOrdered intervals)
    ∙ instants-cong (is_occupied (sort_by tuple_before intervals)) (is_occupied intervals) t n
        (λ u. any-sort_by (is_within u) tuple_before intervals)

occupied_seconds-split :
    (xs : List Interval) (a b c : ℕ)
    → a ≤ b
    → b ≤ c
    → occupied_seconds xs a c ≡ occupied_seconds xs a b + occupied_seconds xs b c
unfolding occupied_seconds
occupied_seconds-split [] a b c h k = refl
occupied_seconds-split (x ∷ xs) a b c h k = omega (arith, h, k, occupied_seconds-split xs a b c h k)

occupied_seconds-none : (xs : List Interval) (a b : ℕ) → b ≤ a → occupied_seconds xs a b ≡ 0
unfolding occupied_seconds
occupied_seconds-none [] a b h = refl
occupied_seconds-none (x ∷ xs) a b h = omega (arith, h, occupied_seconds-none xs a b h)

days_to_come :
    (xs : List Interval) (begin now days : ℕ)
    → now ≤ begin
    → sum (daily_seconds xs begin now days) ≡ 0
unfolding daily_seconds sum
days_to_come xs begin now zero h = refl
days_to_come xs begin now (suc days) h = omega (
  arith,
  occupied_seconds-none xs begin (min (begin + day) now) (omega (arith, h)),
  days_to_come xs (begin + day) now days (omega (arith, h)),
)

min_first : (begin now : ℕ) → begin + day ≤ now → min (begin + day) now ≡ begin + day
min_first begin now h = omega (arith, h)

min_second : (begin now : ℕ) → now ≤ begin + day → min (begin + day) now ≡ now
min_second begin now h = omega (arith, h)

sum-daily_seconds :
    (xs : List Interval) (begin now days : ℕ)
    → begin ≤ now
    → now ≤ begin + days * day
    → sum (daily_seconds xs begin now days) ≡ occupied_seconds xs begin now
unfolding daily_seconds sum
sum-daily_seconds xs begin now zero h k =
    sym (occupied_seconds-none xs begin now (omega (arith, k)))
sum-daily_seconds xs begin now (suc days) h k = elim (Bool-cases (leb (begin + day) now)) [
  | inl past ↦
      let le : begin + day ≤ now = ground (arith, past) in
      omega (
        arith,
        le,
        sum-daily_seconds xs (begin + day) now days le (omega (arith, k)),
        occupied_seconds-split xs begin (begin + day) now (omega arith) le,
        ap (occupied_seconds xs begin) (min_first begin now le),
      )
  | inr today ↦
      let le : now ≤ begin + day = ground (arith, today) in
      omega (
        arith,
        le,
        days_to_come xs (begin + day) now days le,
        ap (occupied_seconds xs begin) (min_second begin now le),
      )
]

-- The figures of the days, from the first day to the one that contains now, add up to the measure of
-- the instants of the whole period at which some interval of the list is open.
pub daily_seconds-instants :
    (intervals : List Interval) (begin now days : ℕ)
    → begin ≤ now
    → now ≤ begin + days * day
    → sum (daily_seconds (merged_intervals intervals) begin now days)
      ≡ instants (is_occupied intervals) begin (now - begin)
daily_seconds-instants intervals begin now days h k =
    let e : begin + (now - begin) ≡ now = omega (arith, h) in
    sum-daily_seconds (merged_intervals intervals) begin now days h k
    ∙ (ap (occupied_seconds (merged_intervals intervals) begin) (sym e)
        ∙ merged_intervals-instants intervals begin (now - begin))
