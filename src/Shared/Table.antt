-- ===== src/Shared/Table.antt =====
-- A database table is the list of its rows, in the order of insertion. SQL on one table.
pub mod Counting
pub mod Existence
pub mod Keys
pub mod Order
pub mod Paging
pub mod Holding
use facebook_clone.Prelude.{
  ℕ, ◌+◌, Bool, true, false, Option, none, some, List, [], ◌∷◌, ◌++◌, indicator, ltb, take, drop,
  if◌then◌else◌,
}
use facebook_clone.Shared.Errors.{Result, ok, err, integrity_error, multiple_results_found}
use facebook_clone.Shared.Effects.{Effect}

module _ {R : Type 0} where
  -- SELECT … WHERE p
  unfoldable pub select : (R → Bool) → List R → List R
  select p [] = []
  select p (r ∷ rows) = let rest = select p rows in if p r then r ∷ rest else rest

  -- SELECT COUNT(*) … WHERE p
  unfoldable pub count : (R → Bool) → List R → ℕ
  count p [] = 0
  count p (r ∷ rows) = indicator (p r) + count p rows

  -- EXISTS (SELECT … WHERE p)
  unfoldable pub exists : (R → Bool) → List R → Bool
  exists p [] = false
  exists p (r ∷ rows) = let rest = exists p rows in if p r then true else rest

  -- DELETE … WHERE p
  unfoldable pub delete_where : (R → Bool) → List R → List R
  delete_where p [] = []
  delete_where p (r ∷ rows) = let rest = delete_where p rows in if p r then rest else r ∷ rest

  -- UPDATE … SET f … WHERE p
  unfoldable pub update_where : (R → Bool) → (R → R) → List R → List R
  update_where p f [] = []
  update_where p f (r ∷ rows) = (if p r then f r else r) ∷ update_where p f rows

  -- INSERT
  abbrev pub insert : R → List R → List R
  insert r rows = rows ++ r ∷ []

  -- LIMIT … OFFSET …
  abbrev pub page : ℕ → ℕ → List R → List R
  page limit offset rows = take limit (drop offset rows)

  -- One row put in its place by a key, largest first; of equal keys the first row comes first.
  unfoldable pub place_desc : (R → ℕ) → R → List R → List R
  place_desc key r [] = r ∷ []
  place_desc key r (x ∷ rows) =
      let rest = place_desc key r rows in if ltb (key r) (key x) then x ∷ rest else r ∷ x ∷ rows

  -- ORDER BY key DESC
  unfoldable pub order_by_desc : (R → ℕ) → List R → List R
  unfolding place_desc
  order_by_desc key [] = []
  order_by_desc key (r ∷ rows) = place_desc key r (order_by_desc key rows)

  -- One row put in its place among rows in order.
  unfoldable pub place : (R → R → Bool) → R → List R → List R
  place before r [] = r ∷ []
  place before r (x ∷ rows) =
      let rest = place before r rows in if before x r then x ∷ rest else r ∷ x ∷ rows

  -- ORDER BY several columns, where `before x y` says that `x` comes first
  unfoldable pub order_by : (R → R → Bool) → List R → List R
  unfolding place
  order_by before [] = []
  order_by before (r ∷ rows) = place before r (order_by before rows)

  -- `items[-1]`, and `items[0]`
  unfoldable pub last : List R → Option R
  last [] = none
  last (r ∷ rows) = let rest = last rows in elim rest [ none ↦ some r | some l ↦ some l ]

  unfoldable pub first : List R → Option R
  first [] = none
  first (r ∷ _) = some r

  -- The first row with the property.
  unfoldable pub find : (R → Bool) → List R → Option R
  find p [] = none
  find p (r ∷ rows) = let rest = find p rows in if p r then some r else rest

  -- SQLAlchemy's `Result.scalar_one_or_none`
  unfoldable pub scalar_one_or_none : List R → Result (Option R)
  scalar_one_or_none [] = ok none
  scalar_one_or_none (r ∷ []) = ok (some r)
  scalar_one_or_none (_ ∷ _ ∷ _) = err multiple_results_found

  -- `session.add(model)` and `flush`, where the constraints permit the row or refuse it
  unfoldable pub add : Bool → R → List R → Result (R × List R)
  add permitted r rows = if permitted then ok (r, insert r rows) else err integrity_error

  -- `session.merge(model)` and `flush`: the values are copied to the row with that primary key, and
  -- the row is new if there is none.
  unfoldable pub merge : Bool → (R → Bool) → (R → R) → R → List R → Result (R × List R)
  merge permitted has_id copy r rows =
      if permitted
      then ok (elim (find has_id rows) [
        | none ↦ (r, insert r rows)
        | some old ↦ (copy old, update_where has_id copy rows)
      ])
      else err integrity_error

module _ {D R : Type 0} where
  -- The end of a `save`: the row that was written, and the table with it.
  abbrev pub stored : (List R → D → D) → Result (R × List R) → Effect D R
  stored put (ok (r, rows)) d = (ok r, put rows d)
  stored put (err e) d = (err e, d)
