-- ===== src/Scheduling/Windows.antt =====
-- `_intersect_windows` and `_subtract_busy` of services/availability.py. An interval is a pair of
-- instants in seconds, half open. Python compares the ends of windows, which are of one zone, on its
-- clock; that is the order of their instants, unless one of them lies in an hour that the clock
-- skips.
pub mod Coverage
use nexasalon_api.Prelude.{
  ℕ, Bool, true, false, ◌||◌, List, [], ◌∷◌, ◌++◌, leb, ltb, if◌then◌else◌, min, max,
}

abbrev pub Interval : Type 0
Interval = ℕ × ℕ

-- The inner loop of `_intersect_windows`, over `allowed`.
intersect_one : Interval → List Interval → List Interval
intersect_one w [] = []
intersect_one w (a ∷ allowed) =
    let start = max w.0 a.0 in
    let end = min w.1 a.1 in
    if ltb start end then (start, end) ∷ intersect_one w allowed else intersect_one w allowed

unfoldable pub intersect_windows : List Interval → List Interval → List Interval
unfolding intersect_one
intersect_windows [] allowed = []
intersect_windows (w ∷ windows) allowed =
    intersect_one w allowed ++ intersect_windows windows allowed

-- `sorted(busy, key=lambda b: b[0])`: stable, as Python's.
insert_by_start : Interval → List Interval → List Interval
insert_by_start b [] = b ∷ []
insert_by_start b (c ∷ cs) = if leb b.0 c.0 then b ∷ c ∷ cs else c ∷ insert_by_start b cs

unfoldable pub sort_by_start : List Interval → List Interval
unfolding insert_by_start
sort_by_start [] = []
sort_by_start (b ∷ bs) = insert_by_start b (sort_by_start bs)

-- What one busy interval makes the loop append: `if busy_start > cursor: free.append(...)`.
gap : ℕ → Interval → ℕ → List Interval
gap cursor b win_end = if ltb cursor b.0 then (cursor, min b.0 win_end) ∷ [] else []

-- The loop of `_subtract_busy` over `busy_sorted` for one window that ends at `win_end`, with its
-- `cursor`; the last clause is what follows the loop. A `break` leaves nothing behind the loop,
-- since the cursor has reached the end of the window.
free_from : ℕ → ℕ → List Interval → List Interval
unfolding gap
free_from cursor win_end [] = if ltb cursor win_end then (cursor, win_end) ∷ [] else []
free_from cursor win_end (b ∷ busy) =
    let skipped = free_from cursor win_end busy in
    let next = max cursor b.1 in
    let rest = free_from next win_end busy in
    if leb b.1 cursor || leb win_end b.0
    then skipped
    else gap cursor b win_end ++ (if leb win_end next then [] else rest)

free_of_windows : List Interval → List Interval → List Interval
unfolding free_from
free_of_windows [] busy_sorted = []
free_of_windows (w ∷ windows) busy_sorted =
    free_from w.0 w.1 busy_sorted ++ free_of_windows windows busy_sorted

unfoldable pub subtract_busy : List Interval → List Interval → List Interval
unfolding free_of_windows sort_by_start
subtract_busy windows busy = free_of_windows windows (sort_by_start busy)
