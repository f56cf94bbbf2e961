-- ===== src/Scheduling/Windows/Coverage.antt =====
-- The two operations on interval lists against the sets of instants that they stand for.
use nexasalon_api.Prelude.{
  ℕ, ◌≤◌, ◌≡◌, refl, Bool, true, false, not, ◌&&◌, ◌||◌, List, [], ◌∷◌, ◌++◌, arith, leb, ltb, All,
  max, min, inl, inr, ◌∙◌, Bool-cases, if◌then◌else◌,
}
use nexasalon_api.Scheduling.Windows.{
  Interval, intersect_one, intersect_windows, insert_by_start, sort_by_start, gap, free_from,
  free_of_windows, subtract_busy,
}

-- The instant lies in the half-open interval.
abbrev pub contains : Interval → ℕ → Bool
contains i t = leb i.0 t && ltb t i.1

-- The instant lies in one of the intervals.
unfoldable pub covers : List Interval → ℕ → Bool
covers [] t = false
covers (i ∷ is) t = contains i t || covers is t

pub covers-append :
    (xs ys : List Interval) (t : ℕ) → covers (xs ++ ys) t ≡ (covers xs t || covers ys t)
unfolding covers
covers-append [] ys t = refl
covers-append (x ∷ xs) ys t = ground (arith, covers-append xs ys t)

covers-intersect_one :
    (w : Interval) (allowed : List Interval) (t : ℕ)
    → covers (intersect_one w allowed) t ≡ (contains w t && covers allowed t)
unfolding intersect_one covers
covers-intersect_one w [] t = ground arith
covers-intersect_one w (a ∷ allowed) t = ground (arith, covers-intersect_one w allowed t)

pub covers-intersect_windows :
    (windows allowed : List Interval) (t : ℕ)
    → covers (intersect_windows windows allowed) t ≡ (covers windows t && covers allowed t)
unfolding intersect_windows covers
covers-intersect_windows [] allowed t = refl
covers-intersect_windows (w ∷ windows) allowed t = ground (
  arith,
  covers-append (intersect_one w allowed) (intersect_windows windows allowed) t,
  covers-intersect_one w allowed t,
  covers-intersect_windows windows allowed t,
)

-- Every start is at least the given one.
abbrev StartsFrom : ℕ → List Interval → Type 0
StartsFrom s = All (λ b. s ≤ b.0)

abbrev IsSorted : List Interval → Type 0
IsSorted [] = Unit
IsSorted (b ∷ bs) = StartsFrom b.0 bs × IsSorted bs

StartsFrom-trans : (r s : ℕ) (bs : List Interval) → r ≤ s → StartsFrom s bs → StartsFrom r bs
StartsFrom-trans r s [] h p = tt
StartsFrom-trans r s (b ∷ bs) h p = (omega arith, StartsFrom-trans r s bs h p.1)

insert-StartsFrom :
    (s : ℕ) (b : Interval) (cs : List Interval)
    → s ≤ b.0
    → StartsFrom s cs
    → StartsFrom s (insert_by_start b cs)
unfolding insert_by_start
insert-StartsFrom s b [] h p = (h, tt)
insert-StartsFrom s b (c ∷ cs) h p = ground (arith, insert-StartsFrom s b cs h p.1)

insert-IsSorted :
    (b : Interval) (cs : List Interval) → IsSorted cs → IsSorted (insert_by_start b cs)
unfolding insert_by_start
insert-IsSorted b [] p = (tt, tt)
insert-IsSorted b (c ∷ cs) p =
    ground
      (arith, insert-IsSorted b cs p.1, insert-StartsFrom c.0 b cs, StartsFrom-trans b.0 c.0 cs)

sort-IsSorted : (bs : List Interval) → IsSorted (sort_by_start bs)
unfolding sort_by_start
sort-IsSorted [] = tt
sort-IsSorted (b ∷ bs) = insert-IsSorted b (sort_by_start bs) (sort-IsSorted bs)

covers-insert :
    (b : Interval) (cs : List Interval) (t : ℕ)
    → covers (insert_by_start b cs) t ≡ (contains b t || covers cs t)
unfolding insert_by_start covers
covers-insert b [] t = refl
covers-insert b (c ∷ cs) t = ground (arith, covers-insert b cs t)

covers-sort : (bs : List Interval) (t : ℕ) → covers (sort_by_start bs) t ≡ covers bs t
unfolding sort_by_start covers
covers-sort [] t = refl
covers-sort (b ∷ bs) t = ground (arith, covers-insert b (sort_by_start bs) t, covers-sort bs t)

covers_before :
    (s : ℕ) (bs : List Interval) (t : ℕ) → StartsFrom s bs → ltb t s ≡ true → covers bs t ≡ false
unfolding covers
covers_before s [] t p h = refl
covers_before s (b ∷ bs) t p h = ground (arith, covers_before s bs t p.1 h)

covers-gap :
    (cursor : ℕ) (b : Interval) (win_end t : ℕ)
    → covers (gap cursor b win_end) t ≡ contains (cursor, min b.0 win_end) t
unfolding gap covers
covers-gap cursor b win_end t = ground arith

-- One turn of the loop that is not skipped, over what the rest covers.
turn :
    (cursor win_end t : ℕ) (b : Interval) (later : Bool)
    → (leb b.1 cursor || leb win_end b.0) ≡ false
    → (ltb t b.0 ≡ true → later ≡ false)
    → (contains (cursor, min b.0 win_end) t || (contains (max cursor b.1, win_end) t && not later))
      ≡ (contains (cursor, win_end) t && not (contains b t || later))
turn cursor win_end t b true h before = ground (arith, before)
turn cursor win_end t b false h before = ground arith

skip :
    (cursor win_end t : ℕ) (b : Interval) (later : Bool)
    → (leb b.1 cursor || leb win_end b.0) ≡ true
    → (contains (cursor, win_end) t && not later)
      ≡ (contains (cursor, win_end) t && not (contains b t || later))
skip cursor win_end t b later h = ground arith

past_end :
    (next win_end t : ℕ) (later : Bool)
    → leb win_end next ≡ true
    → false ≡ (contains (next, win_end) t && not later)
past_end next win_end t later h = ground arith

covers-rest :
    (next win_end t : ℕ) (rest : List Interval) (later : Bool)
    → covers rest t ≡ (contains (next, win_end) t && not later)
    → covers (if leb win_end next then [] else rest) t ≡ (contains (next, win_end) t && not later)
unfolding covers
covers-rest next win_end t rest later h = elim (Bool-cases (leb win_end next)) [
  | inl e ↦ rw e (past_end next win_end t later e)
  | inr e ↦ rw e h
]

covers-free_from_turn :
    (cursor win_end t : ℕ) (b : Interval) (busy rest : List Interval)
    → (leb b.1 cursor || leb win_end b.0) ≡ false
    → StartsFrom b.0 busy
    → covers rest t ≡ (contains (max cursor b.1, win_end) t && not (covers busy t))
    → covers (gap cursor b win_end ++ rest) t
      ≡ (contains (cursor, win_end) t && not (contains b t || covers busy t))
covers-free_from_turn cursor win_end t b busy rest h p ih =
    covers-append (gap cursor b win_end) rest t
    ∙ rw (covers-gap cursor b win_end t, ih)
        (turn cursor win_end t b (covers busy t) h (covers_before b.0 busy t p))

covers-free_from :
    (cursor win_end : ℕ) (busy : List Interval) (t : ℕ)
    → IsSorted busy
    → covers (free_from cursor win_end busy) t
      ≡ (contains (cursor, win_end) t && not (covers busy t))
unfolding free_from covers
covers-free_from cursor win_end [] t p = ground arith
covers-free_from cursor win_end (b ∷ busy) t p =
    elim (Bool-cases (leb b.1 cursor || leb win_end b.0)) [
      | inl e ↦
          rw e
            (covers-free_from cursor win_end busy t p.1 ∙ skip cursor win_end t b (covers busy t) e)
      | inr e ↦ rw e (
          covers-free_from_turn cursor win_end t b busy _ e p.0 (
            covers-rest (max cursor b.1) win_end t _ (covers busy t)
              (covers-free_from (max cursor b.1) win_end busy t p.1)))
    ]

covers-free_of_windows :
    (windows busy : List Interval) (t : ℕ)
    → IsSorted busy
    → covers (free_of_windows windows busy) t ≡ (covers windows t && not (covers busy t))
unfolding free_of_windows covers
covers-free_of_windows [] busy t p = refl
covers-free_of_windows (w ∷ windows) busy t p = ground (
  arith,
  covers-append (free_from w.0 w.1 busy) (free_of_windows windows busy) t,
  covers-free_from w.0 w.1 busy t p,
  covers-free_of_windows windows busy t p,
)

-- The free intervals cover exactly the instants of the windows that no busy interval covers,
-- whatever the order of the busy intervals and however they overlap.
pub covers-subtract_busy :
    (windows busy : List Interval) (t : ℕ)
    → covers (subtract_busy windows busy) t ≡ (covers windows t && not (covers busy t))
unfolding subtract_busy
covers-subtract_busy windows busy t = ground (
  arith,
  covers-free_of_windows windows (sort_by_start busy) t (sort-IsSorted busy),
  covers-sort busy t,
)
