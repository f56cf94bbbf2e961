-- ===== src/RateLimit/Window.antt =====
-- The limiter as a sliding window.
use nexasalon_api.Prelude.{
  ℕ, suc, ◌+◌, ◌≤◌, ◌<◌, ◌≡◌, ◌↔◌, refl, sym, inl, inr, ◌∙◌, true, false, ◌&&◌, List, [], ◌∷◌, ◌++◌,
  arith, filter, length, sum_of, All, sum_of-append, ltb, leb, ◌==◌, if◌then◌else◌, Bool-cases,
  tests, leb→le, subst, ==_iff, ==_refl,
}
use nexasalon_api.RateLimit.{
  Attempt, Hits, Answer, allowed, refused, is_recent, hit, replay, allowed_at,
}

-- Time does not run backwards from one attempt to the next.
abbrev pub IsOrdered : List Attempt → Type 0
IsOrdered [] = Unit
IsOrdered (a ∷ earlier) = All (λ b. b.at ≤ a.at) earlier × IsOrdered earlier

-- How many of the times are in the window that ends at `now`.
abbrev pub recent : ℕ → ℕ → List ℕ → ℕ
recent window now ts = sum_of (λ t. if ltb now (t + window) then 1 else 0) ts

abbrev pub in_window : ℕ → ℕ → List ℕ → ℕ
in_window window now ts = sum_of (λ t. if leb t now && ltb now (t + window) then 1 else 0) ts

length-filter :
    (window now : ℕ) (ts : List ℕ)
    → length (filter (is_recent window now) ts) ≡ recent window now ts
length-filter window now [] = refl
length-filter window now (t ∷ ts) = ground (arith, length-filter window now ts)

-- Dropping what has left the window at `now` does not matter later.
recent-filter :
    (window now later : ℕ) (ts : List ℕ)
    → now ≤ later
    → recent window later (filter (is_recent window now) ts) ≡ recent window later ts
recent-filter window now later [] h = refl
recent-filter window now later (t ∷ ts) h = ground (arith, recent-filter window now later ts h)

in_window-le :
    (window now later : ℕ) (ts : List ℕ)
    → now ≤ later
    → in_window window later ts ≤ recent window now ts
in_window-le window now later [] h = omega arith
in_window-le window now later (t ∷ ts) h = ground (arith, in_window-le window now later ts h)

recent_refused :
    (window at now : ℕ) (ts times : List ℕ)
    → at ≤ now
    → recent window now ts ≡ recent window now times
    → recent window now (filter (is_recent window at) ts) ≡ recent window now times
recent_refused window at now ts times o h = recent-filter window at now ts o ∙ h

recent_allowed :
    (window at now : ℕ) (ts times : List ℕ)
    → at ≤ now
    → recent window now ts ≡ recent window now times
    → recent window now (filter (is_recent window at) ts ++ at ∷ [])
      ≡ recent window now (at ∷ times)
recent_allowed window at now ts times o h = omega (
  arith,
  sum_of-append (λ t. if ltb now (t + window) then 1 else 0) (filter (is_recent window at) ts)
      (at ∷ []),
  recent_refused window at now ts times o h,
)

recent_same :
    (m window key at now : ℕ) (hits : Hits) (times : List ℕ)
    → at ≤ now
    → recent window now (hits key) ≡ recent window now times
    → recent window now ((hit m window key at hits).1 key)
      ≡ recent window now (elim (hit m window key at hits).0 [
        | allowed ↦ if key == key then at ∷ times else times
        | refused _ ↦ times
      ])
unfolding hit
recent_same m window key at now hits times o h =
    elim (Bool-cases (leb m (length (filter (is_recent window at) (hits key))))) [
      | inl full ↦ rw (full, ==_refl key) (recent_refused window at now (hits key) times o h)
      | inr free ↦ rw (free, ==_refl key) (recent_allowed window at now (hits key) times o h)
    ]

recent_other :
    (m window key k at now : ℕ) (hits : Hits) (times : List ℕ)
    → (key == k) ≡ false
    → recent window now (hits key) ≡ recent window now times
    → recent window now ((hit m window k at hits).1 key)
      ≡ recent window now (elim (hit m window k at hits).0 [
        | allowed ↦ if key == k then at ∷ times else times
        | refused _ ↦ times
      ])
unfolding hit
recent_other m window key k at now hits times o h =
    elim (Bool-cases (leb m (length (filter (is_recent window at) (hits k))))) [
      | inl full ↦ rw (full, o) h
      | inr free ↦ rw (free, o) h
    ]

-- The store keeps, of the times let through, those that still count.
kept :
    (m window key now : ℕ) (past : List Attempt)
    → IsOrdered past
    → All (λ a. a.at ≤ now) past
    → recent window now (replay m window past key)
      ≡ recent window now (allowed_at m window key past)
unfolding replay allowed_at
kept m window key now [] o h = refl
kept m window key now (a ∷ past) o h =
    let ih = kept m window key now past o.1 h.1 in
    elim (Bool-cases (key == a.key)) [
      | inl same ↦
          subst
            (λ k.
              recent window now ((hit m window k a.at (replay m window past)).1 key)
              ≡ recent window now (elim (hit m window k a.at (replay m window past)).0 [
                | allowed ↦
                    if key == k
                    then a.at ∷ allowed_at m window key past
                    else allowed_at m window key past
                | refused _ ↦ allowed_at m window key past
              ]))
            ((==_iff key a.key).0 same)
            (recent_same m window key a.at now (replay m window past) (allowed_at m window key past)
              h.0 ih)
      | inr other ↦ recent_other m window key a.key a.at now (replay m window past) _ other ih
    ]

decided :
    (m n x : ℕ) (h h' : Hits)
    → ((if◌then◌else◌ {A = Answer × Hits} (leb m n) (refused x, h) (allowed, h')).0 ≡ allowed)
      ↔ (suc n ≤ m)
decided m n x h h' = elim (Bool-cases (leb m n)) [
  | inl e ↦ rw e (λ r. cc, λ l. absurd (omega (tests, e, l)))
  | inr e ↦ rw e (λ r. ground (arith, e), λ l. refl)
]

-- As long as time does not run backwards, an attempt on a key is let through exactly when fewer
-- than `max_attempts` earlier ones on that key, let through in their turn, are still in its window.
pub hit_iff :
    (m window key now : ℕ) (past : List Attempt)
    → IsOrdered past
    → All (λ a. a.at ≤ now) past
    → ((hit m window key now (replay m window past)).0 ≡ allowed)
      ↔ (recent window now (allowed_at m window key past) < m)
unfolding hit
hit_iff m window key now past o h =
    rw
      (
        sym (kept m window key now past o h),
        sym (length-filter window now (replay m window past key)),
      )
      (decided m (length (filter (is_recent window now) (replay m window past key))) _ _ _)

one_more :
    (m window at now : ℕ) (times : List ℕ)
    → in_window window now times ≤ m
    → recent window at times < m
    → in_window window now (at ∷ times) ≤ m
one_more m window at now times h r = elim (Bool-cases (leb at now)) [
  | inl e ↦ rw e (ground (arith, in_window-le window at now times (leb→le at now e)))
  | inr e ↦ rw e (omega (arith, h))
]

bounded_step :
    (m window key k at now : ℕ) (answer : Answer) (times : List ℕ)
    → in_window window now times ≤ m
    → ((key == k) ≡ true → answer ≡ allowed → recent window at times < m)
    → in_window window now
        (elim answer [ allowed ↦ if key == k then at ∷ times else times | refused _ ↦ times ])
      ≤ m
bounded_step m window key k at now (refused _) times h free = h
bounded_step m window key k at now allowed times h free = elim (Bool-cases (key == k)) [
  | inl same ↦ rw same (one_more m window at now times h (free same refl))
  | inr other ↦ rw other h
]

-- However the attempts on the keys interleave, as long as time does not run backwards no window
-- ever holds more than `max_attempts` attempts on a key that were let through.
pub hit-bounded :
    (m window key now : ℕ) (attempts : List Attempt)
    → IsOrdered attempts
    → in_window window now (allowed_at m window key attempts) ≤ m
unfolding allowed_at
hit-bounded m window key now [] o = omega arith
hit-bounded m window key now (a ∷ past) o =
    bounded_step m window key a.key a.at now (hit m window a.key a.at (replay m window past)).0
      (allowed_at m window key past) (hit-bounded m window key now past o.1)
      (λ same e. (hit_iff m window key a.at past o.1 o.0).0 (
        subst (λ k. (hit m window k a.at (replay m window past)).0 ≡ allowed)
          (sym ((==_iff key a.key).0 same)) e))
