-- ===== src/Access/Tokens/Lookup.antt =====
-- What a look-up by digest gives after each way of writing the table.
use nexasalon_api.Prelude.{
  ℕ, ◌≡◌, refl, ap, inl, inr, arith, true, false, Option, none, some, List, [], ◌∷◌, ◌++◌, map,
  ◌==◌, if◌then◌else◌, Bool-cases,
}
use mathlib.Core.Option as Option
use nexasalon_api.Access.Records.{RefreshToken}
use nexasalon_api.Access.Tokens.{get_by_hash, update_token}

-- Writing a row leaves its digest as it is.
abbrev pub KeepsHash : (RefreshToken → RefreshToken) → Type 0
KeepsHash f = (t : RefreshToken) → (f t).token_hash ≡ t.token_hash

abbrev pub or_else : Option RefreshToken → Option RefreshToken → Option RefreshToken
or_else none b = b
or_else (some a) b = some a

pub get_by_hash-append :
    (h : ℕ) (ts : List RefreshToken) (t : RefreshToken)
    → get_by_hash h (ts ++ t ∷ [])
      ≡ or_else (get_by_hash h ts) (if t.token_hash == h then some t else none)
get_by_hash-append h [] t = refl
get_by_hash-append h (x ∷ ts) t = elim (Bool-cases (x.token_hash == h)) [
  | inl e ↦ rw e refl
  | inr e ↦ rw e (get_by_hash-append h ts t)
]

hash_test :
    (h : ℕ) (f : RefreshToken → RefreshToken) (t : RefreshToken)
    → KeepsHash f
    → ((f t).token_hash == h) ≡ (t.token_hash == h)
hash_test h f t k = ap (λ n. n == h) (k t)

pub get_by_hash-map :
    (h : ℕ) (f : RefreshToken → RefreshToken) (ts : List RefreshToken)
    → KeepsHash f
    → get_by_hash h (map f ts) ≡ Option.map f (get_by_hash h ts)
get_by_hash-map h f [] k = refl
get_by_hash-map h f (x ∷ ts) k = elim (Bool-cases (x.token_hash == h)) [
  | inl e ↦ rw (hash_test h f x k, e) refl
  | inr e ↦ rw (hash_test h f x k, e) (get_by_hash-map h f ts k)
]

same_test : (a h k : ℕ) → (a == k) ≡ true → (a == h) ≡ (h == k)
same_test a h k e = ground arith

other_test : (a h k : ℕ) → (a == k) ≡ false → (a == h) ≡ true → (h == k) ≡ false
other_test a h k e g = ground arith

pub get_by_hash-update_token :
    (h k : ℕ) (f : RefreshToken → RefreshToken) (ts : List RefreshToken)
    → KeepsHash f
    → get_by_hash h (update_token k f ts)
      ≡ (if h == k then Option.map f (get_by_hash h ts) else get_by_hash h ts)
get_by_hash-update_token h k f [] c = ground arith
get_by_hash-update_token h k f (x ∷ ts) c = elim (Bool-cases (x.token_hash == k)) [
  | inl e ↦ elim (Bool-cases (h == k)) [
    | inl g ↦ rw (e, hash_test h f x c, same_test x.token_hash h k e, g) refl
    | inr g ↦ rw (e, hash_test h f x c, same_test x.token_hash h k e, g) refl
  ]
  | inr e ↦ elim (Bool-cases (x.token_hash == h)) [
    | inl g ↦ rw (e, g, other_test x.token_hash h k e g) refl
    | inr g ↦ rw (e, g) (get_by_hash-update_token h k f ts c)
  ]
]
