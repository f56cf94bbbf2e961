-- ===== src/Prelude/Outcome.antt =====
-- A service call: the domain exceptions of core/exceptions.py as values, and the transaction of a
-- request (api/deps.py `get_db`), which commits at the end and rolls everything back on a raise.
-- So a call yields its value with the new state, or an exception and no state at all.
use mathlib.Core.Path.{◌≡◌, refl, sym, ap, subst}
use mathlib.Core.Bool.{Bool, true, false}
use mathlib.Core.Option.{Option, none, some}
use mathlib.Core.List.{List, [], ◌∷◌}
use nexasalon_api.Prelude.Tests.{if◌then◌else◌}

-- The subclasses of `DomainError` (the database's `IntegrityError`, and a failed `assert`).
pub data Error : Type 0 where
  not_found conflict validation unauthorized forbidden too_many_requests integrity assertion : Error

pub data Result {ℓ} (A : Type ℓ) : Type ℓ where
  ok : A → Result A
  err : Error → Result A

-- A call on the state `S`.
abbrev pub Tx : Type 0 → Type 0 → Type 0
Tx S A = S → Result (A × S)

module _ {S : Type 0} where
  abbrev pub pure : {A : Type 0} → A → Tx S A
  pure a s = ok (a, s)

  abbrev pub raise : {A : Type 0} → Error → Tx S A
  raise e s = err e

  abbrev pub gets : {A : Type 0} → (S → A) → Tx S A
  gets f s = ok (f s, s)

  abbrev pub modify : (S → S) → Tx S (Unit {0})
  modify f s = ok (tt, f s)

  -- `if test: raise e`
  abbrev pub raise_if : Bool → Error → Tx S (Unit {0})
  raise_if true e s = err e
  raise_if false e s = ok (tt, s)

  -- A look-up whose missing row is an exception.
  abbrev pub or_raise : {A : Type 0} → Option A → Error → Tx S A
  or_raise none e s = err e
  or_raise (some a) e s = ok (a, s)

infixl 5 ◌>>=◌ ◌>>◌
abbrev pub ◌>>=◌ : {S A B : Type 0} → Tx S A → (A → Tx S B) → Tx S B
◌>>=◌ m f s = elim (m s) [ ok (a, s') ↦ f a s' | err e ↦ err e ]

abbrev pub ◌>>◌ : {S B : Type 0} → Tx S (Unit {0}) → Tx S B → Tx S B
m >> k = m >>= λ _. k

-- A `for` loop whose body is a call.
abbrev pub each : {S A : Type 0} → (A → Tx S (Unit {0})) → List A → Tx S (Unit {0})
each f [] = pure tt
each f (x ∷ xs) = f x >> each f xs

-- The same with the bodies' results.
abbrev pub collect : {S A B : Type 0} → (A → Tx S B) → List A → Tx S (List B)
collect f [] = pure []
collect f (x ∷ xs) = f x >>= λ y. collect f xs >>= λ ys. pure (y ∷ ys)

-- A value that may already be an exception.
abbrev pub lift : {S A : Type 0} → Result A → Tx S A
lift (ok a) s = ok (a, s)
lift (err e) s = err e

-- Inversion of a call that succeeded.
pub >>=-eq-ok :
    {S A B : Type 0} (m : Tx S A) (f : A → Tx S B) (s : S) {r : B × S}
    → (m >>= f) s ≡ ok r
    → (a : A) × (s1 : S) × (m s ≡ ok (a, s1)) × (f a s1 ≡ ok r)
>>=-eq-ok {S} {A} {B} m f s {r} h = invert (m s) refl h
  where
    invert :
        (x : Result (A × S))
        → m s ≡ x
        → (elim x [ ok (a, s') ↦ f a s' | err e ↦ err e ]) ≡ ok r
        → (a : A) × (s1 : S) × (m s ≡ ok (a, s1)) × (f a s1 ≡ ok r)
    invert (ok (a, s1)) e h = (a, s1, e, h)
    invert (err x) e h = cc

payload {ℓ} : {A : Type ℓ} → A → Result A → A
payload d (ok a) = a
payload d (err e) = d

pub ok-injective {ℓ} : {A : Type ℓ} {a b : A} → ok a ≡ ok b → a ≡ b
unfolding payload
ok-injective {a = a} h = ap (payload a) h

-- The same for the calls whose effect is known: what succeeds after them.
pub or_raise-then :
    {S A B : Type 0} (o : Option A) (e : Error) (f : A → Tx S B) (s : S) {r : B × S}
    → (or_raise o e >>= f) s ≡ ok r
    → (a : A) × (o ≡ some a) × (f a s ≡ ok r)
or_raise-then none e f s h = cc
or_raise-then (some a) e f s h = (a, refl, h)

pub raise_if-then :
    {S B : Type 0} (c : Bool) (e : Error) (k : Tx S B) (s : S) {r : B × S}
    → (raise_if c e >> k) s ≡ ok r
    → (c ≡ false) × (k s ≡ ok r)
raise_if-then true e k s h = cc
raise_if-then false e k s h = (refl, h)

-- A call that refuses by one test, and otherwise has a known effect.
pub guarded-then :
    {S A B : Type 0} (c : Bool) (e : Error) (x : A × S) (f : A → Tx S B) (s : S) {r : B × S}
    → ((λ s'. if c then err e else ok x) >>= f) s ≡ ok r
    → (c ≡ false) × (f x.0 x.1 ≡ ok r)
guarded-then true e x f s h = cc
guarded-then false e x f s h = (refl, h)

-- The other way round: how a call whose test passes goes on.
pub or_raise-run :
    {S A B : Type 0} {o : Option A} {a : A} (e : Error) (f : A → Tx S B) (s : S)
    → o ≡ some a
    → (or_raise o e >>= f) s ≡ f a s
or_raise-run e f s h = rw h

pub raise_if-run :
    {S B : Type 0} {c : Bool} (e : Error) (k : Tx S B) (s : S)
    → c ≡ false
    → (raise_if c e >> k) s ≡ k s
raise_if-run e k s h = rw h

pub guarded-run :
    {S A B : Type 0} {c : Bool} (e : Error) (x : A × S) (f : A → Tx S B) (s : S)
    → c ≡ false
    → ((λ s'. if c then err e else ok x) >>= f) s ≡ f x.0 x.1
guarded-run e x f s h = rw h

-- A call that only checks: when it succeeds, the state is as before.
abbrev pub IsCheck : {S A : Type 0} → Tx S A → Type 0
IsCheck {S} {A} m = (s : S) (r : A × S) → m s ≡ ok r → r.1 ≡ s

pub check-then :
    {S B : Type 0} (m : Tx S (Unit {0})) (k : Tx S B) (s : S) {r : B × S}
    → IsCheck m
    → (m >> k) s ≡ ok r
    → k s ≡ ok r
check-then m k s {r} c h =
    let (u, s1, e, g) = >>=-eq-ok m (λ _. k) s h in subst (λ x. k x ≡ ok r) (c s (u, s1) e) g

pub raise_if-IsCheck : {S : Type 0} (c : Bool) (e : Error) → IsCheck (raise_if {S = S} c e)
raise_if-IsCheck true e s r h = cc
raise_if-IsCheck false e s r h = sym (ap (λ x. x.1) (ok-injective h))

pub each-IsCheck :
    {S A : Type 0} (f : A → Tx S (Unit {0})) (xs : List A)
    → ((x : A) → IsCheck (f x))
    → IsCheck (each f xs)
each-IsCheck f [] c s r h = sym (ap (λ x. x.1) (ok-injective h))
each-IsCheck f (x ∷ xs) c s r h = each-IsCheck f xs c s r (check-then (f x) (each f xs) s (c x) h)

-- The parts of a call that only reads.
pub gets-IsCheck : {S A : Type 0} (f : S → A) → IsCheck (gets f)
gets-IsCheck f s r h = sym (ap (λ x. x.1) (ok-injective h))

pub pure-IsCheck : {S A : Type 0} (a : A) → IsCheck (pure {S = S} a)
pure-IsCheck a s r h = sym (ap (λ x. x.1) (ok-injective h))

pub or_raise-IsCheck : {S A : Type 0} (o : Option A) (e : Error) → IsCheck (or_raise {S = S} o e)
or_raise-IsCheck none e s r h = cc
or_raise-IsCheck (some a) e s r h = sym (ap (λ x. x.1) (ok-injective h))

pub >>=-IsCheck :
    {S A B : Type 0} (m : Tx S A) (f : A → Tx S B)
    → IsCheck m
    → ((a : A) → IsCheck (f a))
    → IsCheck (m >>= f)
>>=-IsCheck m f c d s r h =
    let (a, s1, e, g) = >>=-eq-ok m f s h in subst (λ x. r.1 ≡ x) (c s (a, s1) e) (d a s1 r g)

-- What follows a call that only reads starts from the same state.
pub read-then :
    {S A B : Type 0} (m : Tx S A) (f : A → Tx S B) (s : S) {r : B × S}
    → IsCheck m
    → (m >>= f) s ≡ ok r
    → (a : A) × (m s ≡ ok (a, s)) × (f a s ≡ ok r)
read-then m f s {r} c h =
    let (a, s1, e, g) = >>=-eq-ok m f s h in
    (a, subst (λ x. m s ≡ ok (a, x)) (c s (a, s1) e) e, subst (λ x. f a x ≡ ok r) (c s (a, s1) e) g)
