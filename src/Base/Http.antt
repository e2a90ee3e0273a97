-- ===== src/Base/Http.antt =====
-- A service call's result: a value, or the status code of the `HTTPException` it raises.
use mathlib.Core.Bool.{Bool, true, false, not}
use mathlib.Core.Option.{Option, none, some}
use mathlib.Core.Path.{◌≡◌, refl}

pub data HttpError : Type 0 where
  bad_request : HttpError  -- 400
  forbidden : HttpError  -- 403
  not_found : HttpError  -- 404
  conflict : HttpError  -- 409
  unprocessable : HttpError  -- 422
  unauthorized : HttpError  -- 401
  server_error : HttpError  -- 500
  unavailable : HttpError  -- 503

pub data Result {ℓ} (A : Type ℓ) : Type ℓ where
  err : HttpError → Result A
  ok : A → Result A

infixl 5 ◌>>=◌
abbrev pub ◌>>=◌ {ℓ₁ ℓ₂} : {A : Type ℓ₁} {B : Type ℓ₂} → Result A → (A → Result B) → Result B
err code >>= next = err code
ok value >>= next = next value

infixl 5 ◌>>◌
abbrev pub ◌>>◌ {ℓ} : {B : Type ℓ} → Result (Unit {0}) → Result B → Result B
check >> rest = check >>= (λ passed. rest)

-- `if c: raise HTTPException(e)`
abbrev pub raise_if : Bool → HttpError → Result (Unit {0})
raise_if true e = err e
raise_if false _ = ok tt

-- `if x is None: raise HTTPException(e)`
abbrev pub or_raise {ℓ} : {A : Type ℓ} → Option A → HttpError → Result A
or_raise none e = err e
or_raise (some a) _ = ok a

-- What a successful chain says of its first step.
pub bind_ok {ℓ₁ ℓ₂} :
    {A : Type ℓ₁} {B : Type ℓ₂} (call : Result A) (next : A → Result B) {out : B}
    → (call >>= next) ≡ ok out
    → (value : A) × (call ≡ ok value) × (next value ≡ ok out)
bind_ok (err code) next done = cc
bind_ok (ok value) next done = (value, refl, done)

pub or_raise_ok {ℓ} :
    {A : Type ℓ} (o : Option A) (e : HttpError) {a : A} → or_raise o e ≡ ok a → o ≡ some a
or_raise_ok none e h = cc
or_raise_ok (some a) e h = cc

pub raise_if_ok : (b : Bool) (e : HttpError) {x : Unit {0}} → raise_if b e ≡ ok x → b ≡ false
raise_if_ok true e h = cc
raise_if_ok false e h = refl

-- `if not c: raise HTTPException(e)`
pub unless_ok : (b : Bool) (e : HttpError) {x : Unit {0}} → raise_if (not b) e ≡ ok x → b ≡ true
unless_ok true e h = refl
unless_ok false e h = cc

-- A call whose errors, if any, all satisfy a predicate.
abbrev pub Fails {ℓ κ} : {A : Type ℓ} → (HttpError → Type κ) → Result A → Type κ
Fails P (ok value) = Unit
Fails P (err code) = P code

pub Fails-bind {ℓ₁ ℓ₂ κ} :
    {A : Type ℓ₁} {B : Type ℓ₂} (P : HttpError → Type κ) (call : Result A) (next : A → Result B)
    → Fails P call
    → ((value : A) → call ≡ ok value → Fails P (next value))
    → Fails P (call >>= next)
Fails-bind P (ok value) next first others = others value refl
Fails-bind P (err code) next first others = first

pub Fails-raise_if {κ} :
    (P : HttpError → Type κ) (b : Bool) (e : HttpError) → P e → Fails P (raise_if b e)
Fails-raise_if P true e holds = holds
Fails-raise_if P false e holds = tt

pub Fails-or_raise {ℓ κ} :
    {A : Type ℓ} (P : HttpError → Type κ) (o : Option A) (e : HttpError)
    → P e
    → Fails P (or_raise o e)
Fails-or_raise P none e holds = holds
Fails-or_raise P (some a) e holds = tt
