-- ===== src/Base/Results.antt =====
-- Go's way to end a call: a value, an error value, or a panic.
use mathlib.Core.Path.{◌≡◌, refl, ap}
use mathlib.Core.Option.{Option, none, some}

-- `fail` is a returned error; `panic` is a run-time panic, which unwinds the caller too.
pub data Result {ℓ κ} (E : Type κ) (A : Type ℓ) : Type (ℓ ⊔ κ) where
  ok : A → Result E A
  fail : E → Result E A
  panic : Result E A

infixl 5 ◌>>=◌
abbrev pub ◌>>=◌ {ℓ κ μ} :
    {E : Type κ} {A : Type ℓ} {B : Type μ} → Result E A → (A → Result E B) → Result E B
ok a >>= f = f a
fail e >>= f = fail e
panic >>= f = panic

-- A call that returns no error: it gives a value, or panics.
infixl 5 ◌>>=?◌
abbrev pub ◌>>=?◌ {ℓ μ} : {A : Type ℓ} {B : Type μ} → Option A → (A → Option B) → Option B
none >>=? f = none
some a >>=? f = f a

-- A call that gives a value has a first step that gives one.
pub >>=?_some {ℓ μ} :
    {A : Type ℓ} {B : Type μ} (o : Option A) (f : A → Option B) {b : B}
    → (o >>=? f) ≡ some b
    → (a : A) × (o ≡ some a) × (f a ≡ some b)
>>=?_some none f h = absurd (cc)
>>=?_some (some a) f h = (a, refl, h)

pub >>=_ok {ℓ κ μ} :
    {E : Type κ} {A : Type ℓ} {B : Type μ} (m : Result E A) (f : A → Result E B) {b : B}
    → (m >>= f) ≡ ok b
    → (a : A) × (m ≡ ok a) × (f a ≡ ok b)
>>=_ok (ok a) f h = (a, refl, h)
>>=_ok (fail e) f h = absurd (cc)
>>=_ok panic f h = absurd (cc)

pub some-inj {ℓ} : {A : Type ℓ} {a b : A} → some a ≡ some b → a ≡ b
some-inj e = cc

pub >>=?_of_some {ℓ μ} :
    {A : Type ℓ} {B : Type μ} {o : Option A} {a : A} (f : A → Option B)
    → o ≡ some a
    → (o >>=? f) ≡ f a
>>=?_of_some f e = ap (λ o. o >>=? f) e

pub >>=_of_ok {ℓ κ μ} :
    {E : Type κ} {A : Type ℓ} {B : Type μ} {m : Result E A} {a : A} (f : A → Result E B)
    → m ≡ ok a
    → (m >>= f) ≡ f a
>>=_of_ok f e = ap (λ m. m >>= f) e

pub >>=_of_fail {ℓ κ μ} :
    {E : Type κ} {A : Type ℓ} {B : Type μ} {m : Result E A} {x : E} (f : A → Result E B)
    → m ≡ fail x
    → (m >>= f) ≡ fail x
>>=_of_fail f e = ap (λ m. m >>= f) e

pub bind-agree {ℓ κ} :
    {A : Type ℓ} {E : Type κ} {f g : A → Result E A} (m : Result E A)
    → ((a : A) → f a ≡ g a)
    → (m >>= f) ≡ (m >>= g)
bind-agree (ok a) e = e a
bind-agree (fail x) e = refl
bind-agree panic e = refl

pub bind-ok {ℓ κ} : {A : Type ℓ} {E : Type κ} (m : Result E A) → (m >>= λ a. ok a) ≡ m
bind-ok (ok a) = refl
bind-ok (fail x) = refl
bind-ok panic = refl

pub bind_assoc {ℓ κ} :
    {A : Type ℓ} {E : Type κ} (f g h : A → Result E A) (m : Result E A)
    → ((a : A) → f a ≡ (g a >>= h))
    → (m >>= f) ≡ ((m >>= g) >>= h)
bind_assoc f g h (ok a) e = e a
bind_assoc f g h (fail x) e = refl
bind_assoc f g h panic e = refl
