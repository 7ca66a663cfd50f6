-- ===== src/Prelude/Result.antt =====
-- A call that may raise: its value, or the error raised.
use hermes_ops.Prelude.{◌≡◌, refl, ◌⊎◌, inl, inr, subst, Bool, true, false}

pub data Result {ℓ} (E A : Type ℓ) : Type ℓ where
  ok : A → Result E A
  err : E → Result E A

infixl 5 ◌>>=◌
abbrev pub ◌>>=◌ {ℓ} : {E A B : Type ℓ} → Result E A → (A → Result E B) → Result E B
ok a >>= next = next a
err e >>= next = err e

-- A chain that returns has returned in both parts.
pub bind_ok {ℓ} :
    {E A B : Type ℓ} (first : Result E A) (next : A → Result E B) {end : B}
    → (first >>= next) ≡ ok end
    → (mid : A) × (first ≡ ok mid) × (next mid ≡ ok end)
bind_ok (err e) next h = cc
bind_ok (ok a) next h = (a, refl, h)

pub Result-cases {ℓ} :
    {E A : Type ℓ} (r : Result E A) → ((a : A) × (r ≡ ok a)) ⊎ ((e : E) × (r ≡ err e))
Result-cases (ok a) = inl (a, refl)
Result-cases (err e) = inr (e, refl)

-- What holds of the value, if the call returns.
abbrev pub IfOk {ℓ} : {E A : Type ℓ} → (A → Type 0) → Result E A → Type 0
IfOk P (ok a) = P a
IfOk P (err e) = Unit

pub IfOk-bind {ℓ} :
    {E A B : Type ℓ} (P : B → Type 0) (first : Result E A) (next : A → Result E B)
    → ((a : A) → first ≡ ok a → IfOk P (next a))
    → IfOk P (first >>= next)
IfOk-bind P (ok a) next h = h a refl
IfOk-bind P (err e) next h = tt

pub IfOk-of {ℓ} :
    {E A : Type ℓ} (P : A → Type 0) (r : Result E A) (a : A) → r ≡ ok a → IfOk P r → P a
IfOk-of P r a e h = subst (IfOk P) e h

abbrev pub is_ok {ℓ} : {E A : Type ℓ} → Result E A → Bool
is_ok (ok a) = true
is_ok (err e) = false

pub is_ok-value {ℓ} : {E A : Type ℓ} (r : Result E A) → is_ok r ≡ true → (a : A) × (r ≡ ok a)
is_ok-value (ok a) h = (a, refl)
is_ok-value (err e) h = cc

-- A chain whose first part returns goes on with its value.
pub bind-ok {ℓ} :
    {E A B : Type ℓ} (first : Result E A) (next : A → Result E B) (a : A) (end : Result E B)
    → first ≡ ok a
    → next a ≡ end
    → (first >>= next) ≡ end
bind-ok (ok b) next a end e h = cc
bind-ok (err x) next a end e h = cc
