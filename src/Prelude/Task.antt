-- ===== src/Prelude/Task.antt =====
-- An asynchronous function that is awaited: what it does to the state `W`, and its value, which is
-- `none` where the promise is rejected.
use mathlib.Core.Path.{◌≡◌, refl}
use mathlib.Core.Option.{Option, none, some}

abbrev pub Task : Type 0 → Type 0 → Type 0
Task W A = W → Option A × W

-- An operation and the rest, which is skipped if the promise is rejected.
abbrev pub await : {W A B : Type 0} → Option A × W → (A → Task W B) → Option B × W
await (none, w) f = (none, w)
await (some a, w) f = f a w

infixl 5 ◌>>=◌ ◌>>◌
abbrev pub ◌>>=◌ : {W A B : Type 0} → Task W A → (A → Task W B) → Task W B
(m >>= f) w = await (m w) f

abbrev pub ◌>>◌ : {W A B : Type 0} → Task W A → Task W B → Task W B
m >> k = m >>= λ _. k

abbrev pub resolve : {W A : Type 0} → A → Task W A
resolve a w = (some a, w)

-- What an asynchronous function that returns has awaited.
pub await-eq-some :
    {W A B : Type 0} (r : Option A × W) (f : A → Task W B) {b : B} {v : W}
    → await r f ≡ (some b, v)
    → (a : A) × (u : W) × (r ≡ (some a, u)) × (f a u ≡ (some b, v))
await-eq-some (none, w) f e = cc
await-eq-some (some a, w) f e = (a, w, refl, e)
