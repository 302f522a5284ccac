-- ===== src/Outcome.antt =====
-- What a Go call does: it returns a value, returns an error, panics, or never returns. A loop that
-- runs out of fuel is `diverges`.
use claude_ds_project.Base.{◌≡◌, refl}

pub data Error : Type 0 where
  retain_not_positive insert_empty delete_not_positive unknown_op consumed_mismatch : Error
  produced_mismatch old_len_mismatch retain_exceeds delete_exceeds not_consumed : Error

pub data Outcome {ℓ} (A : Type ℓ) : Type ℓ where
  ok : A → Outcome A
  err : Error → Outcome A
  panic : Outcome A
  diverges : Outcome A

infixl 5 ◌>>=◌
abbrev pub ◌>>=◌ {ℓ κ} : {A : Type ℓ} {B : Type κ} → Outcome A → (A → Outcome B) → Outcome B
panic >>= next = panic
diverges >>= next = diverges
err e >>= next = err e
ok x >>= next = next x

-- A bind that returned did so because both parts did.
pub >>=-eq-ok {ℓ κ} :
    {A : Type ℓ} {B : Type κ} {y : B} (o : Outcome A) (next : A → Outcome B)
    → (o >>= next) ≡ ok y
    → (x : A) × (o ≡ ok x) × (next x ≡ ok y)
>>=-eq-ok (ok x) next h = (x, refl, h)
>>=-eq-ok (err e) next h = cc
>>=-eq-ok panic next h = cc
>>=-eq-ok diverges next h = cc

pub >>=_assoc {ℓ κ ι} :
    {A : Type ℓ} {B : Type κ} {C : Type ι} (m : Outcome A) (f : A → Outcome B) (g : B → Outcome C)
    → (m >>= f >>= g) ≡ (m >>= λ a. f a >>= g)
>>=_assoc (ok a) f g = refl
>>=_assoc (err e) f g = refl
>>=_assoc panic f g = refl
>>=_assoc diverges f g = refl

pub >>=_congr {ℓ κ} :
    {A : Type ℓ} {B : Type κ} (m : Outcome A) (f g : A → Outcome B)
    → ((a : A) → f a ≡ g a)
    → (m >>= f) ≡ (m >>= g)
>>=_congr (ok a) f g h = h a
>>=_congr (err e) f g h = refl
>>=_congr panic f g h = refl
>>=_congr diverges f g h = refl
