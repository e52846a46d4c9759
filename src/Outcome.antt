-- ===== src/Outcome.antt =====
-- The result of running C code: it ends with a value, it reads through a pointer to nothing (or
-- calls through a NULL function pointer), or it is still in a loop when the fuel is spent.
use imooc_sock_core_tech.Prelude.{◌≡◌, refl}

pub data Outcome {ℓ} (A : Type ℓ) : Type ℓ where
  done : A → Outcome A
  fault : Outcome A
  hang : Outcome A

infixl 5 ◌>>=◌
abbrev pub ◌>>=◌ {ℓ κ} : {A : Type ℓ} {B : Type κ} → Outcome A → (A → Outcome B) → Outcome B
done a >>= f = f a
fault >>= f = fault
hang >>= f = hang

-- Inversion of a run that ended.
pub >>=-eq-done {ℓ κ} :
    {A : Type ℓ} {B : Type κ} (m : Outcome A) (f : A → Outcome B) {b : B}
    → (m >>= f) ≡ done b
    → (a : A) × (m ≡ done a) × (f a ≡ done b)
>>=-eq-done (done a) f h = (a, refl, h)
>>=-eq-done fault f h = cc
>>=-eq-done hang f h = cc

-- Two continuations that agree on what the run ends with.
pub >>=-agree {ℓ κ} :
    {A : Type ℓ} {B : Type κ} (m : Outcome A) (f g : A → Outcome B)
    → ((a : A) → m ≡ done a → f a ≡ g a)
    → (m >>= f) ≡ (m >>= g)
>>=-agree (done a) f g same = same a refl
>>=-agree fault f g same = refl
>>=-agree hang f g same = refl
