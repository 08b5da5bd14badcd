-- ===== src/Base/Results.antt =====
-- A function that returns false and sets `*out_error`, or true and sets its result.
use mathlib.Core.Path.{◌≡◌, refl}
use mathlib.Core.List.{List}
use Prim.Native.Nat.{ℕ}

pub data Result (A : Type 0) : Type 0 where
  error : List ℕ → Result A
  ok : A → Result A

infixl 5 ◌>>=◌
abbrev pub ◌>>=◌ : {A B : Type 0} → Result A → (A → Result B) → Result B
error e >>= f = error e
ok a >>= f = f a

pub ok_inj : {A : Type 0} {a b : A} → ok a ≡ ok b → a ≡ b
ok_inj e = cc

pub error≢ok : {A : Type 0} {e : List ℕ} {a : A} → error e ≡ ok a → (B : Type 0) → B
error≢ok h B = cc

pub >>=-eq-ok :
    {A B : Type 0} {b : B} (r : Result A) (k : A → Result B)
    → (r >>= k) ≡ ok b
    → (a : A) × (r ≡ ok a) × (k a ≡ ok b)
>>=-eq-ok (error e) k h = cc
>>=-eq-ok (ok a) k h = (a, refl, h)
