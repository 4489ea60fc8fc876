-- ===== src/Python/Gives.antt =====
-- Python code that raises nothing: what it gives.
use midi.Result.{Result, ok, stuck}
use midi.Prelude.{◌≡◌, refl, Option, some, List, [], ◌∷◌, ◌++◌, sym}
use midi.Python.{
  PyResult, returned, PyErr, ◌>>=◌, or_raise, Interpreter, HasMemory, raised, Result, map_result,
  unending, ok, err,
}

pub data Gives {A : Type 0} (P : A → Type 0) : PyResult A → Type 0 where
  gives : (a : A) → P a → Gives P (returned a)

pub returned-injective : {A : Type 0} (a b : A) → returned a ≡ returned b → a ≡ b
returned-injective a b e = cc

pub Gives-returned :
    {A : Type 0} {P : A → Type 0} {r : PyResult A} → Gives P r → (a : A) × (r ≡ returned a) × P a
Gives-returned (gives a p) = (a, refl, p)

pub Gives-weaken :
    {A : Type 0} {P R : A → Type 0} {r : PyResult A} → ((a : A) → P a → R a) → Gives P r → Gives R r
Gives-weaken f (gives a p) = gives a (f a p)

module _ {A B : Type 0} {P : A → Type 0} {R : B → Type 0} where
  pub Gives-bind :
      {m : PyResult A} {k : A → PyResult B}
      → Gives P m
      → ((a : A) → P a → Gives R (k a))
      → Gives R (m >>= k)
  Gives-bind (gives a p) h = h a p

module _ {A : Type 0} where
  pub or_raise-Gives :
      (o : Option A) (e : PyErr) (a : A) → o ≡ some a → Gives (λ x. x ≡ a) (or_raise o e)
  or_raise-Gives o e a h = rw h (gives a refl)

module _ (py : Interpreter) (memory : HasMemory py) {A : Type 0} where
  pub append-Gives : (xs : List A) (x : A) → Gives (λ ys. ys ≡ xs ++ (x ∷ [])) (py.append xs x)
  append-Gives xs x = rw (memory.appends xs x) (gives _ refl)

  -- A stored value is what is stored.
  pub set_item-Gives :
      {B : Type 0} {R : B → Type 0} (x : A) {k : A → PyResult B}
      → ((y : A) → y ≡ x → Gives R (k y))
      → Gives R (py.set_item x >>= k)
  set_item-Gives x h = rw (memory.stores x) (h x refl)

-- A step before a value has given one.
pub bind-returned :
    {A B : Type 0} (m : PyResult A) {k : A → PyResult B} (b : B)
    → m >>= k ≡ returned b
    → (a : A) × (m ≡ returned a) × (k a ≡ returned b)
bind-returned (returned a) b e = (a, refl, e)
bind-returned (raised failure) b e = cc
bind-returned unending b e = cc

pub map_result-returned :
    {A B : Type 0} (f : A → B) (m : Result A) (b : B)
    → map_result f m ≡ returned b
    → (a : A) × (m ≡ ok a) × (b ≡ f a)
map_result-returned f (ok a) b e = (a, refl, sym (returned-injective (f a) b e))
map_result-returned f (err failure) b e = cc
map_result-returned f stuck b e = cc
