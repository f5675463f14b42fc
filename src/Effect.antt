-- ===== src/Effect.antt =====
-- Methods of objects: the object that a call leaves behind, with how the call ended. An exception
-- keeps what was written before it; a failed `assert` ends the process.
use dmn.Prelude.{ℕ, Bool, if◌then◌else◌}

-- Exceptions by class; `user` is one that client code throws.
pub data Error : Type 0 where
  logic_error runtime_error out_of_range invalid_argument bad_function_call : Error
  user : ℕ → Error

pub data Outcome (A : Type 0) : Type 0 where
  returned : A → Outcome A
  thrown : Error → Outcome A
  aborted : Outcome A

-- What a method does to its object.
abbrev pub M : Type 0 → Type 0 → Type 0
M S A = S → S × Outcome A

abbrev pub resume : {S A B : Type 0} → S × Outcome A → (A → M S B) → S × Outcome B
resume (s, returned a) f = f a s
resume (s, thrown e) f = (s, thrown e)
resume (s, aborted) f = (s, aborted)

infixl 5 ◌>>=◌ ◌>>◌
abbrev pub ◌>>=◌ : {S A B : Type 0} → M S A → (A → M S B) → M S B
◌>>=◌ m f s = resume (m s) f

abbrev pub ◌>>◌ : {S B : Type 0} → M S (Unit {0}) → M S B → M S B
◌>>◌ m k s = resume (m s) (λ _. k)

abbrev pub get : {S : Type 0} → M S S
get s = (s, returned s)

abbrev pub put : {S : Type 0} → S → M S (Unit {0})
put t s = (t, returned tt)

abbrev pub pure : {S A : Type 0} → A → M S A
pure a s = (s, returned a)

abbrev pub raise : {S A : Type 0} → Error → M S A
raise e s = (s, thrown e)

abbrev pub throw_if : {S : Type 0} → Bool → Error → M S (Unit {0})
throw_if b e s = if b then (s, thrown e) else (s, returned tt)

abbrev pub assert : {S : Type 0} → Bool → M S (Unit {0})
assert b s = if b then (s, returned tt) else (s, aborted)
