-- ===== src/Base/Run.antt =====
-- Code that works on a state and may fault: `none` is an access that the C standard leaves undefined.
use mathlib.Core.Path.{◌≡◌}
use mathlib.Core.Option.{Option, none, some}

abbrev pub Run : Type 0 → Type 0 → Type 0
Run S A = S → Option (A × S)

abbrev pub pure : {S A : Type 0} → A → Run S A
pure a s = some (a, s)

abbrev pub fault : {S A : Type 0} → Run S A
fault s = none

infixl 5 ◌>>=◌ ◌>>◌
abbrev pub ◌>>=◌ : {S A B : Type 0} → Run S A → (A → Run S B) → Run S B
◌>>=◌ m f s = elim (m s) [ none ↦ none | some (a, s') ↦ f a s' ]

abbrev pub ◌>>◌ : {S A B : Type 0} → Run S A → Run S B → Run S B
m >> k = m >>= λ _. k

-- A step whose result is known.
pub >>=-some :
    {S A B : Type 0} (m : Run S A) (f : A → Run S B) (s s' : S) (a : A)
    → m s ≡ some (a, s')
    → (m >>= f) s ≡ f a s'
>>=-some m f s s' a e = rw (e, ◌>>=◌)

pub >>=-none :
    {S A B : Type 0} (m : Run S A) (f : A → Run S B) (s : S) → m s ≡ none → (m >>= f) s ≡ none
>>=-none m f s e = rw (e, ◌>>=◌)
