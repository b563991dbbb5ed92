-- ===== src/Interpolate/Outcome.antt =====
-- Results that end as the engine documents it: a value that satisfies a predicate, or an error of the
-- resolution category, and never a panic.
use tmx.Base.{◌≡◌, ◌≢◌, refl, Bool, true, false, Option, none, some, if◌then◌else◌}
use tmx.Error.{
  Result, ok, err, panic, RunError, Message, resolution, resolution_error, reject_if, ok_or, ◌>>=◌,
}

unfoldable pub Yields : {A : Type 0} → (A → Type 0) → Result A → Type 0
Yields P (ok a) = P a
Yields P (err e) = e.category ≡ resolution
Yields P panic = ⊥

pub ok-Yields : {A : Type 0} (P : A → Type 0) (a : A) → P a → Yields P (ok a)
unfolding Yields
ok-Yields P a h = h

pub err-Yields :
    {A : Type 0} (P : A → Type 0) (e : RunError) → e.category ≡ resolution → Yields P (err e)
unfolding Yields
err-Yields P e h = h

pub bind-Yields :
    {A B : Type 0} (P : A → Type 0) (Q : B → Type 0) (m : Result A) (f : A → Result B)
    → Yields P m
    → ((a : A) → P a → Yields Q (f a))
    → Yields Q (m >>= f)
unfolding Yields
bind-Yields P Q (ok a) f h k = k a h
bind-Yields P Q (err e) f h k = h
bind-Yields P Q panic f h k = absurd h

pub weaken-Yields :
    {A : Type 0} (P Q : A → Type 0) (m : Result A) → ((a : A) → P a → Q a) → Yields P m → Yields Q m
unfolding Yields
weaken-Yields P Q (ok a) k h = k a h
weaken-Yields P Q (err e) k h = h
weaken-Yields P Q panic k h = h

pub reject_if-Yields :
    (b : Bool) (code : _) (message : Message)
    → Yields (λ _. b ≡ false) (reject_if b (resolution_error code message))
unfolding Yields
reject_if-Yields true code message = refl
reject_if-Yields false code message = refl

pub ok_or-Yields :
    {A : Type 0} (o : Option A) (code : _) (message : Message)
    → Yields (λ a. o ≡ some a) (ok_or o (resolution_error code message))
unfolding Yields
ok_or-Yields none code message = refl
ok_or-Yields (some a) code message = refl

pub if-Yields :
    {A : Type 0} (P : A → Type 0) (b : Bool) (x y : Result A)
    → Yields P x
    → Yields P y
    → Yields P (if b then x else y)
if-Yields P true x y h k = h
if-Yields P false x y h k = k

-- Any value will do.
abbrev pub Any : {A : Type 0} → A → Type 0
Any a = Unit

pub found-Yields :
    {A : Type 0} (o : Option A) (code : _) (message : Message)
    → Yields Any (ok_or o (resolution_error code message))
unfolding Yields
found-Yields none code message = refl
found-Yields (some a) code message = tt

pub Yields-of :
    {A : Type 0} (r : Result A)
    → r ≢ panic
    → ((e : RunError) → r ≡ err e → e.category ≡ resolution)
    → Yields Any r
unfolding Yields
Yields-of (ok a) safe named = tt
Yields-of (err e) safe named = named e refl
Yields-of panic safe named = safe refl
