-- ===== src/Core/Cron/Parse/Gives.antt =====
-- What holds of a value that a parser gives, whether or not it gives one.
use hobbyist.Base.{◌≡◌, refl, subst, Bool, true, false}
use hobbyist.Core.Cron.Parse.{CronError, Parsed, ok, invalid, ◌>>=◌, ◌>>◌, throw_if}

abbrev pub Gives {ℓ κ} : {A : Type ℓ} → (A → Type κ) → Parsed A → Type κ
Gives P (ok value) = P value
Gives P (invalid error) = Unit

pub Gives-bind {ℓ κ μ ν} :
    {A : Type ℓ} {B : Type κ} {P : A → Type μ} (Q : B → Type ν) (m : Parsed A) (next : A → Parsed B)
    → Gives P m
    → ((a : A) → P a → Gives Q (next a))
    → Gives Q (m >>= next)
Gives-bind Q (ok a) next p f = f a p
Gives-bind Q (invalid e) next p f = tt

pub Gives-guard {ℓ κ} :
    {B : Type ℓ} (Q : B → Type κ) (test : Bool) (e : CronError) (next : Parsed B)
    → (test ≡ false → Gives Q next)
    → Gives Q (throw_if test e >> next)
Gives-guard Q true e next f = tt
Gives-guard Q false e next f = f refl

pub Gives-ok {ℓ κ} :
    {A : Type ℓ} (P : A → Type κ) (m : Parsed A) {a : A} → m ≡ ok a → Gives P m → P a
Gives-ok P m e p = subst (Gives P) e p

pub Gives-mono {ℓ κ μ} :
    {A : Type ℓ} {P : A → Type κ} (Q : A → Type μ) (m : Parsed A)
    → Gives P m
    → ((a : A) → P a → Q a)
    → Gives Q m
Gives-mono Q (ok a) p f = f a p
Gives-mono Q (invalid e) p f = tt
