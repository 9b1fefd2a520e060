-- ===== src/Server/Replies.antt =====
-- The steps of a handler that has answered.
use buffdata.Prelude.{true, false, refl, ℕ, Bool, ◌≡◌, if◌then◌else◌, ap}
use buffdata.Prelude.Exec.{Result, ok, err, continue}
use buffdata.Runs.Service.{ServiceError, stored}
use buffdata.Runs.Models.{StoreError}
use buffdata.Runs.Tables.{Db}
use buffdata.Server.{HttpError, Handler, refuse, reply, answered}

pub answer-inj : {A : Type 0} {a b : A} → Path (Result HttpError A) (ok a) (ok b) → a ≡ b
answer-inj h = cc

pub refused-ok : {A : Type 0} {e : HttpError} {a : A} → Path (Result HttpError A) (err e) (ok a) → ⊥
refused-ok h = cc

pub both-inj :
    {A : Type 0} {a b : A} {s t : Db}
    → Path (Result HttpError A × Db) (ok a, s) (ok b, t)
    → (a ≡ b) × (s ≡ t)
both-inj h = (answer-inj (ap (λ r. r.0) h), ap (λ r. r.1) h)

pub then-ok :
    {A B : Type 0} (r : Result HttpError A × Db) (f : A → Handler B) (b : B) (t : Db)
    → continue r f ≡ (ok b, t)
    → (a : A) × (s' : Db) × (r ≡ (ok a, s')) × (f a s' ≡ (ok b, t))
then-ok (err e, s') f b t h = absurd (refused-ok (ap (λ r. r.0) h))
then-ok (ok a, s') f b t h = (a, s', refl, h)

pub service-ok :
    {A : Type 0} (r : Result ServiceError A × Db) (a : A) (t : Db)
    → answered r ≡ (ok a, t)
    → r ≡ (ok a, t)
service-ok (err e, s) a t h = absurd (refused-ok (ap (λ r. r.0) h))
service-ok (ok b, s) a t h = let (same, kept) = both-inj h in λ i. (ok (same i), kept i)

pub store-ok :
    {A : Type 0} (r : Result StoreError A × Db) (a : A) (t : Db)
    → answered (stored r) ≡ (ok a, t)
    → r ≡ (ok a, t)
store-ok (err e, s) a t h = absurd (refused-ok (ap (λ r. r.0) h))
store-ok (ok b, s) a t h = let (same, kept) = both-inj h in λ i. (ok (same i), kept i)

pub refuse-ok :
    {A : Type 0} (c : Bool) (n : ℕ) (m : Handler A) (s : Db) (a : A) (t : Db)
    → (if c then refuse n else m) s ≡ (ok a, t)
    → (c ≡ false) × (m s ≡ (ok a, t))
refuse-ok true n m s a t h = absurd (refused-ok (ap (λ r. r.0) h))
refuse-ok false n m s a t h = (refl, h)

pub reply-ok :
    {A : Type 0} (r : Result HttpError A) (s : Db) (a : A) (t : Db)
    → reply r s ≡ (ok a, t)
    → (r ≡ ok a) × (s ≡ t)
reply-ok r s a t h = (ap (λ x. x.0) h, ap (λ x. x.1) h)
