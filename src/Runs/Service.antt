-- ===== src/Runs/Service.antt =====
-- buffdata/runs/service.py: the operations of `RunService` on top of the store, and what they raise.
pub mod Lineage
pub mod Artifacts
pub mod Webhooks
pub mod Resume
pub mod Prepare
use buffdata.Prelude.{String, ◌≡◌}
use Prim.Native.Nat.{zero, suc}
use buffdata.Prelude.Exec.{Result, err, ok}
use buffdata.Runs.Models.{StoreError}
use buffdata.Security.Paths.{PathError}
use buffdata.Security.Network.{SecurityError}
use buffdata.Runs.Tables.{Db}

pub data ServiceError : Type 0 where
  of_store : StoreError → ServiceError
  of_path : PathError → ServiceError
  of_network : SecurityError → ServiceError
  value_error key_missing conflict : String → ServiceError

abbrev pub and_then :
    {A B : Type 0} → Result ServiceError A → (A → Result ServiceError B) → Result ServiceError B
and_then (err e) f = err e
and_then (ok a) f = f a

abbrev pub found : {A : Type 0} → Result StoreError A → Result ServiceError A
found (err e) = err (of_store e)
found (ok a) = ok a

abbrev pub stored : {A : Type 0} → Result StoreError A × Db → Result ServiceError A × Db
stored (r, s) = (found r, s)

pub ok_inj : {A : Type 0} {a b : A} → Path (Result ServiceError A) (ok a) (ok b) → a ≡ b
ok_inj h = cc

pub err_ok :
    {A : Type 0} {e : ServiceError} {a : A} → Path (Result ServiceError A) (err e) (ok a) → ⊥
err_ok h = cc
