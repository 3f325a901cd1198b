-- ===== src/Scheduler/Retry.antt =====
-- `retryLeaseRecoveryWrite` of src/modules/scheduler/lease-scheduler.ts. The operation's n-th call
-- ends in an outcome; a pause is recorded by its milliseconds.
use mathlib.Core.Option
use braiker.Prelude.Result.{Result, ok, throw}
use braiker.Prelude.{
  List, [], ◌∷◌, Option, none, some, ℕ, zero, suc, ◌≡◌, arith, String, if◌then◌else◌, leb, ◌*◌,
}

pub data Outcome {ℓ} (T : Type ℓ) : Type ℓ where
  done : T → Outcome T
  write_conflict : String → Outcome T
  other_error : String → Outcome T

pub lease_recovery_max_attempts : ℕ
lease_recovery_max_attempts = 3

-- What the caller sees, the pauses, and how often the operation was called.
pub record Retried {ℓ} (T : Type ℓ) : Type ℓ where
  pub result : Result T
  pub pauses : List ℕ
  pub calls : ℕ

module _ {ℓ} {T : Type ℓ} where
  -- The first outcome that is no write conflict decides, among three calls at most; the pauses
  -- before the second and third are 100 and 200 milliseconds.
  abbrev pub decided : Outcome T → Outcome T → Outcome T → Retried T
  decided (done t) b c = record { result = ok t; pauses = []; calls = 1 }
  decided (other_error e) b c = record { result = throw e; pauses = []; calls = 1 }
  decided (write_conflict _) (done t) c = record { result = ok t; pauses = 100 ∷ []; calls = 2 }
  decided (write_conflict _) (other_error e) c = record {
    result = throw e;
    pauses = 100 ∷ [];
    calls = 2;
  }
  decided (write_conflict _) (write_conflict _) (done t) = record {
    result = ok t;
    pauses = 100 ∷ 200 ∷ [];
    calls = 3;
  }
  decided (write_conflict _) (write_conflict _) (other_error e) = record {
    result = throw e;
    pauses = 100 ∷ 200 ∷ [];
    calls = 3;
  }
  decided (write_conflict _) (write_conflict _) (write_conflict e) = record {
    result = throw e;
    pauses = 100 ∷ 200 ∷ [];
    calls = 3;
  }

module _ {ℓ} {T : Type ℓ} (operation : ℕ → Outcome T) where
  retried_after : ℕ → Retried T → Retried T
  retried_after pause rest = record rest { pauses = pause ∷ rest.pauses }

  -- The loop from `attempt` failed attempts on; `none` when the fuel ends.
  retry_from : ℕ → ℕ → Option (Retried T)
  unfolding lease_recovery_max_attempts retried_after
  retry_from zero attempt = none
  retry_from (suc fuel) attempt =
      let rest = retry_from fuel (suc attempt) in
      elim (operation attempt) [
        | done t ↦ some (record { result = ok t; pauses = []; calls = suc attempt })
        | other_error e ↦ some (record { result = throw e; pauses = []; calls = suc attempt })
        | write_conflict e ↦
            if leb lease_recovery_max_attempts (suc attempt)
            then some (record { result = throw e; pauses = []; calls = suc attempt })
            else Option.map (retried_after (suc attempt * 100)) rest
      ]

  pub retry_lease_recovery_write : Option (Retried T)
  retry_lease_recovery_write = retry_from lease_recovery_max_attempts 0

  -- For every operation the loop ends within its three attempts with the first outcome that is no
  -- write conflict, or with the third one; the pauses before the second and third call are 100 and
  -- 200 milliseconds.
  pub retry_lease_recovery_write_decides :
      retry_lease_recovery_write ≡ some (decided (operation 0) (operation 1) (operation 2))
  unfolding retry_lease_recovery_write retry_from
  retry_lease_recovery_write_decides = ground arith
