-- ===== src/Results.antt =====
-- backend/src/lib/result.ts: values and typed errors.
use sorosense.Base.{String, ◌≡◌, refl, ◌⊎◌, inl, inr}

pub data ErrorCode : Type 0 where
  timeout http parse unavailable not_found : ErrorCode

pub data Result {ℓ} (A : Type ℓ) : Type ℓ where
  ok : A → Result A
  err : ErrorCode → String → Result A

pub Result-cases {ℓ} :
    {A : Type ℓ} (r : Result A)
    → ((code : ErrorCode) × ((why : String) × (r ≡ err code why))) ⊎ ((a : A) × (r ≡ ok a))
Result-cases (ok a) = inr (a, refl)
Result-cases (err code why) = inl (code, (why, refl))
