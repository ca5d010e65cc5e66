-- ===== src/Result.antt =====
-- Exceptions as values: include/common/exception.h and the codes of src/common/common.proto.
use thesis_dfs.Prelude.{Text, ◌≡◌, refl, Bool, true, false}

-- `enum ERROR_CODE`.
pub data ErrorCode : Type 0 where
  path_exists_exception : ErrorCode
  path_not_exists_exception : ErrorCode
  expected_file_exception : ErrorCode
  expected_dir_exception : ErrorCode
  expected_lock_conflict : ErrorCode
  redirect_to_master : ErrorCode
  out_of_range_exception : ErrorCode
  common_exception : ErrorCode

-- `MessageException`, `std::runtime_error` with its text, the two exceptions of `stoi`, a failed
-- `assert`, which ends the process, and an operation that the C++ standard leaves undefined.
pub data Error : Type 0 where
  message : ErrorCode → Text → Error
  runtime : Text → Error
  invalid_argument : Error
  out_of_range : Error
  aborted : Error
  undefined : Error

-- What a function returns or throws.
pub data Result {ℓ} (T : Type ℓ) : Type ℓ where
  err : Error → Result T
  ok : T → Result T

-- `if (b) throw e;`
abbrev pub throw_if : Bool → Error → Result (Unit {0})
throw_if false e = ok tt
throw_if true e = err e

-- What follows is run only if nothing was thrown.
infixl 5 ◌>>=◌
abbrev pub ◌>>=◌ {κ ℓ} : {V : Type κ} {T : Type ℓ} → Result T → (T → Result V) → Result V
err thrown >>= next = err thrown
ok value >>= next = next value

infixl 5 ◌>>◌
abbrev pub ◌>>◌ {ℓ} : {V : Type ℓ} → Result (Unit {0}) → Result V → Result V
check >> next = check >>= λ done. next

-- A run that returned went through both of its parts.
pub >>=-eq-ok {ℓ κ} :
    {T : Type ℓ} {V : Type κ} (part : Result T) (next : T → Result V) {v : V}
    → (part >>= next) ≡ ok v
    → (value : T) × (part ≡ ok value) × (next value ≡ ok v)
>>=-eq-ok (err thrown) next returned = cc
>>=-eq-ok (ok value) next returned = (value, refl, returned)
