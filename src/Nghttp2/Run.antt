-- ===== src/Nghttp2/Run.antt =====
-- How a call into src/nghttp2/lib ends: with a value, with an error code of nghttp2.h, in a fault,
-- which is a failed `assert` or an access outside the object, or with the model's fuel spent.
use dusty.Base.{ℕ, Bool, true, false, Option, none, some}

pub data Error : Type 0 where
  nomem buffer_error frame_size_error header_comp flow_control : Error
  frame_size_error_positive : Error
  http_header http_messaging ignore_http_header remove_http_header : Error

pub data Run {ℓ} (A : Type ℓ) : Type ℓ where
  fault out_of_fuel : Run A
  err : Error → Run A
  ok : A → Run A

abbrev pub ◌>>=◌ {ℓ κ} : {V : Type ℓ} {W : Type κ} → Run V → (V → Run W) → Run W
fault >>= next = fault
out_of_fuel >>= next = out_of_fuel
err code >>= next = err code
ok value >>= next = next value

abbrev pub ◌>>◌ {ℓ} : {W : Type ℓ} → Run (Unit {0}) → Run W → Run W
first >> next = first >>= λ done. next

infixl 5 ◌>>=◌ ◌>>◌
-- `assert`
abbrev pub assert : Bool → Run (Unit {0})
assert true = ok tt
assert false = fault

abbrev pub or_fault {ℓ} : {A : Type ℓ} → Option A → Run A
or_fault (some a) = ok a
or_fault none = fault

-- The answers of the allocator that the application hands to nghttp2: whether a request for a
-- number of bytes succeeds. The allocator is not part of the repository.
pub record Mem : Type 0 where
  pub malloc : ℕ → Bool
  pub realloc : ℕ → Bool

abbrev pub guard : Bool → Error → Run (Unit {0})
guard true e = ok tt
guard false e = err e
