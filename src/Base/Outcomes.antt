-- ===== src/Base/Outcomes.antt =====
-- error.rs and the `assure!` macros of debug.rs: a fallible step of the security monitor returns
-- `Ok`, returns one of its errors, or panics (a failed `assert!`, `unwrap` or `expect`).
use Prim.Native.Nat.{ℕ, ◌+◌, ◌-◌, ◌*◌, ◌<◌}
use native.Mathlib.Omega.{arith}
use mathlib.Core.Path.{◌≡◌, refl}
use mathlib.Core.Logic.{◌⊎◌, inl, inr}
use mathlib.Core.Bool.{Bool, true, false}
use mathlib.Core.Option.{Option, none, some}
use ace_riscv.Base.Tests.{ltb, leb, if◌then◌else◌}

pub data InitType : Type 0 where
  not_enough_memory memory_boundary : InitType

pub data Error : Type 0 where
  init : InitType → Error
  reinitialization : Error
  not_supported_hardware : Error
  fdt_parsing : Error
  sbi_argument : Error
  out_of_memory : Error
  out_of_pages : Error
  page_table_configuration : Error
  address_translation_failed : Error
  page_table_corrupted : Error
  too_many_confidential_vms : Error
  unsupported_paging_mode : Error
  memory_access_authorization : Error
  pending_request : Error
  invalid_hart_id : Error
  reached_max_number_of_harts_per_vm : Error
  invalid_confidential_vm_id : Error
  hart_already_running : Error
  hart_not_executable : Error
  invalid_riscv_instruction : ℕ → Error
  invalid_call : ℕ → Error
  pointer : Error
  reached_max_number_of_remote_hart_requests : Error
  interrupt_sending_error : Error
  cannot_start_not_stopped_hart : Error
  cannot_stop_not_started_hart : Error
  cannot_suspend_not_started_hart : Error
  cannot_start_not_suspended_hart : Error
  device_tree_error : Error

pub data Outcome {ℓ} (A : Type ℓ) : Type ℓ where
  ok : A → Outcome A
  err : Error → Outcome A
  panic : Outcome A

infixl 5 ◌>>=◌ ◌>>◌
abbrev pub ◌>>=◌ {ℓ κ} : {A : Type ℓ} {B : Type κ} → Outcome A → (A → Outcome B) → Outcome B
ok a >>= f = f a
err e >>= f = err e
panic >>= f = panic

abbrev pub ◌>>◌ {ℓ} : {B : Type ℓ} → Outcome (Unit {0}) → Outcome B → Outcome B
m >> k = m >>= λ _. k

-- `assure!(b, e)?`
abbrev pub assure : Bool → Error → Outcome (Unit {0})
assure true e = ok tt
assure false e = err e

-- `assure_not!(b, e)?`
abbrev pub assure_not : Bool → Error → Outcome (Unit {0})
assure_not true e = err e
assure_not false e = ok tt

-- `assert!(b)`
abbrev pub assert : Bool → Outcome (Unit {0})
assert true = ok tt
assert false = panic

-- `o.ok_or(e)?`
abbrev pub ok_or {ℓ} : {A : Type ℓ} → Option A → Error → Outcome A
ok_or none e = err e
ok_or (some a) e = ok a

-- `r.map_err(|_| e)`
abbrev pub map_err {ℓ} : {A : Type ℓ} → Outcome A → Error → Outcome A
map_err (ok a) e = ok a
map_err (err _) e = err e
map_err panic e = panic

-- `r.is_ok()`
abbrev pub is_ok {ℓ} : {A : Type ℓ} → Outcome A → Bool
is_ok (ok a) = true
is_ok (err e) = false
is_ok panic = false

pub >>=-eq-ok {ℓ κ} :
    {A : Type ℓ} {B : Type κ} (first : Outcome A) (next : A → Outcome B) {result : B}
    → (first >>= next) ≡ ok result
    → (a : A) × (first ≡ ok a) × (next a ≡ ok result)
>>=-eq-ok panic next h = cc
>>=-eq-ok (err e) next h = cc
>>=-eq-ok (ok a) next h = (a, refl, h)

-- The same for a goal, with the intermediate result as a variable.
pub >>=-ok-elim {ℓ κ ι} :
    {A : Type ℓ} {B : Type κ} {C : Type ι} (first : Outcome A) (next : A → Outcome B) {result : B}
    → (first >>= next) ≡ ok result
    → ((a : A) → first ≡ ok a → next a ≡ ok result → C)
    → C
>>=-ok-elim panic next h k = absurd cc
>>=-ok-elim (err e) next h k = absurd cc
>>=-ok-elim (ok a) next h k = k a refl h

-- `usize` is 64 bits wide.
abbrev pub usize_mod : ℕ
usize_mod = 0x1_0000_0000_0000_0000

abbrev pub usize_max : ℕ
usize_max = 0xffff_ffff_ffff_ffff

-- `+`, `-` and `*` on `usize`: the release profile has `overflow-checks = true`.
abbrev pub checked : ℕ → Outcome ℕ
checked n = if ltb n usize_mod then ok n else panic

abbrev pub add_usize : ℕ → ℕ → Outcome ℕ
add_usize a b = checked (a + b)

abbrev pub mul_usize : ℕ → ℕ → Outcome ℕ
mul_usize a b = checked (a * b)

abbrev pub sub_usize : ℕ → ℕ → Outcome ℕ
sub_usize a b = if leb b a then ok (a - b) else panic

pub add_usize-ok : (a b : ℕ) → a + b < usize_mod → add_usize a b ≡ ok (a + b)
add_usize-ok a b h = ground arith

pub Outcome-cases {ℓ} :
    {A : Type ℓ} (m : Outcome A)
    → ((a : A) × (m ≡ ok a)) ⊎ ((e : Error) × (m ≡ err e)) ⊎ (m ≡ panic)
Outcome-cases (ok a) = inl (a, refl)
Outcome-cases (err e) = inr (inl (e, refl))
Outcome-cases panic = inr (inr refl)
