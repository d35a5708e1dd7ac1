-- ===== src/Control/ConfidentialHart.antt =====
-- core/control_data/confidential_hart.rs and core/architecture/riscv/hart_lifecycle_state.rs. The
-- address of the security monitor's entry point is a parameter of the constructors.
pub mod Lifecycle
use ace_riscv.Base.{
  ℕ, ◌+◌, ◌-◌, ◌*◌, ◌^◌, ◌==◌, Bool, true, false, not, ◌&&◌, if◌then◌else◌, Option, none, some,
  bit_or, Outcome, ok, err, panic, ◌>>=◌, ◌>>◌, assure, assure_not, assert, add_usize, usize_max,
  cannot_start_not_stopped_hart, cannot_stop_not_started_hart, cannot_suspend_not_started_hart,
  cannot_start_not_suspended_hart, hart_already_running, pending_request,
}
use ace_riscv.Riscv.Words.{disable_bit}
use ace_riscv.Riscv.Registers.{GeneralPurposeRegister, a0, a1}
use ace_riscv.Riscv.Csr
use ace_riscv.Riscv.Csr.{
  Csr, Csrs, mepc, mstatus, mie, mideleg, medeleg, mtvec, sstatus, hstatus, hideleg, hedeleg, hie,
  hvip, htimedelta, scounteren, vstimecmp, vsstatus, vsip, vsatp, vsie, sscratch,
}
use ace_riscv.Riscv.HartState.{
  HartArchitecturalState, set_gpr, set_csr, empty, from_existing,
  store_control_status_registers_in_main_memory, load_control_status_registers_from_main_memory,
}
use ace_riscv.Control.Requests.{
  SbiResult, SbiHsmHartStart, GuestLoadPageFaultResult, PendingRequest, ExposeToConfidentialVm,
  hsm_hart_start_pending, request, result, load_page_fault_result, virtual_instruction_result,
  store_page_fault_result, resume, hart_start, hart_start_pending, system_reset, ipi,
  remote_fence_i, remote_sfence_vma, remote_sfence_vma_asid,
}

pub data HartLifecycleState : Type 0 where
  started stopped start_pending suspended shutdown : HartLifecycleState

unfoldable pub sbi_code : HartLifecycleState → ℕ
sbi_code started = 0
sbi_code stopped = 1
sbi_code start_pending = 2
sbi_code suspended = 4
sbi_code shutdown = 1

-- The derived `==` compares the discriminants.
abbrev pub discriminant : HartLifecycleState → ℕ
discriminant started = 0
discriminant stopped = 1
discriminant start_pending = 2
discriminant suspended = 3
discriminant shutdown = 4

abbrev pub same : HartLifecycleState → HartLifecycleState → Bool
same s t = discriminant s == discriminant t

pub record ConfidentialHart : Type 0 where
  pub state : HartArchitecturalState
  pub confidential_vm_id : Option ℕ
  pub lifecycle_state : HartLifecycleState
  pub pending : Option PendingRequest

-- The delegated exceptions, a bit for each cause. The fields of these masks are disjoint, so that
-- their union is their sum.
abbrev delegated_exceptions : ℕ
delegated_exceptions =
    2 ^ 0 + 2 ^ 1 + 2 ^ 2 + 2 ^ 3 + 2 ^ 4 + 2 ^ 5 + 2 ^ 6 + 2 ^ 7 + 2 ^ 8 + 2 ^ 12 + 2 ^ 13 + 2 ^ 15

-- VSSIP, VSTIP and VSEIP
abbrev vs_level_interrupts : ℕ
vs_level_interrupts = 2 ^ 2 + 2 ^ 6 + 2 ^ 10

unfoldable pub new : ℕ → HartArchitecturalState → HartLifecycleState → ConfidentialHart
unfolding set_csr
new entry_point h lifecycle = record {
  state = set_csr mtvec entry_point (
      set_csr hedeleg delegated_exceptions (
        set_csr medeleg delegated_exceptions (
          set_csr mie (2 ^ 5) (
            set_csr hie vs_level_interrupts (
              set_csr hideleg vs_level_interrupts (
                set_csr mideleg vs_level_interrupts (
                  set_csr hstatus (2 ^ 21 + 2 ^ 8 + 2 ^ 33)
                    (set_csr sstatus (2 ^ 5 + 2 ^ 33 + 2 * 2 ^ 13) h))))))));
  confidential_vm_id = none;
  lifecycle_state = lifecycle;
  pending = none;
}

unfoldable pub dummy : ℕ → ℕ → ConfidentialHart
unfolding new empty
dummy entry_point id = new entry_point (empty id) started

unfoldable pub from_vm_hart_reset : ℕ → ℕ → HartArchitecturalState → ConfidentialHart
unfolding new empty set_csr
from_vm_hart_reset entry_point id h =
    new entry_point
      (set_csr scounteren (h.csrs scounteren) (
        set_csr htimedelta (h.csrs htimedelta)
          (set_csr vstimecmp (usize_max - 1) (set_csr mstatus (h.csrs mstatus) (empty id)))))
      stopped

unfoldable pub from_vm_hart : ℕ → ℕ → HartArchitecturalState → Csrs → ConfidentialHart
unfolding new from_existing
from_vm_hart entry_point id h csrs = record (new entry_point (from_existing id h csrs) started) {
  pending = some request;
}

unfoldable pub set_confidential_vm_id : ℕ → ConfidentialHart → ConfidentialHart
set_confidential_vm_id id h = record h { confidential_vm_id = some id }

unfoldable pub confidential_hart_id : ConfidentialHart → ℕ
confidential_hart_id h = h.state.id

unfoldable pub take_request : ConfidentialHart → Option PendingRequest × ConfidentialHart
take_request h = (h.pending, record h { pending = none })

abbrev pub is_none {ℓ} : {A : Type ℓ} → Option A → Bool
is_none none = true
is_none (some a) = false

unfoldable pub is_dummy : ConfidentialHart → Bool
is_dummy h = is_none h.confidential_vm_id

unfoldable pub may_run : HartLifecycleState → Bool
may_run started = true
may_run start_pending = true
may_run suspended = true
may_run stopped = false
may_run shutdown = false

unfoldable pub is_executable : ConfidentialHart → Bool
unfolding is_dummy may_run
is_executable h = not (is_dummy h) && may_run h.lifecycle_state

unfoldable pub set_pending_request : PendingRequest → ConfidentialHart → Outcome ConfidentialHart
set_pending_request r h = do
  assure (is_none h.pending) pending_request
  ok (record h { pending = some r })

unfoldable pub transition_from_stopped_to_start_pending :
    SbiHsmHartStart → ConfidentialHart → Outcome ConfidentialHart
unfolding is_dummy set_gpr set_csr confidential_hart_id
transition_from_stopped_to_start_pending r h = do
  assure (same h.lifecycle_state stopped) cannot_start_not_stopped_hart
  assure_not (is_dummy h) hart_already_running
  let s = set_csr vsatp 0 h.state
  let m = disable_bit (disable_bit (s.csrs mstatus) 5) 7
  let v = disable_bit (s.csrs vsstatus) 1
  let s' = set_csr vsstatus v (set_csr mstatus m s)
  ok (record h {
    lifecycle_state = start_pending;
    pending = some hsm_hart_start_pending;
    state =
        set_csr mepc r.start_address (set_gpr a1 r.opaque (set_gpr a0 (confidential_hart_id h) s'));
  })

unfoldable pub transition_from_start_pending_to_started :
    ConfidentialHart → Outcome ConfidentialHart
unfolding is_dummy
transition_from_start_pending_to_started h = do
  assert (not (is_dummy h))
  ok (if same h.lifecycle_state start_pending then record h { lifecycle_state = started } else h)

unfoldable pub transition_from_started_to_suspended : ConfidentialHart → Outcome ConfidentialHart
unfolding is_dummy
transition_from_started_to_suspended h = do
  assert (not (is_dummy h))
  assure (same h.lifecycle_state started) cannot_suspend_not_started_hart
  ok (record h { lifecycle_state = suspended })

unfoldable pub transition_from_started_to_stopped : ConfidentialHart → Outcome ConfidentialHart
unfolding is_dummy
transition_from_started_to_stopped h = do
  assert (not (is_dummy h))
  assure (same h.lifecycle_state started) cannot_stop_not_started_hart
  ok (record h { lifecycle_state = stopped })

unfoldable pub transition_from_suspended_to_started : ConfidentialHart → Outcome ConfidentialHart
unfolding is_dummy
transition_from_suspended_to_started h = do
  assert (not (is_dummy h))
  assure (same h.lifecycle_state suspended) cannot_start_not_suspended_hart
  ok (record h { lifecycle_state = started })

unfoldable pub transition_to_shutdown : ConfidentialHart → Outcome ConfidentialHart
unfolding is_dummy
transition_to_shutdown h = do
  assert (not (is_dummy h))
  ok (record h { lifecycle_state = shutdown })

-- `mepc += length`
unfoldable pub advance : ℕ → ConfidentialHart → Outcome ConfidentialHart
unfolding set_csr
advance length h = do
  pc ← add_usize (h.state.csrs mepc) length
  ok (record h { state = set_csr mepc pc h.state })

abbrev pub set_result : ℕ → ℕ → ConfidentialHart → ConfidentialHart
set_result x y h = record h { state = set_gpr a1 y (set_gpr a0 x h.state) }

-- The fences act on the caches of the hart and on no register.
unfoldable pub apply : ExposeToConfidentialVm → ConfidentialHart → Outcome ConfidentialHart
unfolding advance set_gpr set_csr transition_from_start_pending_to_started transition_to_shutdown
apply (result v) h = advance v.pc_offset (set_result v.error_code v.value h)
apply (load_page_fault_result v) h =
    advance v.length (record h { state = set_gpr v.into v.loaded h.state })
apply (virtual_instruction_result instruction_length) h = advance instruction_length h
apply (store_page_fault_result instruction_length) h = advance instruction_length h
apply resume h = ok h
apply hart_start h = advance 4 (set_result 0 0 h)
apply hart_start_pending h = transition_from_start_pending_to_started h
apply system_reset h = transition_to_shutdown h
apply (ipi v) h =
    ok (record h { state = set_csr vsip (bit_or (h.state.csrs vsip) (2 ^ 2)) h.state })
apply (remote_fence_i v) h = ok h
apply (remote_sfence_vma v start size) h = ok h
apply (remote_sfence_vma_asid v start size asid) h = ok h

-- `store_control_status_registers_in_main_memory`: the hart, and the interrupts that are exposed.
unfoldable pub store_control_status_registers : Csrs → ConfidentialHart → ConfidentialHart × ℕ
unfolding store_control_status_registers_in_main_memory
store_control_status_registers csrs h =
    (record h { state = store_control_status_registers_in_main_memory csrs h.state }, csrs vsie)

-- `load_control_status_registers_from_main_memory` with the interrupts to inject.
unfoldable pub load_control_status_registers : ℕ → ConfidentialHart → Csrs → ConfidentialHart × Csrs
unfolding load_control_status_registers_from_main_memory set_csr
load_control_status_registers injected h csrs = (
  record h { state = set_csr hvip injected h.state },
  load_control_status_registers_from_main_memory h.state csrs,
)
