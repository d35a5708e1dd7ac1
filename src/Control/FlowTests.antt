-- ===== src/Control/FlowTests.antt =====
-- core/control_data/storage.rs and the control flows: runs on a confidential VM with one hart.
use ace_riscv.Riscv.Pmp.{Access-same}
use ace_riscv.Base.{
  ℕ, ◌≡◌, refl, ◌==◌, if◌then◌else◌, none, some, List, [], ◌∷◌, get_elem?, Outcome, ok, err, panic,
}
use ace_riscv.Riscv.HartState.{empty}
use ace_riscv.Control.Requests.{InterHartRequest}
use ace_riscv.Control.ConfidentialHart.{
  ConfidentialHart, HartLifecycleState, started, suspended, shutdown, new, set_confidential_vm_id,
  transition_from_started_to_suspended, is_dummy, dummy, confidential_hart_id,
}
use ace_riscv.Control.HardwareHart.{HardwareHart, init}
use ace_riscv.Control.Samples.{
  protector, heap, layout, guarded, closed, opened, closed-Access, opened-IsConfigured,
}
use ace_riscv.Control.ConfidentialVm
use ace_riscv.Control.ConfidentialVm.{ConfidentialVm}
use ace_riscv.Control.Storage.{
  ControlData, lookup, remove, unique_id, insert_confidential_vm, confidential_vm,
  remove_confidential_vm,
}
use ace_riscv.Control.Storage.Laws.{unique_id-insert, remove_confidential_vm-shutdown}
use ace_riscv.Control.Exits.{
  Monitor, Exit, to_hypervisor, to_confidential_hart, exit_to_confidential_hart,
}
use ace_riscv.Riscv.Csr.{set, mcause, vstvec, vstval, vsepc}
use ace_riscv.Riscv.Registers.{a6, a7}
use ace_riscv.Riscv.HartState.{set_gpr}
use ace_riscv.Riscv.Sbi.{ace_extid}
use ace_riscv.Riscv.CompressedInstructions.{DecodedInstruction, other}
use ace_riscv.Control.Dispatch.{stop}
use ace_riscv.Control.Flow.{route, route_confidential_flow}
use ace_riscv.Control.Router.{Environment, route_non_confidential_flow}
use ace_riscv.Control.Router.Closing.{route_non_confidential_flow-Closed}
use ace_riscv.Control.Flow.Safety.{IsClosed, Closed}
use ace_riscv.Control.Runs.{IsReachable, traps, calls, done, enters, Run-Closed}
use ace_riscv.Control.Flow.Routes.{route-Closed}

abbrev send_ipi : ℕ → Outcome (Unit {0})
send_ipi id = ok tt

-- A hart of the confidential VM 7, in a lifecycle state; its registers ask to stop it.
abbrev hart_in : HartLifecycleState → ConfidentialHart
hart_in s = set_confidential_vm_id 7 (new 0x8000 (set_gpr a6 1 (set_gpr a7 0x48534d (empty 0))) s)

-- The confidential VM while its hart is assigned, with the requests that wait for the hart.
abbrev vm_with : List InterHartRequest → ConfidentialVm
vm_with rs = record {
  id = 7;
  confidential_harts = dummy 0x8000 3 ∷ [];
  memory_protector = protector;
  inter_hart_requests = λ k. if k == 0 then some rs else none;
}

abbrev running : HartLifecycleState → List InterHartRequest → Monitor
running s rs = record {
  control_data = vm_with rs ∷ [];
  hardware_hart = record (init 0x8000 3 (guarded opened)) { confidential_hart = hart_in s };
  heap = heap;
  memory_layout = layout;
}

abbrev exited : Exit
exited = elim (route 0x9000 send_ipi stop (running started [])) [
  | ok x ↦ x
  | err e ↦ to_hypervisor (running started [])
  | panic ↦ to_hypervisor (running started [])
]

stop_exits : route 0x9000 send_ipi stop (running started []) ≡ ok exited
unfolding route ace_riscv.Control.ConfidentialHart.transition_from_started_to_stopped
    set_confidential_vm_id new ace_riscv.Control.Exits.into_non_confidential_flow empty
    ConfidentialVm.unassign ace_riscv.Control.HardwareHart.load_control_status_registers dummy
    ace_riscv.Control.Exits.exit_to_hypervisor ace_riscv.Control.HardwareHart.apply
    ace_riscv.Riscv.Words.are_bits_enabled ace_riscv.Riscv.Protection.enable_hypervisor init
stop_exits = refl

route-Closed_example : Closed layout exited
unfolding init
route-Closed_example =
    route-Closed layout 0x9000 send_ipi stop (running started []) exited opened-IsConfigured
      stop_exits

abbrev stored : ControlData
stored = vm_with [] ∷ []

abbrev next_vm : ConfidentialVm
next_vm = record (vm_with []) { id = 8; confidential_harts = hart_in shutdown ∷ [] }

unique_id-insert_example :
    (d : ControlData) × (insert_confidential_vm next_vm stored ≡ ok (8, d))
    × (confidential_vm 8 d ≡ ok next_vm)
unfolding unique_id
unique_id-insert_example = unique_id-insert stored 8 next_vm refl refl

remove_confidential_vm-shutdown_example :
    (lookup 8 (next_vm ∷ stored) ≡ some next_vm)
    × (stored ≡ remove 8 (next_vm ∷ stored))
    × ((i : ℕ) (h : ConfidentialHart)
        → get_elem? next_vm.confidential_harts i ≡ some h
        → h.lifecycle_state ≡ shutdown)
unfolding remove_confidential_vm set_confidential_vm_id new
remove_confidential_vm-shutdown_example =
    remove_confidential_vm-shutdown 8 (next_vm ∷ stored) stored next_vm refl

-- The hypervisor calls the monitor to run the hart 0 of the confidential VM 7, which is not assigned.
abbrev waiting : Monitor
waiting = record {
  control_data = record (vm_with []) { confidential_harts = hart_in started ∷ [] } ∷ [];
  hardware_hart =
      record (init 0x8000 3
        (set mcause 9 (set vstvec 7 (set vstval ace_extid (set vsepc 1010 (guarded closed)))))) {
          non_confidential = set_gpr a6 1010 (set_gpr a7 ace_extid (empty 3));
        };
  heap = heap;
  memory_layout = layout;
}

abbrev monitor_of : Outcome Exit → Monitor
monitor_of (ok (to_confidential_hart m)) = m
monitor_of (ok (to_hypervisor m)) = m
monitor_of (err e) = waiting
monitor_of panic = waiting

-- An OpenSBI that does nothing, device trees with one hart, and a decoder that knows no instruction.
abbrev env : Environment
env = record {
  state_address = 0x9000;
  entry_point = 0x8000;
  send_ipi = send_ipi;
  sbi_trap_handler = λ regs csrs. (regs, csrs);
  number_of_harts = λ address memory. ok 1;
}

abbrev decode : ℕ → DecodedInstruction
decode n = other

abbrev instruction_length : ℕ → ℕ
instruction_length n = 4

abbrev assigned : Monitor
assigned = monitor_of (route_non_confidential_flow env waiting)

-- The hart runs and makes a call.
abbrev trapped : Monitor
trapped = record assigned {
  hardware_hart = record assigned.hardware_hart {
    csrs = set mcause 10 assigned.hardware_hart.csrs;
  };
}

abbrev stopped_again : Monitor
stopped_again =
    monitor_of (route_confidential_flow 0x9000 send_ipi decode instruction_length trapped)

resume_enters : route_non_confidential_flow env waiting ≡ ok (to_confidential_hart assigned)
unfolding route_non_confidential_flow init dummy ace_riscv.Riscv.Registers.set
    set_confidential_vm_id ConfidentialVm.assign
    ace_riscv.Control.ConfidentialHart.load_control_status_registers exit_to_confidential_hart
    ace_riscv.Control.ConfidentialHart.apply
resume_enters = refl

stop_enters :
    route_confidential_flow 0x9000 send_ipi decode instruction_length trapped
    ≡ ok (to_hypervisor stopped_again)
unfolding route_non_confidential_flow init dummy ace_riscv.Riscv.Registers.set
    set_confidential_vm_id ConfidentialVm.assign
    ace_riscv.Control.ConfidentialHart.load_control_status_registers exit_to_confidential_hart
    ace_riscv.Control.ConfidentialHart.apply route_confidential_flow
    ace_riscv.Control.ConfidentialHart.transition_from_started_to_stopped
    ace_riscv.Control.Exits.into_non_confidential_flow ConfidentialVm.unassign
    ace_riscv.Control.HardwareHart.load_control_status_registers
    ace_riscv.Control.HardwareHart.store_control_status_registers
    ace_riscv.Control.Exits.exit_to_hypervisor ace_riscv.Control.HardwareHart.apply
    ace_riscv.Riscv.Words.are_bits_enabled ace_riscv.Riscv.Protection.enable_hypervisor
stop_enters = refl

waiting-IsClosed : IsClosed layout waiting
unfolding init dummy is_dummy new empty set
waiting-IsClosed = (
  Access-same layout 0 (guarded closed) waiting.hardware_hart.csrs (refl, refl, refl) closed-Access,
  refl,
)

Run-Closed_example : Closed layout (to_hypervisor stopped_again)
unfolding IsReachable Closed route_non_confidential_flow set
Run-Closed_example =
    Run-Closed env decode instruction_length layout (λ regs csrs. (refl, refl, refl))
      waiting-IsClosed
      (enters
        (calls waiting waiting (to_confidential_hart assigned) ((refl, refl, refl), refl)
          resume_enters)
        (enters
          (traps assigned trapped (to_hypervisor stopped_again) (refl, refl, refl) stop_enters)
          (done (to_hypervisor stopped_again))))

route_non_confidential_flow-Closed_example : Closed layout (to_confidential_hart assigned)
route_non_confidential_flow-Closed_example =
    route_non_confidential_flow-Closed layout env (λ regs csrs. (refl, refl, refl)) waiting
      (to_confidential_hart assigned) waiting-IsClosed resume_enters
