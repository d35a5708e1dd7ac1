-- ===== src/Control/ConfidentialVm.antt =====
-- core/control_data/confidential_vm.rs. The map of request queues is a function from the ids of harts;
-- the interrupt controller's `send_ipi`, which calls OpenSBI, is a parameter.
pub mod Switching
pub mod Broadcast
pub mod Isolation
use ace_riscv.Base.{
  ℕ, zero, suc, ◌==◌, ltb, Bool, true, false, not, ◌&&◌, if◌then◌else◌, Option, none, some, List,
  [], ◌∷◌, ◌++◌, length, get_elem?, set, Outcome, ok, err, panic, ◌>>=◌, ◌>>◌, ok_or, assure,
  assure_not, assert, Error, invalid_hart_id, hart_already_running, hart_not_executable,
  reached_max_number_of_remote_hart_requests,
}
use ace_riscv.Riscv.Csr.{Csrs, hgatp}
use ace_riscv.Riscv.Protection.{enable_confidential_vm, enable_hypervisor}
use ace_riscv.Mmu.Protector
use ace_riscv.Mmu.Protector.{ConfidentialVmMemoryProtector}
use ace_riscv.Control.Requests.{
  SbiHsmHartStart, InterHartRequest, ExposeToConfidentialVm, into_expose_to_confidential_vm,
  is_hart_selected,
}
use ace_riscv.Control.ConfidentialHart
use ace_riscv.Control.ConfidentialHart.{
  ConfidentialHart, HartLifecycleState, shutdown, same, set_confidential_vm_id,
  confidential_hart_id, is_dummy, is_executable, transition_from_stopped_to_start_pending,
}
use ace_riscv.Control.HardwareHart
use ace_riscv.Control.HardwareHart.{HardwareHart}

abbrev pub Queues : Type 0
Queues = ℕ → Option (List InterHartRequest)

pub record ConfidentialVm : Type 0 where
  pub id : ℕ
  pub confidential_harts : List ConfidentialHart
  pub memory_protector : ConfidentialVmMemoryProtector
  pub inter_hart_requests : Queues

-- `insert` into the map of queues.
unfoldable pub put_queue : ℕ → List InterHartRequest → Queues → Queues
put_queue key queue queues k = if k == key then some queue else queues k

-- The loop of `new`.
unfoldable pub adopt : ℕ → List ConfidentialHart → Queues → List ConfidentialHart × Queues
unfolding put_queue
adopt id [] queues = ([], queues)
adopt id (h ∷ hs) queues =
    let (hs', queues') = adopt id hs (put_queue (confidential_hart_id h) [] queues) in
    (set_confidential_vm_id id h ∷ hs', queues')

-- What `new` builds once the memory protector has the id of the confidential VM.
unfoldable pub assemble : ℕ → List ConfidentialHart → ConfidentialVmMemoryProtector → ConfidentialVm
unfolding adopt
assemble id harts protector =
    let (harts', queues) = adopt id harts (λ k. none) in
    record {
      id = id;
      confidential_harts = harts';
      memory_protector = protector;
      inter_hart_requests = queues;
    }

unfoldable pub new :
    ℕ → List ConfidentialHart → ConfidentialVmMemoryProtector → Outcome ConfidentialVm
unfolding Protector.set_confidential_vm_id assemble
new id harts protector = do
  protector' ← Protector.set_confidential_vm_id id protector
  ok (assemble id harts protector')

-- What `steal_confidential_hart` does after its guards: the registers of the two domains are
-- exchanged, then the harts, and the memory protection of the confidential VM is enabled.
unfoldable pub assign :
    ℕ → ConfidentialHart → ConfidentialVm → HardwareHart → ConfidentialVm × HardwareHart
assign id confidential_hart vm w =
    let (w', interrupts_to_inject) = HardwareHart.store_control_status_registers w in
    let (confidential_hart', csrs) =
      ConfidentialHart.load_control_status_registers interrupts_to_inject confidential_hart
        w'.csrs in
    (
      record vm { confidential_harts = set vm.confidential_harts id w'.confidential_hart },
      record w' {
        confidential_hart = confidential_hart';
        csrs = enable_confidential_vm vm.memory_protector.hgatp csrs;
      },
    )

unfoldable pub steal_confidential_hart :
    ℕ → ConfidentialVm → HardwareHart → Outcome (ConfidentialVm × HardwareHart)
unfolding is_dummy is_executable
steal_confidential_hart id vm w = do
  confidential_hart ← ok_or (get_elem? vm.confidential_harts id) invalid_hart_id
  assure_not (is_dummy confidential_hart) hart_already_running
  assure (is_executable confidential_hart) hart_not_executable
  ok (assign id confidential_hart vm w)

-- `Some(self.id) == hart.confidential_vm_id()`
abbrev pub belongs_to : ℕ → ConfidentialHart → Bool
belongs_to id h = elim h.confidential_vm_id [ none ↦ false | some i ↦ id == i ]

-- What `return_confidential_hart` does after its guards, with the dummy hart of the slot.
unfoldable pub unassign :
    ℕ → ConfidentialHart → ConfidentialVm → HardwareHart → ConfidentialVm × HardwareHart
unassign id dummy_hart vm w =
    let (confidential_hart, enabled_interrupts) =
      ConfidentialHart.store_control_status_registers w.csrs w.confidential_hart in
    let w' =
      HardwareHart.load_control_status_registers enabled_interrupts
        (record w { confidential_hart = dummy_hart }) in
    (
      record vm { confidential_harts = set vm.confidential_harts id confidential_hart },
      record w' { csrs = enable_hypervisor (w'.non_confidential.csrs hgatp) w'.csrs },
    )

unfoldable pub return_confidential_hart :
    ConfidentialVm → HardwareHart → Outcome (ConfidentialVm × HardwareHart)
unfolding is_dummy confidential_hart_id
return_confidential_hart vm w = do
  assert (not (is_dummy w.confidential_hart))
  assert (belongs_to vm.id w.confidential_hart)
  let id = confidential_hart_id w.confidential_hart
  assert (ltb id (length vm.confidential_harts))
  elim (get_elem? vm.confidential_harts id) [
    | none ↦ panic
    | some dummy_hart ↦ ok (unassign id dummy_hart vm w)
  ]

unfoldable pub all_shutdown : List ConfidentialHart → Bool
all_shutdown [] = true
all_shutdown (h ∷ hs) = same h.lifecycle_state shutdown && all_shutdown hs

unfoldable pub are_all_harts_shutdown : ConfidentialVm → Bool
unfolding all_shutdown
are_all_harts_shutdown vm = all_shutdown vm.confidential_harts

unfoldable pub transit_confidential_hart_to_start_pending :
    SbiHsmHartStart → ConfidentialVm → Outcome ConfidentialVm
unfolding transition_from_stopped_to_start_pending
transit_confidential_hart_to_start_pending r vm = do
  hart ← ok_or (get_elem? vm.confidential_harts r.confidential_hart_id) invalid_hart_id
  hart' ← transition_from_stopped_to_start_pending r hart
  ok (record vm { confidential_harts = set vm.confidential_harts r.confidential_hart_id hart' })

unfoldable pub confidential_hart_lifecycle_state : ℕ → ConfidentialVm → Outcome HartLifecycleState
confidential_hart_lifecycle_state id vm = do
  hart ← ok_or (get_elem? vm.confidential_harts id) invalid_hart_id
  ok hart.lifecycle_state

abbrev pub max_number_of_remote_hart_requests : ℕ
max_number_of_remote_hart_requests = 64

-- The closure that pushes a request on the queue of a hart.
unfoldable pub queue_request : InterHartRequest → ℕ → ConfidentialVm → Outcome ConfidentialVm
unfolding put_queue
queue_request r id vm = do
  requests ← ok_or (vm.inter_hart_requests id) invalid_hart_id
  assure (ltb (length requests) max_number_of_remote_hart_requests)
      reached_max_number_of_remote_hart_requests
  ok (record vm { inter_hart_requests = put_queue id (requests ++ r ∷ []) vm.inter_hart_requests })

module _ (send_ipi : ℕ → Outcome (Unit {0})) where
  -- The closure of `try_for_each` for one selected hart. A request that was queued stays so where the
  -- interrupt fails, so the new state comes with the result.
  unfoldable pub deliver :
      InterHartRequest
      → ℕ
      → ConfidentialHart
      → ConfidentialVm
      → Outcome (Outcome (Unit {0}) × ConfidentialVm)
  unfolding is_dummy into_expose_to_confidential_vm queue_request confidential_hart_id
  deliver r id hart vm =
      if not (is_dummy hart)
      then (do
        hart' ← ConfidentialHart.apply (into_expose_to_confidential_vm r) hart
        ok (ok tt, record vm { confidential_harts = set vm.confidential_harts id hart' }))
      else elim (queue_request r id vm) [
        | ok vm' ↦ ok (send_ipi (confidential_hart_id hart), vm')
        | err e ↦ ok (err e, vm)
        | panic ↦ panic
      ]

  -- The harts from `id` on, `n` of them.
  unfoldable pub broadcast_from :
      InterHartRequest → ℕ → ℕ → ConfidentialVm → Outcome (Outcome (Unit {0}) × ConfidentialVm)
  unfolding is_hart_selected deliver
  broadcast_from r zero id vm = ok (ok tt, vm)
  broadcast_from r (suc n) id vm = elim (is_hart_selected r id) [
    | false ↦ broadcast_from r n (suc id) vm
    | true ↦ elim (get_elem? vm.confidential_harts id) [
      | none ↦ panic
      | some hart ↦ elim (deliver r id hart vm) [
        | ok (ok _, vm') ↦ broadcast_from r n (suc id) vm'
        | ok (err e, vm') ↦ ok (err e, vm')
        | ok (panic, vm') ↦ panic
        | err e ↦ err e
        | panic ↦ panic
      ]
    ]
  ]

  unfoldable pub broadcast_inter_hart_request :
      InterHartRequest → ConfidentialVm → Outcome (Outcome (Unit {0}) × ConfidentialVm)
  unfolding broadcast_from
  broadcast_inter_hart_request r vm = broadcast_from r (length vm.confidential_harts) 0 vm
