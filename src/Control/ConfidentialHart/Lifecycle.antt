-- ===== src/Control/ConfidentialHart/Lifecycle.antt =====
-- core/control_data/confidential_hart.rs: the state machine of a hart's lifecycle. Its operations, as
-- the control flows call them on a hart, are the steps.
use ace_riscv.Base.{
  ℕ, ◌≡◌, refl, ◌∙◌, ◌⊎◌, inl, inr, false, List, [], ◌∷◌, Outcome, ok, ◌>>=◌, >>=-eq-ok, arith,
}
use ace_riscv.Riscv.HartState.{set_gpr}
use ace_riscv.Control.Requests.{
  SbiHsmHartStart, PendingRequest, ExposeToConfidentialVm, result, load_page_fault_result,
  virtual_instruction_result, store_page_fault_result, resume, hart_start, hart_start_pending,
  system_reset, ipi, remote_fence_i, remote_sfence_vma, remote_sfence_vma_asid,
}
use ace_riscv.Control.ConfidentialHart.{
  HartLifecycleState, started, stopped, start_pending, suspended, shutdown, ConfidentialHart,
  take_request, may_run, is_executable, set_pending_request,
  transition_from_stopped_to_start_pending, transition_from_start_pending_to_started,
  transition_from_started_to_suspended, transition_from_started_to_stopped,
  transition_from_suspended_to_started, transition_to_shutdown, advance, apply, set_result,
}

pub data HartOperation : Type 0 where
  start : SbiHsmHartStart → HartOperation
  suspend stop wake shut take : HartOperation
  expose : ExposeToConfidentialVm → HartOperation
  wait : PendingRequest → HartOperation

unfoldable pub perform : HartOperation → ConfidentialHart → Outcome ConfidentialHart
unfolding transition_from_stopped_to_start_pending transition_from_started_to_suspended
    transition_from_started_to_stopped transition_from_suspended_to_started transition_to_shutdown
    apply set_pending_request take_request
perform (start r) h = transition_from_stopped_to_start_pending r h
perform suspend h = transition_from_started_to_suspended h
perform stop h = transition_from_started_to_stopped h
perform wake h = transition_from_suspended_to_started h
perform shut h = transition_to_shutdown h
perform take h = ok ((take_request h).1)
perform (expose t) h = apply t h
perform (wait r) h = set_pending_request r h

-- The transitions that the state machine allows.
pub data Step : HartLifecycleState → HartLifecycleState → Type 0 where
  starts : Step stopped start_pending
  runs : Step start_pending started
  suspends : Step started suspended
  stops : Step started stopped
  wakes : Step suspended started
  shuts : (s : HartLifecycleState) → Step s shutdown

-- The lifecycle state of `h'` is that of `h` or one step further, and its confidential VM is the same.
abbrev Follows : ConfidentialHart → ConfidentialHart → Type 0
Follows h h' =
    ((h'.lifecycle_state ≡ h.lifecycle_state) ⊎ Step h.lifecycle_state h'.lifecycle_state)
    × (h'.confidential_vm_id ≡ h.confidential_vm_id)

advance-Follows :
    (n : ℕ) (h : ConfidentialHart) {h' : ConfidentialHart}
    → advance n h ≡ ok h'
    → (h'.lifecycle_state ≡ h.lifecycle_state) × (h'.confidential_vm_id ≡ h.confidential_vm_id)
unfolding advance
advance-Follows n h {h'} q = ground arith

module _ (h h' : ConfidentialHart) where
  starts-Follows :
      (r : SbiHsmHartStart) → transition_from_stopped_to_start_pending r h ≡ ok h' → Follows h h'
  unfolding transition_from_stopped_to_start_pending
  starts-Follows r q =
      let (a, b, c) : (h.lifecycle_state ≡ stopped)
          × (h'.lifecycle_state ≡ start_pending)
          × (h'.confidential_vm_id ≡ h.confidential_vm_id) =
        ground arith in
      (inr (rw (a, b) starts), c)

  suspends-Follows : transition_from_started_to_suspended h ≡ ok h' → Follows h h'
  unfolding transition_from_started_to_suspended
  suspends-Follows q =
      let (a, b, c) : (h.lifecycle_state ≡ started)
          × (h'.lifecycle_state ≡ suspended)
          × (h'.confidential_vm_id ≡ h.confidential_vm_id) =
        ground arith in
      (inr (rw (a, b) suspends), c)

  stops-Follows : transition_from_started_to_stopped h ≡ ok h' → Follows h h'
  unfolding transition_from_started_to_stopped
  stops-Follows q =
      let (a, b, c) : (h.lifecycle_state ≡ started)
          × (h'.lifecycle_state ≡ stopped)
          × (h'.confidential_vm_id ≡ h.confidential_vm_id) =
        ground arith in
      (inr (rw (a, b) stops), c)

  wakes-Follows : transition_from_suspended_to_started h ≡ ok h' → Follows h h'
  unfolding transition_from_suspended_to_started
  wakes-Follows q =
      let (a, b, c) : (h.lifecycle_state ≡ suspended)
          × (h'.lifecycle_state ≡ started)
          × (h'.confidential_vm_id ≡ h.confidential_vm_id) =
        ground arith in
      (inr (rw (a, b) wakes), c)

  shuts-Follows : transition_to_shutdown h ≡ ok h' → Follows h h'
  unfolding transition_to_shutdown
  shuts-Follows q =
      let (b, c) : (h'.lifecycle_state ≡ shutdown)
          × (h'.confidential_vm_id ≡ h.confidential_vm_id) =
        ground arith in
      (inr (rw b (shuts h.lifecycle_state)), c)

  runs-Follows : transition_from_start_pending_to_started h ≡ ok h' → Follows h h'
  unfolding transition_from_start_pending_to_started
  runs-Follows q =
      let (c, d) : (h'.confidential_vm_id ≡ h.confidential_vm_id)
          × ((h'.lifecycle_state ≡ h.lifecycle_state)
              ⊎ ((h.lifecycle_state ≡ start_pending) × (h'.lifecycle_state ≡ started))) =
        ground arith in
      elim d [ inl e ↦ (inl e, c) | inr (a, b) ↦ (inr (rw (a, b) runs), c) ]

  stays :
      (h'.lifecycle_state ≡ h.lifecycle_state) × (h'.confidential_vm_id ≡ h.confidential_vm_id)
      → Follows h h'
  stays (a, b) = (inl a, b)

  apply-Follows : (t : ExposeToConfidentialVm) → apply t h ≡ ok h' → Follows h h'
  unfolding apply
  apply-Follows (result v) q =
      stays (advance-Follows v.pc_offset (set_result v.error_code v.value h) q)
  apply-Follows (load_page_fault_result v) q =
      stays (advance-Follows v.length (record h { state = set_gpr v.into v.loaded h.state }) q)
  apply-Follows (virtual_instruction_result n) q = stays (advance-Follows n h q)
  apply-Follows (store_page_fault_result n) q = stays (advance-Follows n h q)
  apply-Follows resume q = stays (ground arith)
  apply-Follows hart_start q = stays (advance-Follows 4 (set_result 0 0 h) q)
  apply-Follows hart_start_pending q = runs-Follows q
  apply-Follows system_reset q = shuts-Follows q
  apply-Follows (ipi v) q = stays (ground arith)
  apply-Follows (remote_fence_i v) q = stays (ground arith)
  apply-Follows (remote_sfence_vma v from size) q = stays (ground arith)
  apply-Follows (remote_sfence_vma_asid v from size asid) q = stays (ground arith)

-- An operation on a hart that succeeds keeps the lifecycle state or takes one step of the state
-- machine, and keeps the confidential VM that owns the hart.
pub perform-Step :
    (op : HartOperation) (h h' : ConfidentialHart)
    → perform op h ≡ ok h'
    → ((h'.lifecycle_state ≡ h.lifecycle_state) ⊎ Step h.lifecycle_state h'.lifecycle_state)
      × (h'.confidential_vm_id ≡ h.confidential_vm_id)
unfolding perform take_request set_pending_request
perform-Step (start r) h h' q = starts-Follows h h' r q
perform-Step suspend h h' q = suspends-Follows h h' q
perform-Step stop h h' q = stops-Follows h h' q
perform-Step wake h h' q = wakes-Follows h h' q
perform-Step shut h h' q = shuts-Follows h h' q
perform-Step take h h' q = stays h h' (ground arith)
perform-Step (expose t) h h' q = apply-Follows h h' t q
perform-Step (wait r) h h' q = stays h h' (ground arith)

-- A run of operations; it ends at the first one that fails.
unfoldable pub perform_all : List HartOperation → ConfidentialHart → Outcome ConfidentialHart
unfolding perform
perform_all [] h = ok h
perform_all (op ∷ ops) h = do h' ← perform op h; perform_all ops h'

Step-from_shutdown : {s s' : HartLifecycleState} → Step s s' → s ≡ shutdown → s' ≡ shutdown
Step-from_shutdown starts e = absurd (ground arith)
Step-from_shutdown runs e = absurd (ground arith)
Step-from_shutdown suspends e = absurd (ground arith)
Step-from_shutdown stops e = absurd (ground arith)
Step-from_shutdown wakes e = absurd (ground arith)
Step-from_shutdown (shuts s) e = refl

-- A hart that has been shut down stays so whatever of these lifecycle operations follow, and is not
-- executable, which is what the assignment of a hart to a hardware hart asks for. The resumption of a
-- pending request does not ask for it, and is none of these operations.
pub shutdown_is_final :
    (ops : List HartOperation) (h h' : ConfidentialHart)
    → h.lifecycle_state ≡ shutdown
    → perform_all ops h ≡ ok h'
    → (h'.lifecycle_state ≡ shutdown) × (is_executable h' ≡ false)
unfolding perform_all is_executable may_run
shutdown_is_final [] h h' e q = (ground arith, ground arith)
shutdown_is_final (op ∷ ops) h h' e q =
    let (h1, a, b) = >>=-eq-ok (perform op h) (perform_all ops) q in
    let e1 : h1.lifecycle_state ≡ shutdown = elim (perform-Step op h h1 a).0 [
      | inl k ↦ k ∙ e
      | inr s ↦ Step-from_shutdown s e
    ] in
    shutdown_is_final ops h1 h' e1 b
