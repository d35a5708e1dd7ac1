-- ===== src/Control/Promotion/Registration.antt =====
-- non_confidential_flow/handlers/promote_to_confidential_vm.rs: what a promotion adds to the control data.
use ace_riscv.Base.{
  ℕ, ◌<◌, ◌≡◌, ◌≢◌, ap, sym, ◌∙◌, subst, inl, inr, ◌==◌, ltb, Bool-cases, Option-cases, none, ◌∷◌,
  length, Outcome, ok, >>=-ok-elim, assure, reached_max_number_of_harts_per_vm, arith,
}
use ace_riscv.Memory.Page.{Memory}
use ace_riscv.Riscv.HartState.{HartArchitecturalState}
use ace_riscv.Mmu.Protector.{ConfidentialVmMemoryProtector, translate}
use ace_riscv.Mmu.Protector
use ace_riscv.Control.ConfidentialVm
use ace_riscv.Control.ConfidentialVm.{ConfidentialVm, Queues, adopt, assemble, put_queue}
use ace_riscv.Control.ConfidentialVm.Switching.{WellFormed}
use ace_riscv.Control.ConfidentialVm.Broadcast.{Bounded}
use ace_riscv.Control.Storage.{
  ControlData, lookup, unique_id, insert_confidential_vm, confidential_vm,
}
use ace_riscv.Control.Storage.Laws.{unique_id-lookup}
use ace_riscv.Control.Exits.{Monitor}
use ace_riscv.Control.Promotion.{create_harts, max_number_of_harts_per_vm, register_confidential_vm}
use ace_riscv.Control.Promotion.Harts.{
  assemble-WellFormed, assemble-Bounded, id-assemble, length-assemble, create_harts-AreNumbered,
  length-create_harts,
}

-- What an inserted confidential VM is, and where it is.
insert_confidential_vm-ok :
    (vm : ConfidentialVm) (d d' : ControlData) (id : ℕ)
    → insert_confidential_vm vm d ≡ ok (id, d')
    → (vm.id ≡ id) × (d' ≡ vm ∷ d)
unfolding insert_confidential_vm
insert_confidential_vm-ok vm d d' id q = elim (Option-cases (lookup vm.id d)) [
  | inl a ↦ ground arith
  | inr (x, a) ↦ absurd (ground arith)
]

stored-found :
    (vm : ConfidentialVm) (d d' : ControlData) (id : ℕ)
    → d' ≡ vm ∷ d
    → vm.id ≡ id
    → confidential_vm id d' ≡ ok vm
unfolding confidential_vm lookup
stored-found vm d d' id e n = rw e (ground arith)

stored-other :
    (vm : ConfidentialVm) (d d' : ControlData) (id : ℕ)
    → d' ≡ vm ∷ d
    → vm.id ≡ id
    → (other : ℕ) → other ≢ id
    → lookup other d' ≡ lookup other d
unfolding lookup
stored-other vm d d' id e n other k = rw e (elim (Bool-cases (vm.id == other)) [
  | inl b ↦ absurd (k (ground arith))
  | inr b ↦ ground arith
])

-- What a promotion adds to the control data.
record Registers (id : ℕ) (d d' : ControlData) : Type 0 where
  pub vm : ConfidentialVm
  pub stored : d' ≡ vm ∷ d
  pub named : vm.id ≡ id
  pub given : unique_id d ≡ ok id
  pub slots : WellFormed vm
  pub queues : Bounded vm
  pub size : length vm.confidential_harts < max_number_of_harts_per_vm

module _ (entry_point : ℕ) (number_of_harts : ℕ → Memory → Outcome ℕ) where
  register_confidential_vm-Registers :
      (fdt_address : ℕ) (h : HartArchitecturalState) (p : ConfidentialVmMemoryProtector)
      (m : Monitor) (id : ℕ) (d : ControlData)
      → register_confidential_vm entry_point number_of_harts fdt_address h p m ≡ ok (id, d)
      → Registers id m.control_data d
  unfolding register_confidential_vm ConfidentialVm.new
  register_confidential_vm-Registers fdt_address h p m id d q =
      >>=-ok-elim (translate fdt_address p) _ q (λ address a q1.
        >>=-ok-elim (number_of_harts address m.heap.memory) _ q1 (λ n b q2.
          >>=-ok-elim (assure (ltb n max_number_of_harts_per_vm) reached_max_number_of_harts_per_vm)
            _ q2
            (λ u c q3. >>=-ok-elim (unique_id m.control_data) _ q3 (λ id' e q4.
              >>=-ok-elim
                (ConfidentialVm.new id' (create_harts entry_point h m.hardware_hart.csrs n) p) _ q4
                (λ vm f q5. >>=-ok-elim (Protector.set_confidential_vm_id id' p) _ f (λ p' g q6.
                  let hs = create_harts entry_point h m.hardware_hart.csrs n in
                  let v : assemble id' hs p' ≡ vm = ground arith in
                  let k : n < max_number_of_harts_per_vm = ground arith in
                  let (i, j) = insert_confidential_vm-ok vm m.control_data d id q5 in
                  record {
                    vm = vm;
                    stored = j;
                    named = i;
                    given =
                        subst (λ x. unique_id m.control_data ≡ ok x)
                          (id-assemble id' hs p' ∙ (ap (λ x. x.id) v ∙ i)) e;
                    slots = subst WellFormed v (
                        assemble-WellFormed id' hs p'
                          (create_harts-AreNumbered entry_point h m.hardware_hart.csrs n));
                    queues = subst Bounded v (assemble-Bounded id' hs p');
                    size =
                        subst (λ x. x < max_number_of_harts_per_vm)
                          (sym (length-create_harts entry_point h m.hardware_hart.csrs n)
                            ∙ (sym (length-assemble id' hs p')
                                ∙ ap (λ x. length x.confidential_harts) v))
                          k;
                  }))))))

  -- A promotion that returns an identifier has stored, under it, a confidential VM with fewer than
  -- 1024 harts, whose slots hold its own harts at their ids and whose queues are within their bound.
  -- No confidential VM had the identifier, and all others are found as before.
  pub register_confidential_vm-WellFormed :
      (fdt_address : ℕ) (h : HartArchitecturalState) (p : ConfidentialVmMemoryProtector)
      (m : Monitor) (id : ℕ) (d : ControlData)
      → register_confidential_vm entry_point number_of_harts fdt_address h p m ≡ ok (id, d)
      → (vm : ConfidentialVm) × (confidential_vm id d ≡ ok vm)
        × (lookup id m.control_data ≡ none)
        × WellFormed vm
        × Bounded vm
        × (length vm.confidential_harts < max_number_of_harts_per_vm)
        × ((other : ℕ) → other ≢ id → lookup other d ≡ lookup other m.control_data)
  register_confidential_vm-WellFormed fdt_address h p m id d q =
      let r = register_confidential_vm-Registers fdt_address h p m id d q in
      (
        r.vm,
        stored-found r.vm m.control_data d id r.stored r.named,
        unique_id-lookup m.control_data id r.given,
        r.slots,
        r.queues,
        r.size,
        stored-other r.vm m.control_data d id r.stored r.named,
      )
