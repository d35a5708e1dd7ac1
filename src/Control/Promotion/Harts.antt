-- ===== src/Control/Promotion/Harts.antt =====
-- non_confidential_flow/handlers/promote_to_confidential_vm.rs and ConfidentialVm::new: the harts of a new
-- confidential VM.
use ace_riscv.Base.{
  ℕ, zero, suc, ◌+◌, ◌≡◌, refl, ap, inl, inr, ◌==◌, Bool-cases, none, some, List, [], ◌∷◌, length,
  get_elem?, arith,
}
use ace_riscv.Riscv.Csr.{Csrs}
use ace_riscv.Riscv.HartState.{HartArchitecturalState, empty, set_csr, from_existing}
use ace_riscv.Mmu.Protector.{ConfidentialVmMemoryProtector}
use ace_riscv.Control.Requests.{InterHartRequest}
use ace_riscv.Control.ConfidentialHart.{
  ConfidentialHart, confidential_hart_id, set_confidential_vm_id, from_vm_hart, from_vm_hart_reset,
  new,
}
use ace_riscv.Control.ConfidentialVm.{Queues, adopt, assemble, put_queue}
use ace_riscv.Control.ConfidentialVm.Switching.{WellFormed}
use ace_riscv.Control.ConfidentialVm.Broadcast.{Bounded}
use ace_riscv.Control.Promotion.{reset_harts, create_harts}

-- The harts are numbered by their places.
unfoldable pub AreNumbered : ℕ → List ConfidentialHart → Type 0
AreNumbered first hs =
    (i : ℕ) (h : ConfidentialHart) → get_elem? hs i ≡ some h → confidential_hart_id h ≡ first + i

reset_harts-AreNumbered :
    (entry_point : ℕ) (h : HartArchitecturalState) (n first : ℕ)
    → AreNumbered first (reset_harts entry_point h n first)
unfolding AreNumbered reset_harts confidential_hart_id from_vm_hart_reset new empty set_csr
reset_harts-AreNumbered entry_point h zero first i x q = absurd (ground arith)
reset_harts-AreNumbered entry_point h (suc n) first zero x q = ground arith
reset_harts-AreNumbered entry_point h (suc n) first (suc i) x q =
    omega (arith, reset_harts-AreNumbered entry_point h n (suc first) i x q)

pub create_harts-AreNumbered :
    (entry_point : ℕ) (h : HartArchitecturalState) (csrs : Csrs) (n : ℕ)
    → AreNumbered 0 (create_harts entry_point h csrs n)
unfolding AreNumbered create_harts confidential_hart_id from_vm_hart new from_existing set_csr
create_harts-AreNumbered entry_point h csrs zero i x q = absurd (ground arith)
create_harts-AreNumbered entry_point h csrs (suc n) zero x q = ground arith
create_harts-AreNumbered entry_point h csrs (suc n) (suc i) x q =
    omega (arith, reset_harts-AreNumbered entry_point h n 1 i x q)

length-reset_harts :
    (entry_point : ℕ) (h : HartArchitecturalState) (n first : ℕ)
    → length (reset_harts entry_point h n first) ≡ n
unfolding reset_harts
length-reset_harts entry_point h zero first = refl
length-reset_harts entry_point h (suc n) first =
    ap suc (length-reset_harts entry_point h n (suc first))

pub length-create_harts :
    (entry_point : ℕ) (h : HartArchitecturalState) (csrs : Csrs) (n : ℕ)
    → length (create_harts entry_point h csrs n) ≡ n
unfolding create_harts
length-create_harts entry_point h csrs zero = refl
length-create_harts entry_point h csrs (suc n) = ap suc (length-reset_harts entry_point h n 1)

adopt-get_elem? :
    (id : ℕ) (hs : List ConfidentialHart) (qs : Queues) (i : ℕ) (x : ConfidentialHart)
    → get_elem? (adopt id hs qs).0 i ≡ some x
    → (h : ConfidentialHart) × (get_elem? hs i ≡ some h) × (x ≡ set_confidential_vm_id id h)
unfolding adopt
adopt-get_elem? id [] qs i x q = absurd (ground arith)
adopt-get_elem? id (h ∷ hs) qs zero x q = (h, refl, ground arith)
adopt-get_elem? id (h ∷ hs) qs (suc i) x q =
    adopt-get_elem? id hs (put_queue (confidential_hart_id h) [] qs) i x q

length-adopt :
    (id : ℕ) (hs : List ConfidentialHart) (qs : Queues) → length (adopt id hs qs).0 ≡ length hs
unfolding adopt
length-adopt id [] qs = refl
length-adopt id (h ∷ hs) qs = ap suc (length-adopt id hs (put_queue (confidential_hart_id h) [] qs))

adopt-queues :
    (id : ℕ) (hs : List ConfidentialHart) (qs : Queues)
    → ((k : ℕ) (q : List InterHartRequest) → qs k ≡ some q → q ≡ [])
    → (k : ℕ) (q : List InterHartRequest) → (adopt id hs qs).1 k ≡ some q
    → q ≡ []
unfolding adopt put_queue
adopt-queues id [] qs a k q e = a k q e
adopt-queues id (h ∷ hs) qs a k q e =
    adopt-queues id hs (put_queue (confidential_hart_id h) [] qs)
      (λ j p f. elim (Bool-cases (j == confidential_hart_id h)) [
        | inl b ↦ ground arith
        | inr b ↦ a j p (ground arith)
      ])
      k q e

-- A confidential VM that is created from numbered harts.
pub assemble-WellFormed :
    (id : ℕ) (hs : List ConfidentialHart) (p : ConfidentialVmMemoryProtector)
    → AreNumbered 0 hs
    → WellFormed (assemble id hs p)
unfolding WellFormed assemble AreNumbered set_confidential_vm_id confidential_hart_id
assemble-WellFormed id hs p a i x q =
    let (h, e, f) = adopt-get_elem? id hs (λ k. none) i x q in
    inr (rw f refl, rw f (omega (arith, a i h e)))

pub assemble-Bounded :
    (id : ℕ) (hs : List ConfidentialHart) (p : ConfidentialVmMemoryProtector)
    → Bounded (assemble id hs p)
unfolding Bounded assemble
assemble-Bounded id hs p k q e =
    let n : q ≡ [] = adopt-queues id hs (λ k. none) (λ j r f. absurd (ground arith)) k q e in
    rw n (omega arith)

pub id-assemble :
    (id : ℕ) (hs : List ConfidentialHart) (p : ConfidentialVmMemoryProtector)
    → id ≡ (assemble id hs p).id
unfolding assemble
id-assemble id hs p = refl

pub length-assemble :
    (id : ℕ) (hs : List ConfidentialHart) (p : ConfidentialVmMemoryProtector)
    → length (assemble id hs p).confidential_harts ≡ length hs
unfolding assemble
length-assemble id hs p = length-adopt id hs (λ k. none)
