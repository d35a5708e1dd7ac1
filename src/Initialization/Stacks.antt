-- ===== src/Initialization/Stacks.antt =====
-- core/initialization/mod.rs, `prepare_harts`: the pages that the harts take for their stacks.
use ace_riscv.Base.{
  ℕ, zero, suc, ◌+◌, ◌<◌, ◌≡◌, refl, inl, inr, List, [], ◌∷◌, length, ok, >>=-ok-elim, usize_mod,
  arith,
}
use ace_riscv.Memory.Layout.{MemoryLayout}
use ace_riscv.Memory.PageSize.{size_2MiB}
use ace_riscv.Memory.Page.{Page, allocated, unallocated, Memory, end_address, zeroize, clear}
use ace_riscv.Memory.Page.Ownership.{owns}
use ace_riscv.Allocator.{PageAllocator, Pages}
use ace_riscv.Allocator.Tokens.{free, IsAllocator}
use ace_riscv.Allocator.Acquire.{acquire, acquire_continous_pages}
use ace_riscv.Allocator.Acquiring.{acquire-Moves}
use ace_riscv.Riscv.Csr.{Csrs}
use ace_riscv.Initialization.Harts.{PreparedHart, remove_first, prepare_hart, prepare_from}

-- The stacks of the harts.
unfoldable pub stacks : List PreparedHart → List (Page allocated)
stacks [] = []
stacks (h ∷ hs) = h.stack ∷ stacks hs

prepare_hart-stack :
    (entry_point : ℕ) (csrs : ℕ → Csrs) (id : ℕ) (stack : Page unallocated) (memory : Memory)
    {hart : PreparedHart} {memory' : Memory}
    → prepare_hart entry_point csrs id stack memory ≡ ok (hart, memory')
    → (hart.stack.address ≡ stack.address) × (hart.stack.size ≡ stack.size)
unfolding prepare_hart zeroize
prepare_hart-stack entry_point csrs id stack memory {hart} {memory'} q =
    >>=-ok-elim (end_address stack) _ q (λ e a q1.
      >>=-ok-elim (zeroize stack memory) _ q1
        (λ (z, m) b q2. >>=-ok-elim (clear stack memory) _ b (λ m' c q3. ground arith)))

acquire-eq_ok :
    (l : MemoryLayout) (a a1 a' : PageAllocator) (found : Pages) {p : Page unallocated} {ps : Pages}
    → acquire l a 1 size_2MiB ≡ ok (found, a1)
    → acquire_continous_pages l a 1 size_2MiB ≡ ok (ok (p ∷ ps), a')
    → (found ≡ p ∷ ps) × (a1 ≡ a')
unfolding acquire_continous_pages
acquire-eq_ok l a a1 a' [] e q = absurd (ground arith)
acquire-eq_ok l a a1 a' (x ∷ xs) e q = ground arith

length-one : (p : Page unallocated) (ps : Pages) → length (p ∷ ps) ≡ 1 → ps ≡ []
length-one p [] h = refl
length-one p (q ∷ ps) h = absurd (omega arith)

-- A page that a hart gets is what the allocator loses.
acquire_one-ok :
    (l : MemoryLayout) (a : PageAllocator) (pages : Pages) {a' : PageAllocator}
    {stack : Page unallocated}
    → l.confidential_memory_end < usize_mod
    → IsAllocator l a
    → acquire_continous_pages l a 1 size_2MiB ≡ ok (ok pages, a')
    → remove_first pages ≡ ok stack
    → IsAllocator l a' × ((x : ℕ) → free a' x + owns (stack ∷ []) x ≡ free a x)
unfolding acquire_continous_pages remove_first
acquire_one-ok l a [] {a'} {stack} fits v q r = absurd (ground arith)
acquire_one-ok l a (p ∷ ps) {a'} {stack} fits v q r =
    let (found, a1, returns, answer, moved) = acquire-Moves l fits a 1 size_2MiB (omega arith) v in
    let same = acquire-eq_ok l a a1 a' found returns q in
    let only : ps ≡ [] = elim answer [
      | inl e ↦ absurd (ground (arith, e, same.0))
      | inr (e, _) ↦ length-one p ps (rw same.0 at e)
    ] in
    let taken : stack ≡ p = ground arith in
    (
      rw same.1 at moved.still_tokens,
      λ x. rw (taken, ← only, ← same.1, ← same.0) (moved.conserved x),
    )

-- The harts are as many as asked for, and their stacks are what the allocator loses.
pub prepare_from-conserves :
    (entry_point : ℕ) (csrs : ℕ → Csrs) (l : MemoryLayout) (n id : ℕ) (a : PageAllocator)
    (memory : Memory) {harts : List PreparedHart} {a' : PageAllocator} {memory' : Memory}
    → l.confidential_memory_end < usize_mod
    → IsAllocator l a
    → prepare_from entry_point csrs l n id a memory ≡ ok (harts, a', memory')
    → (length harts ≡ n)
      × IsAllocator l a'
      × ((x : ℕ) → free a' x + owns (stacks harts) x ≡ free a x)
unfolding prepare_from stacks owns
prepare_from-conserves entry_point csrs l zero id a memory {harts} {a'} {memory'} fits v q =
    let e : ([] ≡ harts) × (a ≡ a') = ground arith in
    (rw (← e.0) refl, rw e.1 at v, λ x. rw (← e.0, ← e.1) (omega arith))
prepare_from-conserves entry_point csrs l (suc n) id a memory {harts} {a'} {memory'} fits v q =
    >>=-ok-elim (acquire_continous_pages l a 1 size_2MiB) _ q (λ (answer, a1) b q1.
      >>=-ok-elim answer _ q1 (λ pages c q2. >>=-ok-elim (remove_first pages) _ q2 (λ stack d q3.
        >>=-ok-elim (prepare_hart entry_point csrs id stack memory) _ q3 (λ (hart, m1) e q4.
          >>=-ok-elim (prepare_from entry_point csrs l n (suc id) a1 m1) _ q4
            (λ (rest, a2, m2) f q5.
              let (v1, g) = acquire_one-ok l a pages fits v (rw c at b) d in
              let (s1, s2) = prepare_hart-stack entry_point csrs id stack memory e in
              let (count, v2, h) =
                prepare_from-conserves entry_point csrs l n (suc id) a1 m1 fits v1 f in
              let k : (hart ∷ rest ≡ harts) × (a2 ≡ a') = ground arith in
              (
                rw (← k.0) (omega (arith, count)),
                rw k.1 at v2,
                λ x. let w = h x in let t = g x in rw (← k.0, ← k.1) (ground (arith, w, t, s1, s2)),
              ))))))
