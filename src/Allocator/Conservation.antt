-- ===== src/Allocator/Conservation.antt =====
-- Acquiring and releasing moves claims on addresses between the allocator and its users: none is
-- lost, and none is made twice.
use ace_riscv.Base.{
  ℕ, zero, suc, ◌+◌, ◌-◌, ◌*◌, ◌/◌, ◌%◌, ◌≤◌, ◌<◌, ◌≡◌, refl, subst, ◌⊎◌, inl, inr, Bool, ltb, ◌==◌,
  List, [], ◌∷◌, ◌++◌, length, take, drop, Option, none, some, Option-cases, Outcome-cases,
  if◌then◌else◌, ◌∙◌, Bool-cases, ok, All, All-append, arith, usize_mod, ap,
}
use ace_riscv.Memory.Layout.{MemoryLayout}
use ace_riscv.Memory.PageSize.{PageSize, in_bytes, smaller, larger, rank}
use ace_riscv.Memory.Page.{Page, unallocated, divide, smaller_or_same}
use ace_riscv.Memory.Page.Ownership.{
  owns, owns-append, owns-singleton, divide-pieces, divide-owns, pieces, smaller_size_divides,
}
use ace_riscv.Allocator.{PageAllocator, Pages, get, put}
use ace_riscv.Allocator.Tokens.{free, IsToken, AreTokens, IsAllocator, put-free, put-IsAllocator}
use ace_riscv.Allocator.Region.{next-aligned, smaller-aligned}
use ace_riscv.Allocator.Acquire.{
  find_allocation, remove_at, acquire_continous_pages_of_given_size, pop, divide_page, divide_loop,
}

take-drop-owns : (n : ℕ) (ps : Pages) (x : ℕ) → owns (take n ps) x + owns (drop n ps) x ≡ owns ps x
unfolding owns
take-drop-owns zero ps x = omega arith
take-drop-owns (suc n) [] x = omega arith
take-drop-owns (suc n) (p ∷ ps) x = omega (arith, take-drop-owns n ps x)

remove_at-owns :
    (index n : ℕ) (ps : Pages) (x : ℕ)
    → owns (remove_at index n ps).0 x + owns (remove_at index n ps).1 x ≡ owns ps x
remove_at-owns index n ps x = omega (
  arith,
  take-drop-owns index ps x,
  take-drop-owns n (drop index ps) x,
  owns-append (take index ps) (drop n (drop index ps)) x,
)

take-AreTokens :
    (l : MemoryLayout) (size : PageSize) (n : ℕ) (ps : Pages)
    → AreTokens l size ps
    → AreTokens l size (take n ps)
take-AreTokens l size zero ps h = tt
take-AreTokens l size (suc n) [] h = tt
take-AreTokens l size (suc n) (p ∷ ps) h = (h.0, take-AreTokens l size n ps h.1)

drop-AreTokens :
    (l : MemoryLayout) (size : PageSize) (n : ℕ) (ps : Pages)
    → AreTokens l size ps
    → AreTokens l size (drop n ps)
drop-AreTokens l size zero ps h = h
drop-AreTokens l size (suc n) [] h = tt
drop-AreTokens l size (suc n) (p ∷ ps) h = drop-AreTokens l size n ps h.1

-- The pages that a call hands out, taken from `a`, which becomes `a'`.
pub record Moves (l : MemoryLayout) (size : PageSize) (a a' : PageAllocator) (pages : Pages)
    : Type 0 where
  pub conserved : (x : ℕ) → free a' x + owns pages x ≡ free a x
  pub still_tokens : IsAllocator l a'
  pub handed_out : AreTokens l size pages

Moves-none :
    (l : MemoryLayout) (size : PageSize) (a : PageAllocator) → IsAllocator l a → Moves l size a a []
unfolding owns
Moves-none l size a v = record { conserved = λ x. omega arith; still_tokens = v; handed_out = tt }

Moves-removed :
    (l : MemoryLayout) (size : PageSize) (a : PageAllocator) (index n : ℕ)
    → IsAllocator l a
    → let (allocated, rest) = remove_at index n (get a size) in
      Moves l size a (put a size rest) allocated
Moves-removed l size a index n v =
    let (allocated, rest) = remove_at index n (get a size) in
    record {
      conserved = λ x. omega (arith, put-free a size rest x, remove_at-owns index n (get a size) x);
      still_tokens =
          put-IsAllocator l a size rest
            (All-append _ (take index (get a size)) (drop n (drop index (get a size)))
              (take-AreTokens l size index (get a size) (v size))
              (drop-AreTokens l size n (drop index (get a size))
                (drop-AreTokens l size index (get a size) (v size))))
            v;
      handed_out = take-AreTokens l size n _ (drop-AreTokens l size index (get a size) (v size));
    }

-- The two ways in which the call can return.
pub acquire_of_size_cases :
    (a : PageAllocator) (n : ℕ) (size : PageSize) {pages : Pages} {a' : PageAllocator}
    → acquire_continous_pages_of_given_size a n size ≡ ok (pages, a')
    → ((pages ≡ []) × (a' ≡ a))
      ⊎ ((index : ℕ) × (find_allocation (length (get a size) - n) 0 n (get a size) ≡ some index)
          × (pages ≡ (remove_at index n (get a size)).0)
          × (a' ≡ put a size (remove_at index n (get a size)).1))
unfolding acquire_continous_pages_of_given_size
acquire_of_size_cases a n size h =
    elim (Option-cases (find_allocation (length (get a size) - n) 0 n (get a size))) [
      | inl e ↦ inl (ground arith)
      | inr (index, e) ↦ elim (Bool-cases (ltb (length (get a size)) n)) [
        | inl few ↦ inl (ground arith)
        | inr enough ↦ inr (index, e, ground arith, ground arith)
      ]
    ]

pub acquire_of_size-Moves :
    (l : MemoryLayout) (a : PageAllocator) (n : ℕ) (size : PageSize) {pages : Pages}
    {a' : PageAllocator}
    → IsAllocator l a
    → acquire_continous_pages_of_given_size a n size ≡ ok (pages, a')
    → Moves l size a a' pages
acquire_of_size-Moves l a n size v h = elim (acquire_of_size_cases a n size h) [
  | inl (e, f) ↦ rw (e, f) (Moves-none l size a v)
  | inr (index, _, e, f) ↦ rw (e, f) (Moves-removed l size a index n v)
]

pub pop-none : (ps : Pages) → pop ps ≡ none → ps ≡ []
unfolding pop
pop-none [] h = refl
pop-none (p ∷ ps) h = elim (Option-cases (pop ps)) [
  | inl e ↦ ground arith
  | inr ((r, rs), e) ↦ ground arith
]

pub pop-append :
    (ps : Pages) {q : Page unallocated} {qs : Pages} → pop ps ≡ some (q, qs) → ps ≡ qs ++ q ∷ []
unfolding pop
pop-append [] h = cc
pop-append (p ∷ ps) {q} {qs} h = elim (Option-cases (pop ps)) [
  | inl e ↦
      let nil : ps ≡ [] = pop-none ps e in
      let e1 : p ≡ q = ground arith in let e2 : qs ≡ [] = ground arith in rw (nil, e1, e2)
  | inr ((r, rs), e) ↦
      let e1 : r ≡ q = ground arith in
      let e2 : qs ≡ p ∷ rs = ground arith in rw (e2, pop-append ps e, e1)
]

pub All-split {ℓ κ} :
    {A : Type ℓ} (P : A → Type κ) (xs ys : List A) → All P (xs ++ ys) → All P xs × All P ys
All-split P [] ys h = (tt, h)
All-split P (x ∷ xs) ys h = ((h.0, (All-split P xs ys h.1).0), (All-split P xs ys h.1).1)

-- `divide_page` neither loses an address nor makes one up.
pub record Keeps (l : MemoryLayout) (a a' : PageAllocator) : Type 0 where
  pub kept : (x : ℕ) → free a' x ≡ free a x
  pub tokens : IsAllocator l a'

pieces-AreTokens :
    (l : MemoryLayout) (n start : ℕ) (size : PageSize)
    → start % in_bytes size ≡ 0
    → start + n * in_bytes size ≤ l.confidential_memory_end
    → AreTokens l size (pieces n start size)
unfolding pieces
pieces-AreTokens l zero start size aligned h = tt
pieces-AreTokens l (suc n) start size aligned h = (
  record { of_size = refl; aligned = aligned; inside = omega arith },
  pieces-AreTokens l n (start + in_bytes size) size (next-aligned start size aligned) (omega arith),
)

module _ (l : MemoryLayout) (fits : l.confidential_memory_end < usize_mod) where
  divide-AreTokens :
      (p : Page unallocated) (size small : PageSize) {ps : Pages}
      → smaller size ≡ some small
      → IsToken l size p
      → divide l p ≡ ok ps
      → AreTokens l small ps
  unfolding smaller_or_same
  divide-AreTokens p size small {ps} e t h =
      let q : p.size ≡ size = t.of_size in
      let inside : p.address + in_bytes p.size ≤ l.confidential_memory_end = rw q t.inside in
      let same : smaller_or_same p.size ≡ small = ground arith in
      let shape : ps ≡ pieces (in_bytes p.size / in_bytes small) p.address small =
        ground (arith, divide-pieces l p fits inside) in
      rw shape (
        pieces-AreTokens l _ p.address small (smaller-aligned size small p.address e t.aligned)
          (ground (arith, smaller_size_divides p.size)))

  pub divide_page-Keeps :
      (a : PageAllocator) (size : PageSize) {divided : Bool} {a' : PageAllocator}
      → IsAllocator l a
      → divide_page l a size ≡ ok (divided, a')
      → Keeps l a a'
  unfolding divide_page
  divide_page-Keeps a size {divided} {a'} v h = elim (Option-cases (smaller size)) [
    | inl e ↦ let same : a' ≡ a = ground arith in rw same (record { kept = λ x. refl; tokens = v })
    | inr (small, e) ↦ elim (Option-cases (pop (get a size))) [
      | inl none_left ↦
          let same : a' ≡ a = ground arith in rw same (record { kept = λ x. refl; tokens = v })
      | inr ((page, rest), popped) ↦
          let all : get a size ≡ rest ++ page ∷ [] = pop-append (get a size) popped in
          let split = All-split _ rest (page ∷ []) (subst (AreTokens l size) all (v size)) in
          let token = split.1.0 in
          let inside : page.address + in_bytes page.size ≤ l.confidential_memory_end =
            rw token.of_size token.inside in
          let ps =
            pieces (in_bytes page.size / in_bytes (smaller_or_same page.size)) page.address
              (smaller_or_same page.size) in
          let divides : divide l page ≡ ok ps = divide-pieces l page fits inside in
          let a1 = put a size rest in
          let shape : a' ≡ put a1 small (get a1 small ++ ps) = ground arith in
          let v1 = put-IsAllocator l a size rest split.0 v in
          rw shape (record {
            kept = λ x. omega (
              arith,
              put-free a size rest x,
              put-free a1 small (get a1 small ++ ps) x,
              owns-append (get a1 small) ps x,
              divide-owns l page x fits inside divides,
              ap (λ (qs : Pages). owns qs x) all,
              owns-append rest (page ∷ []) x,
              owns-singleton page x,
            );
            tokens =
                put-IsAllocator l a1 small (get a1 small ++ ps)
                  (All-append _ (get a1 small) ps (v1 small)
                    (divide-AreTokens page size small e token divides))
                  v1;
          })
    ]
  ]

  pub divide_loop-Keeps :
      (fuel : ℕ) (page_size : PageSize) (next : Option PageSize) (a : PageAllocator)
      {a' : PageAllocator}
      → IsAllocator l a
      → divide_loop l fuel page_size next a ≡ some (ok a')
      → Keeps l a a'
  unfolding divide_loop
  divide_loop-Keeps fuel page_size none a {a'} v h =
      let same : a ≡ a' = ground arith in rw (← same) (record { kept = λ x. refl; tokens = v })
  divide_loop-Keeps zero page_size (some now) a v h = cc
  divide_loop-Keeps (suc fuel) page_size (some now) a {a'} v h =
      elim (Bool-cases (rank now == rank page_size)) [
        | inl done ↦
            let same : a ≡ a' = ground arith in
            rw (← same) (record { kept = λ x. refl; tokens = v })
        | inr more ↦ elim (Outcome-cases (divide_page l a now)) [
          | inl ((divided, a1), e) ↦
              let next = if divided then smaller now else larger now in
              let h' : divide_loop l fuel page_size next a1 ≡ some (ok a') = ground arith in
              let first = divide_page-Keeps a now v e in
              let others = divide_loop-Keeps fuel page_size next a1 first.tokens h' in
              record { kept = λ x. others.kept x ∙ first.kept x; tokens = others.tokens }
          | inr (inl (x, e)) ↦ absurd (ground arith)
          | inr (inr e) ↦ absurd (ground arith)
        ]
      ]
