-- ===== src/Allocator/Dividing.antt =====
-- `divide_pages` ends: nine rounds of its loop are enough, and none of them fails.
use ace_riscv.Base.{
  ℕ, zero, suc, ◌+◌, ◌/◌, ◌≤◌, ◌<◌, ◌≡◌, refl, subst, ap, ◌⊎◌, inl, inr, true, false, ◌==◌, [], ◌∷◌,
  ◌++◌, length, length-append, none, some, Option-cases, Bool-cases, ok, arith, usize_mod,
}
use ace_riscv.Memory.Layout.{MemoryLayout}
use ace_riscv.Memory.PageSize.{PageSize, in_bytes, smaller, larger, rank, size_4KiB}
use ace_riscv.Memory.Page.{divide, smaller_or_same}
use ace_riscv.Memory.Page.Ownership.{pieces, divide-pieces}
use ace_riscv.Allocator.{PageAllocator, get, put}
use ace_riscv.Allocator.Tokens.{AreTokens, IsAllocator, get-put_self}
use ace_riscv.Allocator.Acquire.{pop, divide_page, divide_loop, divide_pages}
use ace_riscv.Allocator.Conservation.{
  pop-append, pop-none, All-split, Keeps, divide_page-Keeps, divide_loop-Keeps,
}

length-pieces : (n start : ℕ) (size : PageSize) → length (pieces n start size) ≡ n
unfolding pieces
length-pieces zero start size = refl
length-pieces (suc n) start size = ap suc (length-pieces n (start + in_bytes size) size)

parts_pos : (size : PageSize) → 0 < in_bytes size / in_bytes (smaller_or_same size)
unfolding in_bytes smaller_or_same
parts_pos size_4KiB = omega arith
parts_pos _ = omega arith

rank-smaller : (size small : PageSize) → smaller size ≡ some small → rank size ≡ suc (rank small)
unfolding smaller
rank-smaller size_4KiB small e = ground arith
rank-smaller _ small e = ground arith

rank-larger : (size large : PageSize) → larger size ≡ some large → rank large ≡ suc (rank size)
unfolding larger
rank-larger size_4KiB large e = ground arith
rank-larger _ large e = ground arith

smaller-none : (size : PageSize) → smaller size ≡ none → rank size ≡ 0
unfolding smaller
smaller-none size_4KiB e = refl
smaller-none _ e = cc

rank-le : (size : PageSize) → rank size ≤ 4
rank-le size_4KiB = omega arith
rank-le _ = omega arith

module _ (l : MemoryLayout) (fits : l.confidential_memory_end < usize_mod) where
  -- A size above the smallest has no token, or one of its tokens is divided, and then the next
  -- smaller size has one.
  divide_page_total :
      (a : PageAllocator) (size small : PageSize)
      → smaller size ≡ some small
      → IsAllocator l a
      → ((get a size ≡ []) × (divide_page l a size ≡ ok (false, a)))
        ⊎ ((a' : PageAllocator) × (divide_page l a size ≡ ok (true, a'))
            × (0 < length (get a' small)))
  unfolding divide_page smaller_or_same
  divide_page_total a size small e v = elim (Option-cases (pop (get a size))) [
    | inl none_left ↦ inl (pop-none (get a size) none_left, ground arith)
    | inr ((page, rest), popped) ↦
        let all : get a size ≡ rest ++ page ∷ [] = pop-append (get a size) popped in
        let split = All-split _ rest (page ∷ []) (subst (AreTokens l size) all (v size)) in
        let token = split.1.0 in
        let inside : page.address + in_bytes page.size ≤ l.confidential_memory_end =
          rw token.of_size token.inside in
        let count = in_bytes page.size / in_bytes (smaller_or_same page.size) in
        let ps = pieces count page.address (smaller_or_same page.size) in
        let divides : divide l page ≡ ok ps = divide-pieces l page fits inside in
        let a1 = put a size rest in
        inr (
          put a1 small (get a1 small ++ ps),
          ground arith,
          rw (get-put_self a1 small (get a1 small ++ ps)) (
              omega (
                arith,
                length-append (get a1 small) ps,
                length-pieces count page.address (smaller_or_same page.size),
                parts_pos page.size,
              )),
        )
  ]

  module _ (page_size : PageSize) where
    divide_down :
        (fuel : ℕ) (now : PageSize) (a : PageAllocator)
        → rank page_size ≤ rank now
        → rank now < fuel + rank page_size
        → 0 < length (get a now)
        → IsAllocator l a
        → (a' : PageAllocator) × (divide_loop l fuel page_size (some now) a ≡ some (ok a'))
    unfolding divide_loop
    divide_down zero now a above enough full v = absurd (omega arith)
    divide_down (suc fuel) now a above enough full v =
        elim (Bool-cases (rank now == rank page_size)) [
          | inl done ↦ (a, rw (done, divide_loop))
          | inr more ↦ elim (Option-cases (smaller now)) [
            | inl lowest ↦ absurd (ground (arith, smaller-none now lowest))
            | inr (small, e) ↦ elim (divide_page_total a now small e v) [
              | inl (missing, _) ↦ absurd (omega (arith, ap length missing))
              | inr (a1, divides, full1) ↦
                  let lower = rank-smaller now small e in
                  let (a2, returns) =
                    divide_down fuel small a1 (ground arith) (omega arith) full1
                      (divide_page-Keeps l fits a now v divides).tokens in
                  (a2, rw (more, divide_loop) (rw (divides, e) returns))
            ]
          ]
        ]

    divide_up :
        (fuel : ℕ) (now : PageSize) (a : PageAllocator)
        → rank page_size < rank now
        → 9 ≤ fuel + rank now + rank page_size
        → IsAllocator l a
        → (a' : PageAllocator) × (divide_loop l fuel page_size (some now) a ≡ some (ok a'))
    unfolding divide_loop
    divide_up zero now a above enough v = absurd (omega (arith, rank-le now, rank-le page_size))
    divide_up (suc fuel) now a above enough v =
        let more : (rank now == rank page_size) ≡ false = ground arith in
        elim (Option-cases (smaller now)) [
          | inl lowest ↦ absurd (omega (arith, smaller-none now lowest))
          | inr (small, e) ↦
              let lower = rank-smaller now small e in
              let high = rank-le now in
              elim (divide_page_total a now small e v) [
                | inl (missing, fails) ↦ elim (Option-cases (larger now)) [
                  | inl top ↦ (a, rw (more, divide_loop) (rw (fails, top)))
                  | inr (large, f) ↦
                      let upper = rank-larger now large f in
                      let (a2, returns) = divide_up fuel large a (omega arith) (omega arith) v in
                      (a2, rw (more, divide_loop) (rw (fails, f) returns))
                ]
                | inr (a1, divides, full) ↦
                    let (a2, returns) =
                      divide_down fuel small a1 (omega arith) (omega arith) full
                        (divide_page-Keeps l fits a now v divides).tokens in
                    (a2, rw (more, divide_loop) (rw (divides, e) returns))
              ]
        ]

  -- Dividing larger tokens for a size ends, returns an allocator, and keeps what the tokens cover.
  pub divide_pages-Keeps :
      (a : PageAllocator) (page_size : PageSize)
      → IsAllocator l a
      → (a' : PageAllocator) × (divide_pages l a page_size ≡ ok a') × Keeps l a a'
  unfolding divide_pages
  divide_pages-Keeps a page_size v = elim (Option-cases (larger page_size)) [
    | inl top ↦ (
      a,
      rw (top, divide_pages) (unfold divide_loop in refl),
      record { kept = λ x. refl; tokens = v },
    )
    | inr (now, e) ↦
        let upper = rank-larger page_size now e in
        let (a', returns) = divide_up page_size 9 now a (omega arith) (omega arith) v in
        (
          a',
          rw (e, divide_pages) (rw returns),
          divide_loop-Keeps l fits 9 page_size (some now) a v returns,
        )
  ]
