-- ===== src/Allocator/Region.antt =====
-- What `add_memory_region` makes of a memory region: tokens that tile it from its start.
use ace_riscv.Base.{
  ℕ, zero, suc, ◌+◌, ◌-◌, ◌*◌, ◌%◌, ◌≤◌, ◌<◌, ◌≡◌, ◌≢◌, refl, ◌⊎◌, inl, inr, true, false, some, ok,
  is_ok, lt_cases, Option-cases, Bool-cases, arith, usize_mod,
}
use ace_riscv.Memory.Layout.{MemoryLayout, is_aligned_to}
use ace_riscv.Memory.Layout.Laws.{bounded-ok, bounded-err}
use ace_riscv.Memory.PageSize.{PageSize, in_bytes, smaller, larger, smallest, size_4KiB, size_2MiB}
use ace_riscv.Memory.Page.{Page, unallocated, init}
use ace_riscv.Memory.Page.Ownership.{in_range, in_bytes_pos}
use ace_riscv.Allocator.{
  PageAllocator, push, can_create_page, largest_aligned, shrink_while_unfit, chosen_size,
  add_tokens, rounds_below, add_memory_region,
}
use ace_riscv.Allocator.Tokens.{free, IsAllocator, push-free, push-IsAllocator}

pub smaller-aligned :
    (size t : PageSize) (address : ℕ)
    → smaller size ≡ some t
    → address % in_bytes size ≡ 0
    → address % in_bytes t ≡ 0
unfolding smaller in_bytes
smaller-aligned size_4KiB t address e h = ground arith
smaller-aligned _ t address e h = ground arith

largest_aligned-aligned :
    (rounds address : ℕ) (size : PageSize)
    → address % in_bytes size ≡ 0
    → address % in_bytes (largest_aligned rounds address size) ≡ 0
unfolding largest_aligned
largest_aligned-aligned zero address size h = h
largest_aligned-aligned (suc rounds) address size h = elim (Option-cases (larger size)) [
  | inl e ↦ rw (e, largest_aligned) h
  | inr (t, e) ↦ elim (Bool-cases (is_aligned_to address (in_bytes t))) [
    | inl yes_aligned ↦
        rw (e, largest_aligned)
          (rw yes_aligned (largest_aligned-aligned rounds address t (ground arith)))
    | inr not_aligned ↦ rw (e, largest_aligned) (rw not_aligned h)
  ]
]

module _ (l : MemoryLayout) (region_end : ℕ) where
  shrink_while_unfit-aligned :
      (rounds address : ℕ) (size : PageSize)
      → address % in_bytes size ≡ 0
      → address % in_bytes (shrink_while_unfit l region_end rounds address size) ≡ 0
  unfolding shrink_while_unfit
  shrink_while_unfit-aligned zero address size h = h
  shrink_while_unfit-aligned (suc rounds) address size h = elim (Option-cases (smaller size)) [
    | inl e ↦ rw (e, shrink_while_unfit) h
    | inr (t, e) ↦ elim (Bool-cases (can_create_page l region_end address t)) [
      | inl fits ↦ rw (e, shrink_while_unfit) (rw fits h)
      | inr unfit ↦
          rw (e, shrink_while_unfit)
            (rw unfit
              (shrink_while_unfit-aligned rounds address t (smaller-aligned size t address e h)))
    ]
  ]

  chosen_size-aligned :
      (address : ℕ) (size : PageSize)
      → address % in_bytes size ≡ 0
      → address % in_bytes (chosen_size l region_end address size) ≡ 0
  unfolding chosen_size
  chosen_size-aligned address size h =
      shrink_while_unfit-aligned 5 address (largest_aligned 5 address size)
        (largest_aligned-aligned 5 address size h)

pub next-aligned :
    (address : ℕ) (size : PageSize)
    → address % in_bytes size ≡ 0
    → (address + in_bytes size) % in_bytes size ≡ 0
unfolding in_bytes
next-aligned address size_4KiB h = omega arith
next-aligned address _ h = omega arith

in_bytes-lt : (size : PageSize) → in_bytes size < 0x8000_0000_0000_0000
unfolding in_bytes
in_bytes-lt size_4KiB = omega arith
in_bytes-lt _ = omega arith

-- What is left of the region behind the last token: nothing, or less than a page of some size that
-- the address after the last token is aligned to.
abbrev pub IsRest : ℕ → ℕ → Type 0
IsRest e end =
    (e ≡ end)
    ⊎ ((size : PageSize) × (e % in_bytes size ≡ 0) × (e < end) × (end < e + in_bytes size))

-- The allocator `a'` has the tokens of `a`, and further ones that cover each address from `start`
-- up to `e` once.
pub record Tiles (l : MemoryLayout) (a a' : PageAllocator) (start e : ℕ) : Type 0 where
  pub from_start : start ≤ e
  pub up_to_end : e ≤ l.confidential_memory_end
  pub rest : IsRest e l.confidential_memory_end
  pub tokens : IsAllocator l a'
  pub covered : (x : ℕ) → free a' x ≡ free a x + in_range start e x

module _ (l : MemoryLayout) (region_end : ℕ) (fits : l.confidential_memory_end < usize_mod)
    (inside : region_end ≤ l.confidential_memory_end) where
  can_create_page-fit :
      (address : ℕ) (size : PageSize)
      → address + in_bytes size ≤ l.confidential_memory_end
      → can_create_page l region_end address size ≡ true
  unfolding can_create_page
  can_create_page-fit address size h =
      let small = in_bytes-lt size in
      let large = in_bytes_pos size in
      rw (
        bounded-ok l address (in_bytes size - 1) region_end (omega arith) (omega arith) fits inside
            (omega arith),
        is_ok,
      )

  can_create_page-unfit :
      (address : ℕ) (size : PageSize)
      → address < usize_mod
      → l.confidential_memory_end < address + in_bytes size
      → can_create_page l region_end address size ≡ false
  unfolding can_create_page
  can_create_page-unfit address size ha h =
      let small = in_bytes-lt size in
      rw (
        bounded-err l address (in_bytes size - 1) region_end ha (omega arith) fits (omega arith),
        is_ok,
      )

  add_tokens-Tiles :
      (fuel address : ℕ) (size : PageSize) (a : PageAllocator)
      → address % in_bytes size ≡ 0
      → address < l.confidential_memory_end
      → l.confidential_memory_end ≤ address + fuel * 4096
      → IsAllocator l a
      → (a' : PageAllocator) × (e : ℕ) × (add_tokens l region_end fuel address size a ≡ some a')
        × Tiles l a a' address e
  unfolding add_tokens
  add_tokens-Tiles zero address size a aligned below enough v = absurd (omega arith)
  add_tokens-Tiles (suc fuel) address size a aligned below enough v =
      let s = chosen_size l region_end address size in
      let p : Page unallocated = init address s in
      let s_aligned = chosen_size-aligned l region_end address size aligned in
      let large = in_bytes_pos s in
      let small = in_bytes-lt s in
      elim (lt_cases (address + in_bytes s) l.confidential_memory_end) [
        | inl room ↦
            let next =
              bounded-ok l address (in_bytes s) region_end (omega arith) (omega arith) fits inside
                room in
            let v' =
              push-IsAllocator l a p
                (record { of_size = refl; aligned = s_aligned; inside = omega arith }) v in
            let (a', e, returns, t) =
              add_tokens-Tiles fuel (address + in_bytes s) s (push a p)
                (next-aligned address s s_aligned) room (omega arith) v' in
            (
              a',
              e,
              rw (next, add_tokens) (rw next returns),
              record {
                from_start = omega (arith, t.from_start);
                up_to_end = t.up_to_end;
                rest = t.rest;
                tokens = t.tokens;
                covered = λ x. ground (arith, t.covered x, push-free a p x, t.from_start);
              },
            )
        | inr full ↦
            let stop =
              bounded-err l address (in_bytes s) region_end (omega arith) (omega arith) fits full in
            elim (lt_cases l.confidential_memory_end (address + in_bytes s)) [
              | inl over ↦ (
                a,
                address,
                rw (stop, add_tokens)
                    (rw (stop, can_create_page-unfit address s (omega arith) over)),
                record {
                  from_start = omega arith;
                  up_to_end = omega arith;
                  rest = inr (s, s_aligned, below, over);
                  tokens = v;
                  covered = λ x. ground arith;
                },
              )
              | inr exact ↦ (
                push a p,
                address + in_bytes s,
                rw (stop, add_tokens) (rw (stop, can_create_page-fit address s (omega arith))),
                record {
                  from_start = omega arith;
                  up_to_end = omega arith;
                  rest = inl (omega arith);
                  tokens =
                      push-IsAllocator l a p
                        (record { of_size = refl; aligned = s_aligned; inside = omega arith }) v;
                  covered = λ x. ground (arith, push-free a p x);
                },
              )
            ]
      ]

-- A region that ends with the confidential memory is tiled from its start by new tokens, each
-- aligned to its size and inside the confidential memory, that cover each address at most once.
-- What is left at the end is less than a page of a size that the first lost address is aligned to.
-- The loop ends, and there is no panic.
pub add_memory_region-Tiles :
    (l : MemoryLayout) (a : PageAllocator) (start end : ℕ)
    → l.confidential_memory_end ≡ end
    → end < usize_mod
    → start % 4096 ≡ 0
    → end % 4096 ≡ 0
    → start < end
    → IsAllocator l a
    → (a' : PageAllocator) × (e : ℕ) × (add_memory_region l a start end ≡ ok a')
      × Tiles l a a' start e
unfolding add_memory_region smallest in_bytes
add_memory_region-Tiles l a start end same fits start_aligned end_aligned ordered v =
    let (a', e, returns, t) =
      add_tokens-Tiles l end (omega arith) (omega arith) (rounds_below l.confidential_memory_end)
        start size_4KiB a start_aligned (omega arith) (omega arith) v in
    (a', e, ground (arith, returns), t)

-- A region that starts at a multiple of 2 MiB but not of 1 GiB, and that has room for 4 KiB pages but
-- not for a 2 MiB page, gets no token at all: the size is not decreased once the smaller one fits.
pub add_memory_region_loses_tail :
    (l : MemoryLayout) (a : PageAllocator) (start end : ℕ)
    → l.confidential_memory_end ≡ end
    → end < usize_mod
    → start % 0x20_0000 ≡ 0
    → start % 0x4000_0000 ≢ 0
    → end % 4096 ≡ 0
    → start < end
    → end < start + 0x20_0000
    → add_memory_region l a start end ≡ ok a
unfolding add_memory_region smallest in_bytes add_tokens chosen_size largest_aligned larger
    shrink_while_unfit smaller
add_memory_region_loses_tail l a start end same fits aligned not_more end_aligned ordered short =
    ground (
      arith,
      can_create_page-fit l end (omega arith) (omega arith) start size_4KiB,
      can_create_page-unfit l end (omega arith) (omega arith) start size_2MiB,
      bounded-err l start 0x20_0000 end,
    )
