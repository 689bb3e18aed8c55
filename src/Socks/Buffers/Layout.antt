-- ===== src/Socks/Buffers/Layout.antt =====
-- hw2-socks5-server: where the halves of the buffers lie (BufferPool of src/server.cpp).
use modern_cpp_hw.Prelude.{
  ℕ, zero, suc, ◌+◌, ◌*◌, ◌^◌, ◌≤◌, ◌<◌, ◌≡◌, ◌∙◌, refl, sym, ap, Option, some, get_elem?, arith,
  u32,
}
use modern_cpp_hw.Socks.Buffers.{
  Iovec, make_iovecs, buffer_pool, buffer_half0, buffer_half1, half_buffer_size,
}

abbrev twice : ℕ → ℕ
twice zero = 0
twice (suc i) = suc (suc (twice i))

twice_eq : (i : ℕ) → twice i ≡ 2 * i
twice_eq zero = refl
twice_eq (suc i) = omega (arith, twice_eq i)

-- The `k`-th half of all.
abbrev half_at : ℕ → Iovec
half_at k = record { iov_base = u32 (u32 k * half_buffer_size); iov_len = half_buffer_size }

iovecs_from :
    (j n i : ℕ)
    → i < n
    → (get_elem? (make_iovecs j n) (twice i) ≡ some (half_at (2 * (j + i))))
      × (get_elem? (make_iovecs j n) (suc (twice i)) ≡ some (half_at (2 * (j + i) + 1)))
unfolding make_iovecs
iovecs_from j zero i l = absurd (ground arith)
iovecs_from j (suc n) zero l = rw (same j) (refl, refl)
  where
    same : (j : ℕ) → j + 0 ≡ j
    same j = omega arith
iovecs_from j (suc n) (suc i) l = rw (moved j i) (iovecs_from (j + 1) n i (omega arith))
  where
    moved : (j i : ℕ) → j + suc i ≡ j + 1 + i
    moved j i = omega arith

-- For up to 2^17 - 1 connections, the two registered vectors of the buffer `i` are its two halves: they
-- meet, each has the size of half a buffer, and the second ends within the memory of the pool.
pub iovecs-halves :
    (n i : ℕ)
    → i < n
    → n < 2 ^ 17
    → (get_elem? (buffer_pool n).iovecs (2 * i)
        ≡ some (record { iov_base = (buffer_half0 i).start; iov_len = half_buffer_size }))
      × (get_elem? (buffer_pool n).iovecs (2 * i + 1)
          ≡ some (record { iov_base = (buffer_half1 i).start; iov_len = half_buffer_size }))
      × ((buffer_half0 i).start + half_buffer_size ≡ (buffer_half0 i).stop)
      × ((buffer_half0 i).stop ≡ (buffer_half1 i).start)
      × ((buffer_half1 i).start + half_buffer_size ≡ (buffer_half1 i).stop)
      × ((buffer_half1 i).stop ≤ (buffer_pool n).memory_size)
unfolding buffer_pool buffer_half0 buffer_half1
iovecs-halves n i l b =
    let (x, y) = iovecs_from 0 n i l in
    (
      ap (get_elem? (make_iovecs 0 n)) (sym (twice_eq i)) ∙ x ∙ ap placed (omega arith),
      ap (get_elem? (make_iovecs 0 n)) (omega (arith, twice_eq i)) ∙ y ∙ ap placed (omega arith),
      refl,
      refl,
      omega arith,
      omega arith,
    )
  where
    placed : ℕ → Option Iovec
    placed base = some (record { iov_base = base; iov_len = half_buffer_size })
