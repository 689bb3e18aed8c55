-- ===== src/Socks/Buffers.antt =====
-- hw2-socks5-server: BufferPool (include/server.hpp, src/server.cpp).
-- A pointer into m_buffers is its offset from m_buffers.data(); products are those of `unsigned`.
pub mod Layout
use modern_cpp_hw.Prelude.{
  ℕ, zero, suc, ◌+◌, ◌-◌, ◌*◌, ◌%◌, List, [], ◌∷◌, ◌++◌, Option, none, some, ltb, ◌&&◌, leb, u32,
  if◌then◌else◌, get_or, length,
}
use modern_cpp_hw.Socks.Events.{range_from}

abbrev pub half_buffer_size : ℕ
half_buffer_size = 16384

abbrev pub buffer_size : ℕ
buffer_size = half_buffer_size * 2

pub record Iovec : Type 0 where
  pub iov_base : ℕ
  pub iov_len : ℕ

-- [start, stop) of m_buffers, as a std::span made of two pointers.
pub record Span : Type 0 where
  pub start : ℕ
  pub stop : ℕ

-- `memory` is the content of m_buffers by offset.
pub record BufferPool : Type 0 where
  pub total_buffer_count : ℕ
  pub memory : ℕ → ℕ
  pub memory_size : ℕ
  pub free_buffers : List ℕ
  pub iovecs : List Iovec

-- The loop of the constructor, from `i` on for `n` rounds.
unfoldable pub make_iovecs : ℕ → ℕ → List Iovec
make_iovecs i zero = []
make_iovecs i (suc n) =
    record { iov_base = u32 (u32 (2 * i) * half_buffer_size); iov_len = half_buffer_size }
    ∷ record { iov_base = u32 (u32 (2 * i + 1) * half_buffer_size); iov_len = half_buffer_size }
    ∷ make_iovecs (i + 1) n

unfoldable pub buffer_pool : ℕ → BufferPool
buffer_pool nconnections = record {
  total_buffer_count = nconnections;
  memory = λ _. 0;
  memory_size = u32 (nconnections * buffer_size);
  free_buffers = range_from 0 nconnections;
  iovecs = make_iovecs 0 nconnections;
}

unfoldable pub take_front : BufferPool → List ℕ → Option (ℕ × BufferPool)
take_front p [] = none
take_front p (i ∷ rest) = some (i, record p { free_buffers = rest })

-- `none` is the InsufficientBuffersException.
unfoldable pub obtain_free_buffer : BufferPool → Option (ℕ × BufferPool)
obtain_free_buffer p = take_front p p.free_buffers

unfoldable pub return_buffer : ℕ → BufferPool → BufferPool
return_buffer i p = record p { free_buffers = p.free_buffers ++ i ∷ [] }

unfoldable pub buffer_half0 : ℕ → Span
buffer_half0 i = record {
  start = u32 (i * buffer_size);
  stop = u32 (i * buffer_size) + half_buffer_size;
}

unfoldable pub buffer_half1 : ℕ → Span
buffer_half1 i = record {
  start = u32 (i * buffer_size) + half_buffer_size;
  stop = u32 (u32 (i + 1) * buffer_size);
}

-- The `n` bytes from offset `at` on, each an unsigned char, and a write of bytes there (std::memcpy, or the kernel).
unfoldable pub read_memory : (ℕ → ℕ) → ℕ → ℕ → List ℕ
read_memory memory at zero = []
read_memory memory at (suc n) = (memory at % 256) ∷ read_memory memory (at + 1) n

unfoldable pub write_memory : (ℕ → ℕ) → ℕ → List ℕ → ℕ → ℕ
write_memory memory at bytes k =
    if leb at k && ltb k (at + length bytes) then get_or bytes (k - at) 0 else memory k
