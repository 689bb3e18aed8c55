-- ===== src/Socks/Kernel/Memory.antt =====
-- hw2-socks5-server: what is written to memory is read from it (BufferPool::m_buffers of
-- include/server.hpp).
use modern_cpp_hw.Prelude.{
  ℕ, suc, ◌+◌, ◌-◌, ◌%◌, ◌<◌, ◌≡◌, ◌∙◌, refl, ap, List, [], ◌∷◌, arith, length, get_or, leb, ltb,
  if◌then◌else◌, Bool, true, false, ◌&&◌,
}
use modern_cpp_hw.Socks.Buffers.{read_memory, write_memory}
use modern_cpp_hw.Prelude.{IsBytes}

read_stored :
    (memory : ℕ → ℕ) (at : ℕ) (bytes : List ℕ)
    → ((i : ℕ) → i < length bytes → memory (at + i) ≡ get_or bytes i 0)
    → IsBytes bytes
    → read_memory memory at (length bytes) ≡ bytes
unfolding read_memory
read_stored memory at [] h b = refl
read_stored memory at (x ∷ bytes) h (l, b) =
    ap (λ y. y ∷ read_memory memory (at + 1) (length bytes)) (first (h 0 (omega arith)))
    ∙ ap (λ ys. x ∷ ys)
        (read_stored memory (at + 1) bytes
          (λ i k. ap memory (omega arith) ∙ h (suc i) (omega (arith, k))) b)
  where
    first : memory (at + 0) ≡ x → memory at % 256 ≡ x
    first e = omega (arith, ap memory (no_offset at), e, l)
      where
        no_offset : (a : ℕ) → a + 0 ≡ a
        no_offset a = omega arith

written_at :
    (memory : ℕ → ℕ) (at : ℕ) (bytes : List ℕ) (i : ℕ)
    → i < length bytes
    → write_memory memory at bytes (at + i) ≡ get_or bytes i 0
unfolding write_memory
written_at memory at bytes i l =
    inside (leb at (at + i) && ltb (at + i) (at + length bytes)) (ground arith)
    ∙ ap (λ k. get_or bytes k 0) (omega arith)
  where
    inside :
        (b : Bool)
        → b ≡ true
        → (if b then get_or bytes (at + i - at) 0 else memory (at + i))
          ≡ get_or bytes (at + i - at) 0
    inside true e = refl
    inside false e = cc

pub read_memory-write_memory :
    (memory : ℕ → ℕ) (at : ℕ) (bytes : List ℕ)
    → IsBytes bytes
    → read_memory (write_memory memory at bytes) at (length bytes) ≡ bytes
read_memory-write_memory memory at bytes b =
    read_stored (write_memory memory at bytes) at bytes (written_at memory at bytes) b
