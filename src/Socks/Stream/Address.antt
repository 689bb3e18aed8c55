-- ===== src/Socks/Stream/Address.antt =====
-- hw2-socks5-server: Session::read_address (src/server.cpp) against the layout of a request.
use modern_cpp_hw.Prelude.{
  ℕ, zero, suc, ◌+◌, ◌≤◌, ◌<◌, ◌≡◌, ◌∙◌, refl, ap, sym, List, [], ◌∷◌, true, length, get_elem?,
  some, arith, u32, take, drop, IsBytes,
}
use modern_cpp_hw.Socks.Os.{Os}
use modern_cpp_hw.Socks.Session.{AddressType, ipv4, domain_name, ipv6, is_read_completed}
use modern_cpp_hw.Socks.Ring.{Machine}
use modern_cpp_hw.Socks.Handshake.{read_address_of}
use modern_cpp_hw.Socks.Stream.{
  Asked, to_ipv4, to_ipv6, to_host, address_in, request_of, AddressHeard, Serves,
}
use modern_cpp_hw.Socks.Stream.Steps.{as-Serves, slice-Serves, consume-Serves, at_least-le}

asked-all :
    (n : ℕ) (ask : List ℕ → List ℕ → List ℕ → Asked) (xs : List ℕ)
    → n + 2 ≤ length xs
    → address_in n ask xs ≡ ask (take n xs) (take 2 (drop n xs)) (drop (n + 2) xs)
asked-all n ask xs h = ground arith

byte-lt : (bytes : List ℕ) (i n : ℕ) → IsBytes bytes → get_elem? bytes i ≡ some n → n < 256
byte-lt [] i n b e = cc
byte-lt (x ∷ bytes) zero n b e = ground (arith, b.0)
byte-lt (x ∷ bytes) (suc i) n b e = byte-lt bytes i n b.1 e

module _ (os : Os) (m : Machine) (bytes : List ℕ) where
  ipv4-Serves :
      bytes ≡ 5 ∷ 1 ∷ 0 ∷ 1 ∷ m.session.read_buffer
      → 6 ≤ length m.session.read_buffer
      → Serves request_of os m bytes (request_of bytes) (read_address_of os ipv4 m)
  unfolding read_address_of
  ipv4-Serves e full =
      let xs = m.session.read_buffer in
      let asked = to_ipv4 (take 4 xs) (take 2 (drop 4 xs)) (drop 6 xs) in
      as-Serves request_of os m bytes asked _ _ (sym (ap request_of e ∙ asked-all 4 to_ipv4 _ full))
        (slice-Serves request_of os m bytes xs 0 4 _ asked (omega arith) (
          slice-Serves request_of os m bytes xs 4 2 _ asked full (
            consume-Serves request_of os m bytes 6 _ _ asked full
              (_, refl, refl, refl, refl, refl))))

  ipv6-Serves :
      bytes ≡ 5 ∷ 1 ∷ 0 ∷ 4 ∷ m.session.read_buffer
      → 18 ≤ length m.session.read_buffer
      → Serves request_of os m bytes (request_of bytes) (read_address_of os ipv6 m)
  unfolding read_address_of
  ipv6-Serves e full =
      let xs = m.session.read_buffer in
      let asked = to_ipv6 (take 16 xs) (take 2 (drop 16 xs)) (drop 18 xs) in
      as-Serves request_of os m bytes asked _ _
        (sym (ap request_of e ∙ asked-all 16 to_ipv6 _ full))
        (slice-Serves request_of os m bytes xs 0 16 _ asked (omega arith) (
          slice-Serves request_of os m bytes xs 16 2 _ asked full (
            consume-Serves request_of os m bytes 18 _ _ asked full
              (_, refl, refl, refl, refl, refl))))

  name-Serves :
      IsBytes bytes
      → bytes ≡ 5 ∷ 1 ∷ 0 ∷ 3 ∷ m.session.domain_name_length ∷ m.session.read_buffer
      → u32 (m.session.domain_name_length + 2) ≤ length m.session.read_buffer
      → Serves request_of os m bytes (request_of bytes) (read_address_of os domain_name m)
  unfolding read_address_of
  name-Serves b e full =
      let n = m.session.domain_name_length in
      let short = byte-lt bytes 4 n b (ap (λ ys. get_elem? ys 4) e) in
      let xs = m.session.read_buffer in
      let size : u32 (n + 2) ≡ n + 2 = omega (arith, short) in
      let enough : n + 2 ≤ length xs = omega (arith, size) in
      let asked = to_host (take n xs) (take 2 (drop n xs)) (drop (n + 2) xs) in
      as-Serves request_of os m bytes asked _ _
        (sym (ap request_of e ∙ asked-all n to_host _ enough))
        (slice-Serves request_of os m bytes xs 0 n _ asked (omega (arith, enough)) (
          slice-Serves request_of os m bytes xs n 2 _ asked enough (
            consume-Serves request_of os m bytes (u32 (n + 2)) _ _ asked full
              (_, refl, refl, refl, refl, ap (λ k. drop k xs) size))))

  pub address-Serves :
      (type : AddressType)
      → IsBytes bytes
      → AddressHeard type m.session.read_goal m.session.domain_name_length m.session.read_buffer
          bytes
      → is_read_completed m.session.read_goal m.session.read_buffer ≡ true
      → Serves request_of os m bytes (request_of bytes) (read_address_of os type m)
  unfolding is_read_completed
  address-Serves ipv4 b (g, e) full = ipv4-Serves e (at_least-le _ 6 _ g full)
  address-Serves ipv6 b (g, e) full = ipv6-Serves e (at_least-le _ 18 _ g full)
  address-Serves domain_name b (g, e) full = name-Serves b e (at_least-le _ _ _ g full)
