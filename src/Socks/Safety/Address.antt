-- ===== src/Socks/Safety/Address.antt =====
-- The last step of the handshake's reading: an address, and the socket for it.
use modern_cpp_hw.Prelude.{
  ℕ, ◌+◌, ◌≤◌, ◌≡◌, ◌≢◌, ◌∙◌, refl, ap, List, [], ◌∷◌, Option, none, some, length, inl, inr, arith,
  Bool-cases, u32,
}
use modern_cpp_hw.Socks.Os.{
  Os, opened, refused, other_family, HostEntry, Family, inet, inet6, SocketAnswer,
}
use modern_cpp_hw.Socks.Session.{reading_address, AddressType, ipv4, domain_name, ipv6}
use modern_cpp_hw.Socks.Sockets.{
  SockAddr, Made, made, error, other_exception, socket_ipv4, socket_ipv6, make_socket, socket_made,
}
use modern_cpp_hw.Socks.Ring.{Machine}
use modern_cpp_hw.Socks.Transfer.{send_fail_message}
use modern_cpp_hw.Socks.Handshake.{
  connect_made, connect_ipv4_destination, connect_ipv6_destination, resolved, connect_host,
  c_string, read_address_of,
}
use modern_cpp_hw.Socks.Safety.{debt, address_size, IsShort, IsKind, own, Ready, Rests, GoesFrom}
use modern_cpp_hw.Socks.Safety.Leaves.{start_connect-Goes}
use modern_cpp_hw.Socks.Safety.Failing.{send_fail_message-Goes, destroy_socket-done}
use modern_cpp_hw.Socks.Safety.Pieces.{done-Goes, slice-Goes, consume-Goes, rests_on}

-- A socket is made, or there is no memory for it.
abbrev IsMadeOrNot : Made → Type 0
IsMadeOrNot (error e) = ⊥
IsMadeOrNot _ = Unit {0}

answered :
    (a : SockAddr) (w : SocketAnswer) (fd : ℕ) → w ≡ opened fd → IsMadeOrNot (socket_made a w)
unfolding socket_made
answered a (opened c) fd e = tt
answered a (refused c) fd e = cc

make_socket-made : (os : Os) (a : SockAddr) → IsKind os → IsMadeOrNot (make_socket os a)
unfolding make_socket
make_socket-made os a k = elim (Bool-cases (os.has_memory a.family)) [
  | inl y ↦ rw y (answered a _ (k.opens a.family).0 (k.opens a.family).1)
  | inr n ↦ rw n tt
]

connect_made-Goes :
    (busy : List ℕ) (os : Os) (w : Made) (m : Machine)
    → IsMadeOrNot w
    → IsKind os
    → Ready busy m
    → own m ≡ []
    → Rests m.session
    → m.session.state ≡ reading_address
    → m.session.address_type ≢ domain_name
    → GoesFrom busy m (connect_made os w m)
unfolding connect_made
connect_made-Goes busy os (made s) m i k h e r st t =
    let (trace, eq) = destroy_socket-done os m.session.destination_socket m.server.closed k in
    done-Goes _ trace _ eq
      (start_connect-Goes busy _ h e (r.rest_counted ∙ ap debt st) r (s, refl) t)
connect_made-Goes busy os (error c) m i k h e r st t = absurd i
connect_made-Goes busy os other_exception m i k h e r st t =
    send_fail_message-Goes busy os 1 m k h e r

module _ (busy : List ℕ) (os : Os) (k : IsKind os) (m : Machine) (h : Ready busy m) (e : own m ≡ [])
    (r : Rests m.session) (st : m.session.state ≡ reading_address) where
  ipv4-Goes : m.session.address_type ≢ domain_name → GoesFrom busy m (connect_ipv4_destination os m)
  unfolding connect_ipv4_destination socket_ipv4
  ipv4-Goes = connect_made-Goes busy os _ m (make_socket-made os _ k) k h e r st

  ipv6-Goes : m.session.address_type ≢ domain_name → GoesFrom busy m (connect_ipv6_destination os m)
  unfolding connect_ipv6_destination socket_ipv6
  ipv6-Goes = connect_made-Goes busy os _ m (make_socket-made os _ k) k h e r st

resolved-Goes :
    (busy : List ℕ) (os : Os) (k : IsKind os) (m : Machine)
    → Ready busy m
    → own m ≡ []
    → Rests m.session
    → m.session.state ≡ reading_address
    → (f : Family) (addr : List ℕ) → f ≢ other_family
    → GoesFrom busy m (resolved os f addr m)
unfolding resolved
resolved-Goes busy os k m h e r st inet addr ne = ipv4-Goes busy os k _ h e r st (λ c. cc)
resolved-Goes busy os k m h e r st inet6 addr ne = ipv6-Goes busy os k _ h e r st (λ c. cc)
resolved-Goes busy os k m h e r st other_family addr ne = absurd (ne refl)

entry-Goes :
    (busy : List ℕ) (os : Os) (k : IsKind os) (m : Machine)
    → Ready busy m
    → own m ≡ []
    → Rests m.session
    → m.session.state ≡ reading_address
    → (answer : Option HostEntry)
    → ((he : HostEntry) → answer ≡ some he → he.addrtype ≢ other_family)
    → GoesFrom busy m (connect_host os answer m)
unfolding connect_host
entry-Goes busy os k m h e r st none knows = send_fail_message-Goes busy os 4 m k h e r
entry-Goes busy os k m h e r st (some he) knows = addresses he.addr_list
  where
    addresses :
        (l : List (List ℕ))
        → GoesFrom busy m
            (elim l [ [] ↦ send_fail_message os 4 m | addr ∷ _ ↦ resolved os he.addrtype addr m ])
    addresses [] = send_fail_message-Goes busy os 4 m k h e r
    addresses (addr ∷ l) = resolved-Goes busy os k m h e r st he.addrtype addr (knows he refl)

ipv4-ne : (t : AddressType) → t ≡ ipv4 → t ≢ domain_name
ipv4-ne t e = λ c. cc

ipv6-ne : (t : AddressType) → t ≡ ipv6 → t ≢ domain_name
ipv6-ne t e = λ c. cc

pub read_address_of-Goes :
    (busy : List ℕ) (os : Os) (k : IsKind os) (m : Machine)
    → Ready busy m
    → own m ≡ []
    → Rests m.session
    → m.session.state ≡ reading_address
    → (type : AddressType) → m.session.address_type ≡ type
    → IsShort type m.session.domain_name_length
    → address_size type m.session.domain_name_length ≤ length m.session.read_buffer
    → GoesFrom busy m (read_address_of os type m)
unfolding read_address_of
read_address_of-Goes busy os k m h e r st ipv4 t short full =
    slice-Goes m.session.read_buffer 0 4 _ (omega arith) λ addr.
      slice-Goes m.session.read_buffer 4 2 _ (omega arith) λ port.
        consume-Goes 6 _ _ full
          (ipv4-Goes busy os k _ h e (rests_on m.session.state 6 refl r) st (ipv4-ne _ t))
read_address_of-Goes busy os k m h e r st domain_name t short full =
    slice-Goes m.session.read_buffer 0 m.session.domain_name_length _ (omega arith) λ name.
      slice-Goes m.session.read_buffer m.session.domain_name_length 2 _ (omega arith) λ port.
        consume-Goes (u32 (m.session.domain_name_length + 2)) _ _ (omega arith) (
          entry-Goes busy os k _ h e (rests_on m.session.state _ refl r) st
            (os.gethostbyname (c_string name)) (k.knows (c_string name)))
read_address_of-Goes busy os k m h e r st ipv6 t short full =
    slice-Goes m.session.read_buffer 0 16 _ (omega arith) λ addr.
      slice-Goes m.session.read_buffer 16 2 _ (omega arith) λ port.
        consume-Goes 18 _ _ full
          (ipv6-Goes busy os k _ h e (rests_on m.session.state 18 refl r) st (ipv6-ne _ t))
