-- ===== src/Socks/Stream/Request.antt =====
-- hw2-socks5-server: the states of Session that read a request (src/server.cpp) against its layout.
use modern_cpp_hw.Prelude.{
  ℕ, ◌+◌, ◌≤◌, ◌≡◌, ◌∙◌, refl, ap, sym, List, [], ◌∷◌, false, not, length, arith, u32, drop,
  IsBytes, ◌==◌, ==_iff,
}
use modern_cpp_hw.Socks.Outcome.{Outcome}
use modern_cpp_hw.Socks.Os.{Os}
use modern_cpp_hw.Socks.Session.{
  State, reading_domain_name_length, reading_address, AddressType, ipv4, domain_name, ipv6,
  at_least,
}
use modern_cpp_hw.Socks.Ring.{Machine}
use modern_cpp_hw.Socks.Transfer.{fail_delayed, send_fail_message}
use modern_cpp_hw.Socks.Transfer.{byte_at, read_some_from_client}
use modern_cpp_hw.Socks.Handshake.{
  read_client_connection_request, read_address_type, read_domain_name_length, expect_address,
}
use modern_cpp_hw.Socks.Handlers.Depth.{rank}
use modern_cpp_hw.Socks.Safety.Pieces.{consume-done}
use modern_cpp_hw.Socks.Stream.{layout, address_of, request_of, AddressHeard, HeardIn, Serves}
use modern_cpp_hw.Socks.Stream.Steps.{
  done-Serves, as-Serves, if-Serves, read_until-Serves, ServesBelow,
}

nonempty-cons : (xs : List ℕ) → 1 ≤ length xs → (x : ℕ) × (rest : List ℕ) × (xs ≡ x ∷ rest)
nonempty-cons [] h = elim h [ ]
nonempty-cons (x ∷ rest) h = (x, rest, refl)

four-cons :
    (xs : List ℕ)
    → 4 ≤ length xs
    → (a : ℕ) × (b : ℕ) × (c : ℕ) × (d : ℕ) × (rest : List ℕ) × (xs ≡ a ∷ b ∷ c ∷ d ∷ rest)
four-cons [] h = elim h [ ]
four-cons (a ∷ []) h = absurd (omega arith)
four-cons (a ∷ b ∷ []) h = absurd (omega arith)
four-cons (a ∷ b ∷ c ∷ []) h = absurd (omega arith)
four-cons (a ∷ b ∷ c ∷ d ∷ rest) h = (a, b, c, d, rest, refl)

name_heard :
    (type : AddressType) (n : ℕ) (left bytes : List ℕ)
    → type ≡ domain_name
    → bytes ≡ 5 ∷ 1 ∷ 0 ∷ 3 ∷ n ∷ left
    → AddressHeard type (at_least (u32 (n + 2))) n left bytes
name_heard domain_name n left bytes t e = (refl, e)
name_heard ipv4 n left bytes t e = cc
name_heard ipv6 n left bytes t e = cc

module _ (os : Os) (again : Machine → Outcome Machine) (m : Machine) (bytes : List ℕ)
    (b : IsBytes bytes) where
  name_length-Serves-cons :
      (n : ℕ) (left : List ℕ)
      → ServesBelow request_of os 1 again
      → m.session.address_type ≡ domain_name
      → m.session.read_buffer ≡ n ∷ left
      → bytes ≡ 5 ∷ 1 ∷ 0 ∷ 3 ∷ m.session.read_buffer
      → Serves request_of os m bytes (request_of bytes) (read_domain_name_length again m)
  unfolding read_domain_name_length read_some_from_client
  name_length-Serves-cons n left ih type x e =
      done-Serves request_of os m bytes _ n _ _ (ap (λ xs. byte_at xs 0) x) (
        done-Serves request_of os m bytes _ _ _ _ (consume-done 1 _ (ground arith)) (
          read_until-Serves request_of os _ again 1 _ bytes ih (omega arith)
            (
              refl,
              name_heard _ n _ bytes type
                  (e ∙ ap (λ xs. 5 ∷ 1 ∷ 0 ∷ 3 ∷ xs) (x ∙ sym (ap (λ xs. n ∷ drop 1 xs) x))),
            )
            b))

  pub name_length-Serves :
      ServesBelow request_of os 1 again
      → m.session.address_type ≡ domain_name
      → bytes ≡ 5 ∷ 1 ∷ 0 ∷ 3 ∷ m.session.read_buffer
      → 1 ≤ length m.session.read_buffer
      → Serves request_of os m bytes (request_of bytes) (read_domain_name_length again m)
  name_length-Serves ih type e full =
      let (n, left, x) = nonempty-cons _ full in name_length-Serves-cons n left ih type x e

  expect_address-Serves :
      (type : AddressType) (st : State) (n t : ℕ)
      → ServesBelow request_of os 2 again
      → rank st ≤ 2
      → layout st ≡ request_of
      → HeardIn st m.session.auth_methods_count type
          (at_least n)
          m.session.domain_name_length
          m.session.read_buffer
          bytes
      → bytes ≡ 5 ∷ 1 ∷ 0 ∷ t ∷ m.session.read_buffer
      → Serves request_of os m bytes
          (address_of t m.session.read_buffer)
          (expect_address again type st n m)
  unfolding read_some_from_client
  expect_address-Serves type st n t ih k l h e =
      as-Serves request_of os m bytes _ _ _ (ap request_of e)
        (read_until-Serves request_of os (at_least n) again 2 _ bytes ih k (l, h) b)

  -- The switch over the address type, after its four bytes.
  address_type-Serves :
      (t : ℕ)
      → ServesBelow request_of os 2 again
      → bytes ≡ 5 ∷ 1 ∷ 0 ∷ t ∷ m.session.read_buffer
      → Serves request_of os m bytes
          (address_of t m.session.read_buffer)
          (read_address_type os again t m)
  unfolding read_address_type fail_delayed send_fail_message
  address_type-Serves t ih e =
      if-Serves request_of os m bytes (t == 1) _ _ _ _
        (λ t1.
          let e1 = e ∙ ap (λ k. 5 ∷ 1 ∷ 0 ∷ k ∷ m.session.read_buffer) ((==_iff t 1).0 t1) in
          expect_address-Serves ipv4 reading_address 6 1 ih (omega arith) refl (refl, e1) e1)
        λ _.
          if-Serves request_of os m bytes (t == 3) _ _ _ _
            (λ t3.
              let e3 = e ∙ ap (λ k. 5 ∷ 1 ∷ 0 ∷ k ∷ m.session.read_buffer) ((==_iff t 3).0 t3) in
              expect_address-Serves domain_name reading_domain_name_length 1 3 ih (omega arith) refl
                (refl, e3, refl) e3)
            λ _.
              if-Serves request_of os m bytes (t == 4) _ _ _ _
                (λ t4.
                  let e4 =
                    e ∙ ap (λ k. 5 ∷ 1 ∷ 0 ∷ k ∷ m.session.read_buffer) ((==_iff t 4).0 t4) in
                  expect_address-Serves ipv6 reading_address 18 4 ih (omega arith) refl (refl, e4)
                    e4)
                (λ _. (m.session, refl, refl))

opening-eq :
    (v c z t : ℕ) (left : List ℕ)
    → not (v == 5) ≡ false
    → not (c == 1) ≡ false
    → not (z == 0) ≡ false
    → v ∷ c ∷ z ∷ t ∷ left ≡ 5 ∷ 1 ∷ 0 ∷ t ∷ left
opening-eq v c z t left h i j = ground arith

module _ (os : Os) (again : Machine → Outcome Machine) (m : Machine) (bytes : List ℕ)
    (b : IsBytes bytes) where
  request-Serves-cons :
      (v c z t : ℕ) (left : List ℕ)
      → ServesBelow request_of os 2 again
      → m.session.read_buffer ≡ v ∷ c ∷ z ∷ t ∷ left
      → bytes ≡ v ∷ c ∷ z ∷ t ∷ left
      → Serves request_of os m bytes
          (request_of (v ∷ c ∷ z ∷ t ∷ left))
          (read_client_connection_request os again m)
  unfolding read_client_connection_request fail_delayed send_fail_message
  request-Serves-cons v c z t left ih x e =
      done-Serves request_of os m bytes _ v _ _ (ap (λ xs. byte_at xs 0) x) (
        if-Serves request_of os m bytes (not (v == 5)) _ _ _ _ (λ _. (m.session, refl, refl))
          λ v5. done-Serves request_of os m bytes _ c _ _ (ap (λ xs. byte_at xs 1) x) (
            if-Serves request_of os m bytes (not (c == 1)) _ _ _ _ (λ _. (m.session, refl, refl))
              λ c1. done-Serves request_of os m bytes _ z _ _ (ap (λ xs. byte_at xs 2) x) (
                if-Serves request_of os m bytes (not (z == 0)) _ _ _ _ (λ _. (_, refl, refl))
                  λ z0. done-Serves request_of os m bytes _ t _ _ (ap (λ xs. byte_at xs 3) x) (
                    done-Serves request_of os m bytes _ _ _ _ (consume-done 4 _ (ground arith)) (
                      as-Serves request_of os m bytes _ _ _ (ap (λ xs. address_of t (drop 4 xs)) x)
                        (address_type-Serves os again _ bytes b t ih (
                          e
                          ∙ opening-eq v c z t left v5 c1 z0
                          ∙ sym (ap (λ xs. 5 ∷ 1 ∷ 0 ∷ t ∷ drop 4 xs) x))))))))

  pub request-Serves :
      ServesBelow request_of os 2 again
      → bytes ≡ m.session.read_buffer
      → 4 ≤ length m.session.read_buffer
      → Serves request_of os m bytes (request_of bytes) (read_client_connection_request os again m)
  request-Serves ih e full =
      let (v, c, z, t, left, x) = four-cons _ full in
      as-Serves request_of os m bytes _ _ _ (ap request_of (sym (e ∙ x)))
        (request-Serves-cons v c z t left ih x (e ∙ x))
