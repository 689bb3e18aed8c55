-- ===== src/Socks/Stream/Prefix.antt =====
-- The beginnings of a message, as RFC 1928 lays it out.
use modern_cpp_hw.Prelude.{
  ℕ, ◌+◌, ◌≡◌, ◌≢◌, refl, List, [], ◌∷◌, ◌++◌, Bool, true, false, not, if◌then◌else◌, ◌==◌,
  length-append, arith, take, drop,
}
use modern_cpp_hw.Socks.Session.{
  State, reading_client_greeting, reading_auth_methods, reading_client_connection_request,
  reading_domain_name_length, reading_address, connecting_to_destination, proxying_requests,
}
use modern_cpp_hw.Socks.Stream.{
  greeting_of, methods_in, layout, Asked, unfinished, to_ipv4, to_ipv6, to_host, address_in,
  name_in, address_of, request_of,
}

-- With `y` still unfinished, so is `x`.
abbrev pub IsBefore : Asked → Asked → Type 0
IsBefore x y = y ≡ unfinished → x ≡ unfinished

if-IsBefore :
    (c : Bool) (x y x' y' : Asked)
    → IsBefore x x'
    → IsBefore y y'
    → IsBefore (if c then x else y) (if c then x' else y')
if-IsBefore true x y x' y' h k = h
if-IsBefore false x y x' y' h k = k

address_in-IsBefore :
    (n : ℕ) (ask : List ℕ → List ℕ → List ℕ → Asked) (bytes more : List ℕ)
    → ((addr port rest : List ℕ) → ask addr port rest ≢ unfinished)
    → IsBefore (address_in n ask bytes) (address_in n ask (bytes ++ more))
address_in-IsBefore n ask bytes more asks h = ground (
  arith,
  length-append bytes more,
  asks (take n (bytes ++ more)) (take 2 (drop n (bytes ++ more))) (drop (n + 2) (bytes ++ more)),
)

name_in-IsBefore : (bytes more : List ℕ) → IsBefore (name_in bytes) (name_in (bytes ++ more))
name_in-IsBefore [] more = λ _. refl
name_in-IsBefore (n ∷ bytes) more = address_in-IsBefore n to_host bytes more (λ a p r e. cc)

address_of-IsBefore :
    (t : ℕ) (bytes more : List ℕ) → IsBefore (address_of t bytes) (address_of t (bytes ++ more))
address_of-IsBefore t bytes more =
    if-IsBefore (t == 1) _ _ _ _ (address_in-IsBefore 4 to_ipv4 bytes more (λ a p r e. cc)) (
      if-IsBefore (t == 3) _ _ _ _ (name_in-IsBefore bytes more) (
        if-IsBefore (t == 4) _ _ _ _ (address_in-IsBefore 16 to_ipv6 bytes more (λ a p r e. cc))
          (λ e. e)))

request_of-IsBefore :
    (bytes more : List ℕ) → IsBefore (request_of bytes) (request_of (bytes ++ more))
request_of-IsBefore [] more = λ _. refl
request_of-IsBefore (a ∷ []) more = λ _. refl
request_of-IsBefore (a ∷ b ∷ []) more = λ _. refl
request_of-IsBefore (a ∷ b ∷ c ∷ []) more = λ _. refl
request_of-IsBefore (a ∷ b ∷ c ∷ d ∷ bytes) more =
    if-IsBefore (not (a == 5)) _ _ _ _ (λ e. e)
      (if-IsBefore (not (b == 1)) _ _ _ _ (λ e. e)
        (if-IsBefore (not (c == 0)) _ _ _ _ (λ e. e) (address_of-IsBefore d bytes more)))

methods_in-IsBefore :
    (n : ℕ) (bytes more : List ℕ) → IsBefore (methods_in n bytes) (methods_in n (bytes ++ more))
methods_in-IsBefore n bytes more h = ground (arith, length-append bytes more)

greeting_of-IsBefore :
    (bytes more : List ℕ) → IsBefore (greeting_of bytes) (greeting_of (bytes ++ more))
greeting_of-IsBefore [] more = λ _. refl
greeting_of-IsBefore (a ∷ []) more = λ _. refl
greeting_of-IsBefore (a ∷ b ∷ []) more = λ _. refl
greeting_of-IsBefore (a ∷ b ∷ c ∷ bytes) more =
    if-IsBefore (not (a == 5)) _ _ _ _ (λ e. e)
      (if-IsBefore (b == 0) _ _ _ _ (λ e. e) (methods_in-IsBefore b (c ∷ bytes) more))

-- A message that is not all there is not all there with less.
pub layout-IsBefore :
    (st : State) (bytes more : List ℕ) → IsBefore (layout st bytes) (layout st (bytes ++ more))
layout-IsBefore reading_client_greeting bytes more = greeting_of-IsBefore bytes more
layout-IsBefore reading_auth_methods bytes more = greeting_of-IsBefore bytes more
layout-IsBefore reading_client_connection_request bytes more = request_of-IsBefore bytes more
layout-IsBefore reading_domain_name_length bytes more = request_of-IsBefore bytes more
layout-IsBefore reading_address bytes more = request_of-IsBefore bytes more
layout-IsBefore connecting_to_destination bytes more = request_of-IsBefore bytes more
layout-IsBefore proxying_requests bytes more = request_of-IsBefore bytes more
