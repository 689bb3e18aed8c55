-- ===== src/Socks/Stream/Steps.antt =====
-- hw2-socks5-server: the steps that the reading states of Session share (src/server.cpp), against the
-- layout of a request.
use modern_cpp_hw.Prelude.{
  ap, ◌==◌, ℕ, ◌+◌, ◌≤◌, ◌<◌, ◌≡◌, ◌∙◌, refl, sym, List, [], ◌∷◌, Bool, true, false, if◌then◌else◌,
  length, inl, inr, arith, Bool-cases, take, drop, IsBytes,
}
use modern_cpp_hw.Socks.Outcome.{Outcome, done, ◌>>=◌}
use modern_cpp_hw.Socks.Os.{Os}
use modern_cpp_hw.Socks.Session.{
  Session, State, reading_client_greeting, reading_auth_methods, reading_client_connection_request,
  reading_domain_name_length, reading_address, connecting_to_destination, proxying_requests,
  AddressType, ipv4, domain_name, ipv6, ReadGoal, at_least, is_read_completed,
}
use modern_cpp_hw.Socks.Ring.{Machine}
use modern_cpp_hw.Socks.Transfer.{slice, consume_bytes_from_read_buffer, read_until}
use modern_cpp_hw.Socks.Handlers.Depth.{rank}
use modern_cpp_hw.Socks.Safety.Pieces.{goal_set, rest_after, consume-done}
use modern_cpp_hw.Socks.Stream.{
  Asked, unfinished, rejected, to_ipv4, to_ipv6, to_host, request_of, greeting_of, layout, dropped,
  offers, on_session, cleared, AddressHeard, HeardIn, Heard, Serves,
}

-- A session that is not given the bytes it reads for has heard no request to the end.
unfinished-address :
    (type : AddressType) (goal : ReadGoal) (n : ℕ) (left bytes : List ℕ)
    → AddressHeard type goal n left bytes
    → IsBytes bytes
    → is_read_completed goal left ≡ false
    → request_of bytes ≡ unfinished
unfolding is_read_completed
unfinished-address ipv4 goal n left bytes (g, e) b short = ground arith
unfinished-address ipv6 goal n left bytes (g, e) b short = ground arith
unfinished-address domain_name goal n left bytes (g, e) b short = ground arith

unfinished-short : (bytes : List ℕ) → length bytes < 4 → request_of bytes ≡ unfinished
unfinished-short [] h = refl
unfinished-short (a ∷ []) h = refl
unfinished-short (a ∷ b ∷ []) h = refl
unfinished-short (a ∷ b ∷ c ∷ []) h = refl
unfinished-short (a ∷ b ∷ c ∷ d ∷ bytes) h = absurd (omega arith)

unfinished-three : (bytes : List ℕ) → length bytes < 3 → greeting_of bytes ≡ unfinished
unfinished-three [] h = refl
unfinished-three (a ∷ []) h = refl
unfinished-three (a ∷ b ∷ []) h = refl
unfinished-three (a ∷ b ∷ c ∷ bytes) h = absurd (omega arith)

unfinished-methods :
    (count : ℕ) (left : List ℕ)
    → (count == 0) ≡ false
    → length left < count
    → greeting_of (5 ∷ count ∷ left) ≡ unfinished
unfinished-methods count [] z h = refl
unfinished-methods count (x ∷ left) z h = ground (arith, z)

unfinished-heard :
    (st : State) (count : ℕ) (type : AddressType) (goal : ReadGoal) (n : ℕ) (left bytes : List ℕ)
    → HeardIn st count type goal n left bytes
    → IsBytes bytes
    → is_read_completed goal left ≡ false
    → layout st bytes ≡ unfinished
unfolding is_read_completed
unfinished-heard reading_client_greeting count type goal n left bytes (g, e) b short =
    rw (e, unfinished-three left (ground arith)) refl
unfinished-heard reading_auth_methods count type goal n left bytes (g, e, z) b short =
    rw (e, unfinished-methods count left z (ground arith)) refl
unfinished-heard reading_client_connection_request count type goal n left bytes (g, e) b short =
    rw (e, unfinished-short left (ground arith)) refl
unfinished-heard reading_domain_name_length count type goal n left bytes (g, e, d) b short =
    ground arith
unfinished-heard reading_address count type goal n left bytes h b short =
    unfinished-address type goal n left bytes h b short
unfinished-heard connecting_to_destination count type goal n left bytes h b short = elim h [ ]
unfinished-heard proxying_requests count type goal n left bytes h b short = elim h [ ]

pub Heard-unfinished :
    (lay : List ℕ → Asked) (s : Session) (bytes : List ℕ)
    → Heard lay s bytes
    → IsBytes bytes
    → is_read_completed s.read_goal s.read_buffer ≡ false
    → lay bytes ≡ unfinished
Heard-unfinished lay s bytes (l, h) b short =
    ap (λ (f : List ℕ → Asked). f bytes) (sym l)
    ∙ unfinished-heard s.state _ _ _ _ _ bytes h b short

pub at_least-le :
    (goal : ReadGoal) (n : ℕ) (left : List ℕ)
    → goal ≡ at_least n
    → is_read_completed goal left ≡ true
    → n ≤ length left
unfolding is_read_completed
at_least-le goal n left g full = ground arith

-- The function serves the session, given that it has heard these bytes.
abbrev pub ServesBelow : (List ℕ → Asked) → Os → ℕ → (Machine → Outcome Machine) → Type 0
ServesBelow lay os d again =
    (m : Machine) (bytes : List ℕ)
    → rank m.session.state ≤ d
    → Heard lay m.session bytes
    → IsBytes bytes
    → Serves lay os m bytes (lay bytes) (again m)

pub Serves-kept :
    (lay : List ℕ → Asked) (os : Os) (m : Machine) (s : Session) (bytes : List ℕ) (asked : Asked)
    (r : Outcome Machine)
    → cleared s ≡ cleared m.session
    → Serves lay os (on_session m s) bytes asked r
    → Serves lay os m bytes asked r
Serves-kept lay os m s bytes unfinished r k (s', e, c, h) = (s', e, c ∙ k, h)
Serves-kept lay os m s bytes (rejected code) r k (s', e, c) = (s', e, c ∙ k)
Serves-kept lay os m s bytes (to_ipv4 addr port rest) r k (s', e, c, x, y, z) =
    (s', e, c ∙ k, x, y, z)
Serves-kept lay os m s bytes (to_ipv6 addr port rest) r k (s', e, c, x, y, z) =
    (s', e, c ∙ k, x, y, z)
Serves-kept lay os m s bytes (to_host name port rest) r k (s', e, c, x, y, z) =
    (s', e, c ∙ k, x, y, z)
Serves-kept lay os m s bytes dropped r k (s', e, c) = (s', e, c ∙ k)
Serves-kept lay os m s bytes (offers methods rest) r k (s', e, c) = (s', e, c ∙ k)

pub read_until-Serves :
    (lay : List ℕ → Asked) (os : Os) (goal : ReadGoal) (again : Machine → Outcome Machine) (d : ℕ)
    (m : Machine) (bytes : List ℕ)
    → ServesBelow lay os d again
    → rank m.session.state ≤ d
    → Heard lay (goal_set goal m).session bytes
    → IsBytes bytes
    → Serves lay os m bytes (lay bytes) (read_until goal again m)
unfolding read_until
read_until-Serves lay os goal again d m bytes ih k h b =
    elim (Bool-cases (is_read_completed goal m.session.read_buffer)) [
      | inl full ↦
          rw full (Serves-kept lay os m m.session bytes _ _ refl (ih (goal_set goal m) bytes k h b))
      | inr short ↦
          rw (short, Heard-unfinished lay (goal_set goal m).session bytes h b short)
            ((goal_set goal m).session, refl, refl, h)
    ]

module _ (lay : List ℕ → Asked) (os : Os) (m : Machine) (bytes : List ℕ) where
  pub done-Serves {ℓ} :
      {A : Type ℓ} (r : Outcome A) (a : A) (f : A → Outcome Machine) (asked : Asked)
      → r ≡ done a
      → Serves lay os m bytes asked (f a)
      → Serves lay os m bytes asked (r >>= f)
  done-Serves r a f asked e h = rw e h

  pub as-Serves :
      (x y : Asked) (r : Outcome Machine)
      → x ≡ y
      → Serves lay os m bytes x r
      → Serves lay os m bytes y r
  as-Serves x y r e h = rw (sym e) h

  pub if-Serves :
      (c : Bool) (x y : Asked) (r q : Outcome Machine)
      → (c ≡ true → Serves lay os m bytes x r)
      → (c ≡ false → Serves lay os m bytes y q)
      → Serves lay os m bytes (if c then x else y) (if c then r else q)
  if-Serves true x y r q h k = h refl
  if-Serves false x y r q h k = k refl

  pub slice-Serves :
      (xs : List ℕ) (at n : ℕ) (f : List ℕ → Outcome Machine) (asked : Asked)
      → at + n ≤ length xs
      → Serves lay os m bytes asked (f (take n (drop at xs)))
      → Serves lay os m bytes asked (slice xs at n >>= f)
  slice-Serves xs at n f asked h g = done-Serves (slice xs at n) _ f asked (ground arith) g

  pub consume-Serves :
      (n : ℕ) (m' : Machine) (f : Machine → Outcome Machine) (asked : Asked)
      → n ≤ length m'.session.read_buffer
      → Serves lay os m bytes asked (f (rest_after n m'))
      → Serves lay os m bytes asked (consume_bytes_from_read_buffer n m' >>= f)
  consume-Serves n m' f asked h g = done-Serves _ _ f asked (consume-done n m' h) g
