-- ===== src/Socks/Safety/Pieces.antt =====
-- What the steps of the handshake share that read from the client (Session of src/server.cpp).
use modern_cpp_hw.Prelude.{
  ℕ, zero, suc, ◌+◌, ◌≤◌, ◌<◌, ◌≡◌, ◌∙◌, refl, ap, List, [], ◌∷◌, Option, some, Bool, true, false,
  not, length, inl, inr, arith, Bool-cases, u32, take, drop, get_elem?, if◌then◌else◌,
}
use modern_cpp_hw.Socks.Outcome.{Outcome, done, ◌>>=◌}
use modern_cpp_hw.Socks.Os.{Os}
use modern_cpp_hw.Socks.Session.{
  Session, State, reading_client_greeting, reading_auth_methods, reading_client_connection_request,
  reading_domain_name_length, reading_address, connecting_to_destination, proxying_requests,
  AddressType, ipv4, domain_name, ipv6, ReadGoal, at_least, is_read_completed,
}
use modern_cpp_hw.Socks.Events.{EventPool}
use modern_cpp_hw.Socks.Ring.{Machine, Request}
use modern_cpp_hw.Socks.Transfer.{
  with_session, byte_at, slice, consume_bytes_from_read_buffer, read_until, fail_immediately,
}
use modern_cpp_hw.Socks.Handlers.Depth.{rank}
use modern_cpp_hw.Socks.Safety.{Held}
use modern_cpp_hw.Socks.Safety.{
  debt, Goal, address_size, IsShort, IsKind, own, Ready, Resting, Rests, Goes, GoesFrom,
}
use modern_cpp_hw.Prelude.{IsBytes}
use modern_cpp_hw.Socks.Safety.Leaves.{ReplyIn, add_client_read_request-Goes, debt-le}
use modern_cpp_hw.Socks.Safety.Failing.{fail_immediately-Goes}

-- What the recursive call is known to do from states of at most this rank.
abbrev pub GoesBelow : List ℕ → ℕ → (Machine → Outcome Machine) → Type 0
GoesBelow busy d again =
    (m : Machine)
    → rank m.session.state ≤ d
    → Ready busy m
    → own m ≡ []
    → Rests m.session
    → Goal m.session
    → GoesFrom busy m (again m)

byte-some :
    (xs : List ℕ) (i : ℕ)
    → i < length xs
    → IsBytes xs
    → (b : ℕ) × (get_elem? xs i ≡ some b) × (b < 256)
byte-some [] i h k = elim h [ ]
byte-some (x ∷ xs) zero h k = (x, refl, k.0)
byte-some (x ∷ xs) (suc i) h k = byte-some xs i (omega arith) k.1

drop-IsBytes : (n : ℕ) (xs : List ℕ) → IsBytes xs → IsBytes (drop n xs)
drop-IsBytes zero xs h = h
drop-IsBytes (suc n) [] h = tt
drop-IsBytes (suc n) (x ∷ xs) h = drop-IsBytes n xs h.1

abbrev pub goal_set : ReadGoal → Machine → Machine
goal_set g m = with_session (λ s. record s { read_goal = g }) m

abbrev pub rest_after : ℕ → Machine → Machine
rest_after n m = with_session (λ s. record s { read_buffer = drop n s.read_buffer }) m

pub consume-done :
    (n : ℕ) (m : Machine)
    → n ≤ length m.session.read_buffer
    → consume_bytes_from_read_buffer n m ≡ done (rest_after n m)
unfolding consume_bytes_from_read_buffer
consume-done n m h = ground arith

pub read_until-Goes :
    (busy : List ℕ) (g : ReadGoal) (again : Machine → Outcome Machine) (d : ℕ) (m : Machine)
    → GoesBelow busy d again
    → rank m.session.state ≤ d
    → Ready busy m
    → own m ≡ []
    → Rests m.session
    → Goal (goal_set g m).session
    → GoesFrom busy m (read_until g again m)
unfolding read_until
read_until-Goes busy g again d m ih k h e r gl =
    elim (Bool-cases (is_read_completed g m.session.read_buffer)) [
      | inl full ↦ rw full (ih (goal_set g m) k h e r gl)
      | inr short ↦ rw short (add_client_read_request-Goes busy (goal_set g m) h e r gl)
    ]

module _ {busy : List ℕ} {p : ℕ} {e : EventPool} {qs : List Request} {free : Held} where
  pub if-Goes :
      (b : Bool) (x y : Outcome Machine)
      → (b ≡ true → Goes busy p e qs free x)
      → (b ≡ false → Goes busy p e qs free y)
      → Goes busy p e qs free (if b then x else y)
  if-Goes true x y hx hy = hx refl
  if-Goes false x y hx hy = hy refl

  pub unless-Goes :
      (b : Bool) (x y : Outcome Machine)
      → (b ≡ false → Goes busy p e qs free x)
      → (b ≡ true → Goes busy p e qs free y)
      → Goes busy p e qs free (if not b then x else y)
  unless-Goes true x y hx hy = hy refl
  unless-Goes false x y hx hy = hx refl

  pub done-Goes {ℓ} :
      {A : Type ℓ} (r : Outcome A) (a : A) (f : A → Outcome Machine)
      → r ≡ done a
      → Goes busy p e qs free (f a)
      → Goes busy p e qs free (r >>= f)
  done-Goes r a f h g = rw h g

  pub byte-Goes :
      (xs : List ℕ) (i : ℕ) (f : ℕ → Outcome Machine)
      → i < length xs
      → IsBytes xs
      → ((b : ℕ) → b < 256 → Goes busy p e qs free (f b))
      → Goes busy p e qs free (byte_at xs i >>= f)
  byte-Goes [] i f h k g = elim h [ ]
  byte-Goes (x ∷ xs) zero f h k g = g x k.0
  byte-Goes (x ∷ xs) (suc i) f h k g = byte-Goes xs i f (omega arith) k.1 g

  pub slice-Goes :
      (xs : List ℕ) (i n : ℕ) (f : List ℕ → Outcome Machine)
      → i + n ≤ length xs
      → ((ys : List ℕ) → Goes busy p e qs free (f ys))
      → Goes busy p e qs free (slice xs i n >>= f)
  slice-Goes xs i n f h g = done-Goes (slice xs i n) (take n (drop i xs)) f (ground arith) (g _)

  pub consume-Goes :
      (n : ℕ) (m : Machine) (f : Machine → Outcome Machine)
      → n ≤ length m.session.read_buffer
      → Goes busy p e qs free (f (rest_after n m))
      → Goes busy p e qs free (consume_bytes_from_read_buffer n m >>= f)
  consume-Goes n m f h g = done-Goes _ _ f (consume-done n m h) g

-- The session goes on to another state, and has used up `k` bytes.
pub rests_on :
    {n : ℕ} {st : State} {bytes : List ℕ} {fd : Option ℕ} (st' : State) (k : ℕ)
    → debt st ≡ debt st'
    → Resting n st bytes fd
    → Resting n st' (drop k bytes) fd
rests_on st' k d r = record {
  rest_counted = r.rest_counted ∙ d;
  rest_bytes = drop-IsBytes k _ r.rest_bytes;
  rest_fd = r.rest_fd;
}

pub fails-Goes :
    (busy : List ℕ) (os : Os) (m : Machine)
    → IsKind os
    → Ready busy m
    → own m ≡ []
    → Rests m.session
    → GoesFrom busy m (fail_immediately os m)
fails-Goes busy os m k h e r =
    fail_immediately-Goes busy os m k h r.rest_fd (omega (arith, r.rest_counted, ap length e))
      (omega (arith, r.rest_counted, debt-le m.session.state)) r.rest_bytes

pub reply_auth : (st : State) (s : Session) → st ≡ reading_auth_methods → ReplyIn st s
reply_auth reading_auth_methods s e = tt
reply_auth reading_client_greeting s e = cc
reply_auth reading_client_connection_request s e = cc
reply_auth reading_domain_name_length s e = cc
reply_auth reading_address s e = cc
reply_auth connecting_to_destination s e = cc
reply_auth proxying_requests s e = cc

pub domain_goal :
    (type : AddressType) (n : ℕ)
    → type ≡ domain_name
    → n < 256
    → (at_least (u32 (n + 2)) ≡ at_least (address_size type n)) × IsShort type n
domain_goal domain_name n e h = (ap at_least (omega arith), h)
domain_goal ipv4 n e h = cc
domain_goal ipv6 n e h = cc
