-- ===== src/Socks/Accepts.antt =====
-- hw2-socks5-server: the accept requests that are pending (IoUring::add_client_accept_request of
-- src/server.cpp): they are those with no event.
pub mod Sessions
pub mod Handlers
pub mod Dispatch
pub mod Loop
pub mod Rounds
pub mod Runs
mod Tests
use modern_cpp_hw.Prelude.{
  ℕ, zero, suc, ◌≡◌, refl, sym, ap, Bool, true, false, if◌then◌else◌, List, [], ◌∷◌, Option, none,
  some,
}
use modern_cpp_hw.Socks.Outcome.{Outcome, done, ◌>>=◌, bind-eq-done}
use modern_cpp_hw.Socks.Ring.{Request, Machine}

abbrev pub count_accept : Option ℕ → ℕ → ℕ
count_accept none n = suc n
count_accept (some i) n = n

abbrev pub accepts : List Request → ℕ
accepts [] = 0
accepts (q ∷ qs) = count_accept q.user_data (accepts qs)

abbrev pub HasAccepts : ℕ → Machine → Type 0
HasAccepts a m = accepts m.server.pending ≡ a

-- Where the function returns, this many accepts are pending.
abbrev pub Leaves : ℕ → Outcome Machine → Type 0
Leaves a r = (m : Machine) → r ≡ done m → HasAccepts a m

pub done-Leaves : (a : ℕ) (m : Machine) → HasAccepts a m → Leaves a (done m)
done-Leaves a m h m' e = rw (sym (ap (of_done m) e)) h
  where
    of_done : Machine → Outcome Machine → Machine
    of_done n (done x) = x
    of_done n _ = n

pub bind-Leaves {ℓ} :
    {A : Type ℓ} (a : ℕ) (r : Outcome A) (f : A → Outcome Machine)
    → ((x : A) → r ≡ done x → Leaves a (f x))
    → Leaves a (r >>= f)
bind-Leaves a r f h m e = let (x, d, e') = bind-eq-done r f e in h x d m e'

pub chain-Leaves :
    (a : ℕ) (r : Outcome Machine) (f : Machine → Outcome Machine)
    → Leaves a r
    → ((m : Machine) → HasAccepts a m → Leaves a (f m))
    → Leaves a (r >>= f)
chain-Leaves a r f h k = bind-Leaves a r f (λ m d. k m (h m d))

pub if-Leaves :
    (a : ℕ) (c : Bool) (x y : Outcome Machine)
    → Leaves a x
    → Leaves a y
    → Leaves a (if c then x else y)
if-Leaves a true x y h k = h
if-Leaves a false x y h k = k
