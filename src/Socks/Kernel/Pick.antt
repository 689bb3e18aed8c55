-- ===== src/Socks/Kernel/Pick.antt =====
-- What the pending requests are once one of them has been picked.
use modern_cpp_hw.Prelude.{
  ℕ, zero, suc, ◌≡◌, ◌≢◌, refl, ap, List, [], ◌∷◌, Option, none, some, Bool, true, false, ◌==◌,
  if◌then◌else◌, length, get_elem?, arith, Option-cases, inl, inr,
}
use modern_cpp_hw.Socks.Events.{Event}
use modern_cpp_hw.Socks.Ring.{Request}
use modern_cpp_hw.Socks.Flight.{
  Flight, size_of, id_of, ids, in_flight, flight_of, flight_of_event, occurrences,
}
use modern_cpp_hw.Socks.Safety.Removed.{Removed}
use modern_cpp_hw.Socks.Kernel.{pick}

-- `q` and the others.
pub data Picked (q : Request) : List Request → List Request → Type 0 where
  here : (qs : List Request) → Picked q qs (q ∷ qs)
  there : (r : Request) {rest qs : List Request} → Picked q rest qs → Picked q (r ∷ rest) (r ∷ qs)

abbrev chosen : Request → List Request → Option (Request × List Request)
chosen q rest = some (q, rest)

chosen_request : (q r : Request) (qs rs : List Request) → chosen q qs ≡ chosen r rs → q ≡ r
chosen_request q r qs rs e = cc

chosen_rest : (q r : Request) (qs rs : List Request) → chosen q qs ≡ chosen r rs → qs ≡ rs
chosen_rest q r qs rs e = cc

nothing_chosen : (q : Request) (qs : List Request) → none ≡ chosen q qs → ⊥
nothing_chosen q qs e = cc

pub pick-Picked :
    (i : ℕ) (qs : List Request) (q : Request) (rest : List Request)
    → pick i qs ≡ some (q, rest)
    → Picked q rest qs
unfolding pick
pick-Picked i [] q rest e = absurd (nothing_chosen q rest e)
pick-Picked zero (r ∷ rs) q rest e =
    rw (chosen_request r q rs rest e, chosen_rest r q rs rest e) (here rest)
pick-Picked (suc i) (r ∷ rs) q rest e = elim (Option-cases (pick i rs)) [
  | inl n ↦ absurd (nothing_chosen q rest (rw n at e))
  | inr ((p, ps), s) ↦ later p ps (pick-Picked i rs p ps s) (rw s at e)
]
  where
    later :
        (p : Request) (ps : List Request)
        → Picked p ps rs
        → chosen p (r ∷ ps) ≡ chosen q rest
        → Picked q rest (r ∷ rs)
    later p ps s e =
        rw (← chosen_rest p q (r ∷ ps) rest e, ← chosen_request p q (r ∷ ps) rest e) (there r s)

add_one :
    (i j : ℕ) (k : Option ℕ) (xs ys : List ℕ)
    → occurrences j xs ≡ occurrences j (i ∷ ys)
    → occurrences j (id_of k xs) ≡ occurrences j (i ∷ id_of k ys)
add_one i j none xs ys e = e
add_one i j (some x) xs ys e = omega (arith, e)

add_length :
    (k : Option ℕ) (xs ys : List ℕ)
    → length xs ≡ suc (length ys)
    → length (id_of k xs) ≡ suc (length (id_of k ys))
add_length none xs ys e = e
add_length (some x) xs ys e = ap suc e

module _ (q : Request) (i : ℕ) (mine : q.user_data ≡ some i) where
  pub Picked-occurrences :
      (j : ℕ) {rest qs : List Request}
      → Picked q rest qs
      → occurrences j (ids qs) ≡ occurrences j (i ∷ ids rest)
  Picked-occurrences j (here qs) = ap (λ o. occurrences j (id_of o (ids qs))) mine
  Picked-occurrences j (there r {rest} {qs} p) =
      add_one i j r.user_data (ids qs) (ids rest) (Picked-occurrences j p)

  pub Picked-length :
      {rest qs : List Request} → Picked q rest qs → length (ids qs) ≡ suc (length (ids rest))
  Picked-length (here qs) = ap (λ o. length (id_of o (ids qs))) mine
  Picked-length (there r {rest} {qs} p) =
      add_length r.user_data (ids qs) (ids rest) (Picked-length p)

  module _ (events : List Event) (e : Event) (is : get_elem? events i ≡ some e) where
    pub Picked-own :
        {rest qs : List Request}
        → Picked q rest qs
        → Removed
            (record { type = e.type; size = size_of q.sqe })
            (in_flight e.client events qs)
            (in_flight e.client events rest)
    Picked-own (here qs) = first qs
      where
        same : (n : ℕ) → (n == n) ≡ true
        same n = ground arith

        first :
            (qs : List Request)
            → Removed
                (record { type = e.type; size = size_of q.sqe })
                (flight_of e.client
                  (size_of q.sqe)
                  events
                  q.user_data
                  (in_flight e.client events qs))
                (in_flight e.client events qs)
        first qs = rw (mine, is, same e.client) (inl (refl, refl))
    Picked-own (there r {rest} {qs} p) =
        later r.user_data (in_flight e.client events qs) (in_flight e.client events rest)
          (Picked-own p)
      where
        keep :
            (b : Bool) (x : Flight) (fs gs : List Flight)
            → Removed (record { type = e.type; size = size_of q.sqe }) fs gs
            → Removed
                (record { type = e.type; size = size_of q.sqe })
                (if b then x ∷ fs else fs)
                (if b then x ∷ gs else gs)
        keep true x fs gs h = inr (gs, refl, h)
        keep false x fs gs h = h

        event :
            (o : Option Event) (fs gs : List Flight)
            → Removed (record { type = e.type; size = size_of q.sqe }) fs gs
            → Removed
                (record { type = e.type; size = size_of q.sqe })
                (flight_of_event e.client (size_of r.sqe) o fs)
                (flight_of_event e.client (size_of r.sqe) o gs)
        event none fs gs h = h
        event (some v) fs gs h = keep (v.client == e.client) _ fs gs h

        later :
            (o : Option ℕ) (fs gs : List Flight)
            → Removed (record { type = e.type; size = size_of q.sqe }) fs gs
            → Removed
                (record { type = e.type; size = size_of q.sqe })
                (flight_of e.client (size_of r.sqe) events o fs)
                (flight_of e.client (size_of r.sqe) events o gs)
        later none fs gs h = h
        later (some j) fs gs h = event (get_elem? events j) fs gs h

    pub Picked-others :
        (c : ℕ) {rest qs : List Request}
        → c ≢ e.client
        → Picked q rest qs
        → in_flight c events qs ≡ in_flight c events rest
    Picked-others c ne (here qs) = rw (mine, is, differ e.client c ne) refl
      where
        differ : (a b : ℕ) → b ≢ a → (a == b) ≡ false
        differ a b h = ground arith
    Picked-others c ne (there r {rest} {qs} p) =
        ap (flight_of c (size_of r.sqe) events r.user_data) (Picked-others c ne p)

-- An accept is in flight for no session.
module _ (q : Request) (accepts : q.user_data ≡ none) where
  pub accepted_ids : {rest qs : List Request} → Picked q rest qs → ids qs ≡ ids rest
  accepted_ids (here qs) = ap (λ o. id_of o (ids qs)) accepts
  accepted_ids (there r p) = ap (id_of r.user_data) (accepted_ids p)

  pub accepted_flights :
      (c : ℕ) (events : List Event) {rest qs : List Request}
      → Picked q rest qs
      → in_flight c events qs ≡ in_flight c events rest
  accepted_flights c events (here qs) =
      ap (λ o. flight_of c (size_of q.sqe) events o (in_flight c events qs)) accepts
  accepted_flights c events (there r {rest} {qs} p) =
      ap (flight_of c (size_of r.sqe) events r.user_data) (accepted_flights c events p)
