-- ===== src/Socks/Server/Store.antt =====
-- The store of sessions, and the requests that its sessions wait for in all.
use modern_cpp_hw.Prelude.{
  ℕ, suc, ◌+◌, ◌-◌, ◌*◌, ◌≤◌, ◌≡◌, ◌≢◌, ◌∙◌, refl, ap, List, [], ◌∷◌, Option, none, some, true,
  length, arith, ◌==◌, Bool-cases, inl, inr, if◌then◌else◌,
}
use modern_cpp_hw.Socks.Session.{Session}
use modern_cpp_hw.Socks.Safety.{debt}
use modern_cpp_hw.Socks.Server.{lookup, update, erase}

-- How many requests of a session are pending, by its own count.
abbrev pub expected : Session → ℕ
expected s = s.awaiting_events_count - debt s.state

abbrev pub total : List (ℕ × Session) → ℕ
total [] = 0
total ((q, s) ∷ rest) = expected s + total rest

-- Whether a session has the buffer `k`, and how many of them do.
abbrev pub holds : ℕ → Session → ℕ
holds k s = if s.buffer_index == k then 1 else 0

abbrev pub holders : ℕ → List (ℕ × Session) → ℕ
holders k [] = 0
holders k ((q, s) ∷ rest) = holds k s + holders k rest

abbrev pub Distinct : List (ℕ × Session) → Type 0
Distinct [] = Unit {0}
Distinct ((q, s) ∷ rest) = (lookup q rest ≡ none) × Distinct rest

pub lookup-update_self :
    (p : ℕ) (s t : Session) (l : List (ℕ × Session))
    → lookup p l ≡ some s
    → lookup p (update p t l) ≡ some t
unfolding lookup update
lookup-update_self p s t [] h = cc
lookup-update_self p s t ((q, u) ∷ rest) h = ground (arith, lookup-update_self p s t rest)

pub lookup-update_ne :
    (p q : ℕ) (t : Session) (l : List (ℕ × Session)) → q ≢ p → lookup q (update p t l) ≡ lookup q l
unfolding lookup update
lookup-update_ne p q t [] h = refl
lookup-update_ne p q t ((r, u) ∷ rest) h = ground (arith, lookup-update_ne p q t rest h)

pub length-update :
    (p : ℕ) (t : Session) (l : List (ℕ × Session)) → length (update p t l) ≡ length l
unfolding update
length-update p t [] = refl
length-update p t ((r, u) ∷ rest) = ground (arith, length-update p t rest)

pub total-update :
    (p : ℕ) (s t : Session) (l : List (ℕ × Session))
    → lookup p l ≡ some s
    → total (update p t l) + expected s ≡ total l + expected t
unfolding lookup update
total-update p s t [] h = cc
total-update p s t ((q, u) ∷ rest) h = ground (arith, total-update p s t rest)

pub holders-update :
    (k p : ℕ) (s t : Session) (l : List (ℕ × Session))
    → lookup p l ≡ some s
    → holders k (update p t l) + holds k s ≡ holders k l + holds k t
unfolding lookup update
holders-update k p s t [] h = cc
holders-update k p s t ((q, u) ∷ rest) h = ground (arith, holders-update k p s t rest)

pub holders-erase :
    (k p : ℕ) (s : Session) (l : List (ℕ × Session))
    → lookup p l ≡ some s
    → holders k (erase p l) + holds k s ≡ holders k l
unfolding lookup erase
holders-erase k p s [] h = cc
holders-erase k p s ((q, u) ∷ rest) h = ground (arith, holders-erase k p s rest)

pub lookup-update-none :
    (p q : ℕ) (t : Session) (l : List (ℕ × Session))
    → lookup q l ≡ none
    → lookup q (update p t l) ≡ none
unfolding lookup update
lookup-update-none p q t [] h = refl
lookup-update-none p q t ((r, u) ∷ rest) h = ground (arith, lookup-update-none p q t rest)

pub update-Distinct :
    (p : ℕ) (t : Session) (l : List (ℕ × Session)) → Distinct l → Distinct (update p t l)
unfolding update
update-Distinct p t [] h = tt
update-Distinct p t ((r, u) ∷ rest) h =
    ground (arith, update-Distinct p t rest h.1, lookup-update-none p r t rest h.0)

pub lookup-erase-none :
    (p q : ℕ) (l : List (ℕ × Session)) → lookup q l ≡ none → lookup q (erase p l) ≡ none
unfolding lookup erase
lookup-erase-none p q [] h = refl
lookup-erase-none p q ((r, u) ∷ rest) h = ground (arith, lookup-erase-none p q rest)

pub lookup-erase_self : (p : ℕ) (l : List (ℕ × Session)) → Distinct l → lookup p (erase p l) ≡ none
unfolding lookup erase
lookup-erase_self p [] h = refl
lookup-erase_self p ((r, u) ∷ rest) h = ground (arith, lookup-erase_self p rest h.1)

pub lookup-erase_ne : (p q : ℕ) (l : List (ℕ × Session)) → q ≢ p → lookup q (erase p l) ≡ lookup q l
unfolding lookup erase
lookup-erase_ne p q [] h = refl
lookup-erase_ne p q ((r, u) ∷ rest) h = ground (arith, lookup-erase_ne p q rest h)

pub erase-Distinct : (p : ℕ) (l : List (ℕ × Session)) → Distinct l → Distinct (erase p l)
unfolding erase
erase-Distinct p [] h = tt
erase-Distinct p ((r, u) ∷ rest) h =
    ground (arith, erase-Distinct p rest h.1, lookup-erase-none p r rest h.0)

pub length-erase :
    (p : ℕ) (s : Session) (l : List (ℕ × Session))
    → lookup p l ≡ some s
    → suc (length (erase p l)) ≡ length l
unfolding lookup erase
length-erase p s [] h = cc
length-erase p s ((q, u) ∷ rest) h = ground (arith, length-erase p s rest)

pub total-erase :
    (p : ℕ) (s : Session) (l : List (ℕ × Session))
    → lookup p l ≡ some s
    → total (erase p l) + expected s ≡ total l
unfolding lookup erase
total-erase p s [] h = cc
total-erase p s ((q, u) ∷ rest) h = ground (arith, total-erase p s rest)

lookup_head : (q : ℕ) (s : Session) (l : List (ℕ × Session)) → lookup q ((q, s) ∷ l) ≡ some s
unfolding lookup
lookup_head q s l = ground arith

lookup_tail :
    (p q : ℕ) (s t : Session) (l : List (ℕ × Session))
    → lookup q l ≡ none
    → lookup p l ≡ some t
    → lookup p ((q, s) ∷ l) ≡ some t
unfolding lookup
lookup_tail p q s t l n h = elim (Bool-cases (q == p)) [
  | inl y ↦ absurd (none-some (lookup q l) t n (ap (λ (x : ℕ). lookup x l) (same q p y) ∙ h))
  | inr y ↦ rw y h
]
  where
    same : (a b : ℕ) → (a == b) ≡ true → a ≡ b
    same a b e = ground arith

    none-some : (o : Option Session) (u : Session) → o ≡ none → o ≡ some u → ⊥
    none-some o u a b = cc

pub total-le :
    (l : List (ℕ × Session))
    → Distinct l
    → ((p : ℕ) (s : Session) → lookup p l ≡ some s → expected s ≤ 2)
    → total l ≤ 2 * length l
total-le [] d h = omega arith
total-le ((q, s) ∷ rest) d h = omega (
  arith,
  h q s (lookup_head q s rest),
  total-le rest d.1 (λ p t e. h p t (lookup_tail p q s t rest d.0 e)),
)
