-- ===== src/Socks/Safety/Removed.antt =====
-- Lists of requests in flight, less one (src/server.cpp).
use modern_cpp_hw.Prelude.{suc, ◌≡◌, ◌∙◌, ap, sym, List, [], ◌∷◌, length, ◌⊎◌, inl, inr}
use modern_cpp_hw.Socks.Flight.{Flight}

-- `gs` is `fs` less one `f`.
abbrev pub Removed : Flight → List Flight → List Flight → Type 0
Removed f [] gs = ⊥
Removed f (x ∷ xs) gs =
    ((x ≡ f) × (gs ≡ xs)) ⊎ ((ys : List Flight) × (gs ≡ x ∷ ys) × Removed f xs ys)

pub Removed-length :
    (f : Flight) (fs gs : List Flight) → Removed f fs gs → length fs ≡ suc (length gs)
Removed-length f [] gs h = absurd h
Removed-length f (x ∷ xs) gs (inl (a, b)) = ap suc (ap length (sym b))
Removed-length f (x ∷ xs) gs (inr (ys, a, b)) =
    ap suc (Removed-length f xs ys b) ∙ ap suc (ap length (sym a))

pub Removed-one :
    (f x : Flight) (fs gs : List Flight) → fs ≡ x ∷ [] → Removed f fs gs → (x ≡ f) × (gs ≡ [])
Removed-one f x fs gs e h = only (rw e at h)
  where
    only : Removed f (x ∷ []) gs → (x ≡ f) × (gs ≡ [])
    only (inl p) = p
    only (inr (ys, a, b)) = absurd b

pub Removed-two :
    (f x y : Flight) (fs gs : List Flight)
    → fs ≡ x ∷ y ∷ []
    → Removed f fs gs
    → ((x ≡ f) × (gs ≡ y ∷ [])) ⊎ ((y ≡ f) × (gs ≡ x ∷ []))
Removed-two f x y fs gs e h = either (rw e at h)
  where
    either : Removed f (x ∷ y ∷ []) gs → ((x ≡ f) × (gs ≡ y ∷ [])) ⊎ ((y ≡ f) × (gs ≡ x ∷ []))
    either (inl p) = inl p
    either (inr (ys, a, inl (b, c))) = inr (b, a ∙ ap (λ l. x ∷ l) c)
    either (inr (ys, a, inr (zs, b, c))) = absurd c
