-- ===== src/Gcfn/Chain.antt =====
-- The list that the links of the nodes form, and how unlinking a node changes it.
use lua_llsocket.Prelude.{
  ◌==◌, ◌≡◌, ◌≢◌, Bool, true, false, ◌||◌, List, [], ◌∷◌, if◌then◌else◌, arith,
}
use lua_llsocket.Host.{Ptr, null, Gcfn}
use lua_llsocket.Host.Consts.{noref}

abbrev pub has : Ptr → List Ptr → Bool
has a [] = false
has a (x ∷ xs) = (a == x) || has a xs

abbrev pub erase : Ptr → List Ptr → List Ptr
erase a [] = []
erase a (x ∷ xs) = if a == x then xs else x ∷ erase a xs

-- `p` heads the nodes `xs`, all distinct and not yet deleted; the first one's `prev` is `before`,
-- and every other one's is the node ahead of it.
abbrev pub Chain : (Ptr → Gcfn) → Ptr → Ptr → List Ptr → Type 0
Chain h before p [] = p ≡ null
Chain h before p (x ∷ xs) =
    (p ≡ x)
    × (x ≢ null)
    × ((h x).prev ≡ before)
    × ((h x).ref_self ≢ noref)
    × (has x xs ≡ false)
    × Chain h x (h x).next xs

-- A chain survives a change elsewhere.
pub frame :
    (h g : Ptr → Gcfn) (before p : Ptr) (xs : List Ptr)
    → ((a : Ptr) → has a xs ≡ true → g a ≡ h a)
    → Chain h before p xs
    → Chain g before p xs
frame h g before p [] same c = c
frame h g before p (x ∷ xs) same c =
    ground (arith, same x, frame h g x (h x).next xs (λ a i. ground (arith, same a)))
