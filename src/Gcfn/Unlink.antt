-- ===== src/Gcfn/Unlink.antt =====
-- The unlinking of a node in `lls_gcfn_del` of src/gcfn.c.
use lua_llsocket.Prelude.{
  ◌==◌, ◌≡◌, ◌≢◌, true, false, List, [], ◌∷◌, arith, Bool-cases, inl, inr, ◌⊎◌, ==_iff, subst, sym,
  refl,
}
use lua_llsocket.Host.{Ptr, null, Gcfn}
use lua_llsocket.Gcfn.{unlink_prev, unlink_next}
use lua_llsocket.Gcfn.Chain.{has, erase, Chain, frame}

-- Both writes of the unlinking.
abbrev pub unlinked : Ptr → (Ptr → Gcfn) → Ptr → Gcfn
unlinked p h = unlink_next p (unlink_prev p h)

not-has-null :
    (h : Ptr → Gcfn) (before p : Ptr) (xs : List Ptr) → Chain h before p xs → has null xs ≡ false
not-has-null h before p [] c = ground arith
not-has-null h before p (x ∷ xs) c = ground (arith, not-has-null h x (h x).next xs)

-- The node ahead of a member is `before` or a member.
prev-mem :
    (h : Ptr → Gcfn) (before p a : Ptr) (xs : List Ptr)
    → Chain h before p xs
    → has a xs ≡ true
    → has (h a).prev (before ∷ xs) ≡ true
prev-mem h before p a [] c m = ground arith
prev-mem h before p a (x ∷ xs) c m = ground (arith, prev-mem h x (h x).next a xs)

-- The node behind a member is a member, or there is none.
next-mem :
    (h : Ptr → Gcfn) (before p a : Ptr) (xs : List Ptr)
    → Chain h before p xs
    → has a xs ≡ true
    → ((h a).next ≡ null) ⊎ (has (h a).next xs ≡ true)
next-mem h before p a [] c m = ground arith
next-mem h before p a (x ∷ []) c m = ground arith
next-mem h before p a (x ∷ y ∷ xs) c m = ground (arith, next-mem h x (h x).next a (y ∷ xs))

-- A chain whose first node is given another node ahead of it.
rehead :
    (h g : Ptr → Gcfn) (before after n : Ptr) (xs : List Ptr)
    → Chain h before n xs
    → ((a : Ptr) → (a == n) ≡ false → has a xs ≡ true → g a ≡ h a)
    → (n ≢ null → g n ≡ record (h n) { prev = after })
    → Chain g after n xs
rehead h g before after n [] c same first = c
rehead h g before after n (x ∷ xs) c same first =
    ground (arith, first, frame h g x (h x).next xs (λ a i. ground (arith, same a)), same x)

-- Unlinking the first node.
head_ne :
    (h : Ptr → Gcfn) (before p x : Ptr) (xs : List Ptr)
    → Chain h before p xs
    → has x xs ≡ false
    → x ≢ null
    → (p == x) ≡ false
head_ne h before p x [] c out ne = ground arith
head_ne h before p x (y ∷ xs) c out ne = ground arith

pub unlinked-head :
    (h : Ptr → Gcfn) (p : Ptr) (xs : List Ptr)
    → Chain h null p (p ∷ xs)
    → Chain (unlinked p h) null (h p).next xs
unfolding unlink_prev unlink_next
unlinked-head h p xs c =
    rehead h (unlinked p h) p null (h p).next xs (ground arith) (λ a ne i. ground arith)
      (λ ne. ground arith)

-- Unlinking the second node.
unlinked_second :
    (h : Ptr → Gcfn) (before x y : Ptr) (ys : List Ptr)
    → Chain h before x (x ∷ y ∷ ys)
    → Chain (unlinked y h) before x (x ∷ ys)
unfolding unlink_prev unlink_next
unlinked_second h before x y ys c =
    let n = (h y).next in
    let apart : (n == x) ≡ false = ground (arith, head_ne h y n x ys) in
    ground (
      arith,
      rehead h (unlinked y h) y x n ys (ground arith) (λ a ne i. ground arith) (λ ne. ground arith),
    )

-- Nodes that are no neighbours of the one that is unlinked stay as they are.
unlinked_elsewhere :
    (h : Ptr → Gcfn) (p a : Ptr)
    → (a == (h p).prev) ≡ false
    → (a == (h p).next) ≡ false
    → unlinked p h a ≡ h a
unfolding unlink_prev unlink_next
unlinked_elsewhere h p a hp hn = ground arith

has-erase : (a p : Ptr) (xs : List Ptr) → has a xs ≡ false → has a (erase p xs) ≡ false
has-erase a p [] h = h
has-erase a p (x ∷ xs) h = ground (arith, has-erase a p xs)

-- The first node is no neighbour of one that stands behind the second.
unlinked_first :
    (h : Ptr → Gcfn) (before x y p : Ptr) (ys : List Ptr)
    → Chain h before x (x ∷ y ∷ ys)
    → has p ys ≡ true
    → unlinked p h x ≡ h x
unlinked_first h before x y p ys c m =
    unlinked_elsewhere h p x (ground (arith, prev-mem h y (h y).next p ys c.5.5 m))
      (ground (arith, next-mem h y (h y).next p ys c.5.5 m))

-- Unlinking a node behind the first one.
pub unlinked-tail :
    (h : Ptr → Gcfn) (before x p : Ptr) (xs : List Ptr)
    → Chain h before x (x ∷ xs)
    → has p xs ≡ true
    → Chain (unlinked p h) before x (x ∷ erase p xs)
unlinked-tail h before x p [] c m = ground arith
unlinked-tail h before x p (y ∷ ys) c m = elim (Bool-cases (p == y)) [
  | inl here ↦ rw here (
      subst (λ q. Chain (unlinked q h) before x (x ∷ ys)) (sym ((==_iff p y).0 here))
        (unlinked_second h before x y ys c))
  | inr there ↦
      let rest : Chain h x y (y ∷ ys) = (refl, c.5.1, c.5.2, c.5.3, c.5.4, c.5.5) in
      let behind : has p ys ≡ true = ground arith in
      ground (
        arith,
        unlinked_first h before x y p ys c behind,
        has-erase x p ys,
        unlinked-tail h x y p ys rest behind,
      )
]

-- Unlinking writes links only.
pub unlinked-refs :
    (h : Ptr → Gcfn) (p a : Ptr)
    → ((unlinked p h a).ref_fn ≡ (h a).ref_fn) × ((unlinked p h a).ref_self ≡ (h a).ref_self)
unfolding unlink_prev unlink_next
unlinked-refs h p a = ground arith
