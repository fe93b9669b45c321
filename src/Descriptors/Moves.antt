-- ===== src/Descriptors/Moves.antt =====
-- The moves of a view, and the invariant that they keep.
use lua_llsocket.Prelude.{
  suc, ◌+◌, ◌≤◌, ◌==◌, ◌≡◌, refl, Bool, true, false, not, ◌&&◌, ◌||◌, Option, none, some, ltb,
  if◌then◌else◌, arith, Bool-cases, inl, inr, ap, sym, ◌∙◌,
}
use lua_llsocket.Prelude.Int.{ℤ, ◌==ℤ◌, ==ℤ_iff}
use lua_llsocket.Host.{Ptr}
use lua_llsocket.Descriptors.{View}

-- Nothing that matters has changed.
pub record Keeps (v w : View) : Type 0 where
  pub same_os : w.os ≡ v.os
  pub own : (p : Ptr) → w.own p ≡ v.own p
  pub open_fd : (f : ℤ) → w.open_fd f ≡ v.open_fd f
  pub next : v.next ≤ w.next
  pub stray : w.stray ≡ v.stray

-- The new socket at `p` owns `fd`, which was shut.
pub record Opens (p : Ptr) (fd : ℤ) (v w : View) : Type 0 where
  pub same_os : w.os ≡ v.os
  pub is_new : v.next ≤ p
  pub was_shut : v.open_fd fd ≡ false
  pub own : (q : Ptr) → w.own q ≡ (if q == p then some fd else v.own q)
  pub open_fd : (f : ℤ) → w.open_fd f ≡ ((fd ==ℤ f) || v.open_fd f)
  pub next : suc p ≤ w.next
  pub stray : w.stray ≡ v.stray

-- The socket at `p` gives its descriptor up, which stays open.
pub record Leaves (p : Ptr) (v w : View) : Type 0 where
  pub same_os : w.os ≡ v.os
  pub own : (q : Ptr) → w.own q ≡ (if q == p then none else v.own q)
  pub open_fd : (f : ℤ) → w.open_fd f ≡ v.open_fd f
  pub next : v.next ≤ w.next
  pub stray : w.stray ≡ v.stray

-- The socket at `p` gives up its descriptor `fd`, which is closed.
pub record Closes (p : Ptr) (fd : ℤ) (v w : View) : Type 0 where
  pub same_os : w.os ≡ v.os
  pub owned : v.own p ≡ some fd
  pub own : (q : Ptr) → w.own q ≡ (if q == p then none else v.own q)
  pub open_fd : (f : ℤ) → w.open_fd f ≡ (not (fd ==ℤ f) && v.open_fd f)
  pub next : v.next ≤ w.next
  pub stray : w.stray ≡ (if v.open_fd fd then 0 else 1) + v.stray

pub data Move (v w : View) : Type 0 where
  keeps : Keeps v w → Move v w
  opens : (p : Ptr) (fd : ℤ) → Opens p fd v w → Move v w
  leaves : (p : Ptr) → Leaves p v w → Move v w
  closes : (p : Ptr) (fd : ℤ) → Closes p fd v w → Move v w

-- The descriptor, if there is one, is open.
abbrev pub is_live : (ℤ → Bool) → Option ℤ → Bool
is_live open_fd none = true
is_live open_fd (some fd) = open_fd fd

-- The descriptors, if both are there, differ.
abbrev pub apart : Option ℤ → Option ℤ → Bool
apart none b = true
apart (some a) none = true
apart (some a) (some b) = not (a ==ℤ b)

abbrev pub is_free : Option ℤ → Bool
is_free none = true
is_free (some fd) = false

-- Every descriptor that a socket owns is open, no two sockets own the same one, addresses that have
-- not been allocated own none, and every descriptor that was closed was open.
pub record Inv (v : View) : Type 0 where
  pub live : (p : Ptr) → is_live v.open_fd (v.own p) ≡ true
  pub distinct : (p q : Ptr) → ((p == q) || apart (v.own p) (v.own q)) ≡ true
  pub allocated : (p : Ptr) → (ltb p v.next || is_free (v.own p)) ≡ true
  pub no_stray : v.stray ≡ 0

-- An owner's descriptor is not that of another.
apart_live :
    (open_fd : ℤ → Bool) (fd : ℤ) (o : Option ℤ)
    → open_fd fd ≡ false
    → is_live open_fd o ≡ true
    → apart (some fd) o ≡ true
apart_live open_fd fd none s l = refl
apart_live open_fd fd (some f) s l = elim (Bool-cases (fd ==ℤ f)) [
  | inl e ↦ let e' = (==ℤ_iff fd f).0 e in cc
  | inr e ↦ rw e refl
]

==ℤ_sym : (a b : ℤ) → (a ==ℤ b) ≡ (b ==ℤ a)
==ℤ_sym (ℤ.pos a) (ℤ.pos b) = ground arith
==ℤ_sym (ℤ.pos a) (ℤ.negsuc b) = refl
==ℤ_sym (ℤ.negsuc a) (ℤ.pos b) = refl
==ℤ_sym (ℤ.negsuc a) (ℤ.negsuc b) = ground arith

apart_sym : (a b : Option ℤ) → apart a b ≡ apart b a
apart_sym none none = refl
apart_sym none (some b) = refl
apart_sym (some a) none = refl
apart_sym (some a) (some b) = ap not (==ℤ_sym a b)

apart-none : (a : Option ℤ) → apart a none ≡ true
apart-none none = refl
apart-none (some a) = refl

-- A set that agrees with one where the descriptor is open.
is_live-eq :
    (g h : ℤ → Bool) (o : Option ℤ)
    → ((f : ℤ) → g f ≡ h f)
    → is_live h o ≡ true
    → is_live g o ≡ true
is_live-eq g h none e l = refl
is_live-eq g h (some fd) e l = e fd ∙ l

-- One more descriptor, and one less.
is_live-or :
    (g h : ℤ → Bool) (fd : ℤ) (o : Option ℤ)
    → ((f : ℤ) → g f ≡ ((fd ==ℤ f) || h f))
    → is_live h o ≡ true
    → is_live g o ≡ true
is_live-or g h fd none e l = refl
is_live-or g h fd (some f) e l = ground (arith, e f)

is_live-less :
    (g h : ℤ → Bool) (fd : ℤ) (o : Option ℤ)
    → ((f : ℤ) → g f ≡ (not (fd ==ℤ f) && h f))
    → apart (some fd) o ≡ true
    → is_live h o ≡ true
    → is_live g o ≡ true
is_live-less g h fd none e a l = refl
is_live-less g h fd (some f) e a l = ground (arith, e f)

Keeps-Inv : {v w : View} → Keeps v w → Inv v → Inv w
Keeps-Inv {v} {w} k i = record {
  live = λ p. rw (k.own p) (is_live-eq w.open_fd v.open_fd (v.own p) k.open_fd (i.live p));
  distinct = λ p q. rw (k.own p, k.own q) (i.distinct p q);
  allocated = λ p. rw (k.own p) (ground (arith, i.allocated p, k.next));
  no_stray = k.stray ∙ i.no_stray;
}

Opens-Inv : {v w : View} (p : Ptr) (fd : ℤ) → Opens p fd v w → Inv v → Inv w
Opens-Inv {v} {w} p fd k i = record {
  live = λ q. elim (Bool-cases (q == p)) [
    | inl e ↦ rw (k.own q, e) (ground (arith, k.open_fd fd, ==ℤ_iff fd fd))
    | inr e ↦ rw (k.own q, e) (is_live-or w.open_fd v.open_fd fd (v.own q) k.open_fd (i.live q))
  ];
  distinct = λ q r. elim (Bool-cases (q == p)) [
    | inl e ↦ elim (Bool-cases (r == p)) [
      | inl e' ↦ ground arith
      | inr e' ↦
          rw (k.own q, k.own r, e, e')
            (ground (arith, apart_live v.open_fd fd (v.own r) k.was_shut (i.live r)))
    ]
    | inr e ↦ elim (Bool-cases (r == p)) [
      | inl e' ↦
          rw (k.own q, k.own r, e, e')
            (ground (
              arith,
              apart_live v.open_fd fd (v.own q) k.was_shut (i.live q),
              apart_sym (v.own q) (some fd),
            ))
      | inr e' ↦ rw (k.own q, k.own r, e, e') (i.distinct q r)
    ]
  ];
  allocated = λ q. elim (Bool-cases (q == p)) [
    | inl e ↦ rw (k.own q, e) (ground (arith, k.next))
    | inr e ↦ rw (k.own q, e) (ground (arith, i.allocated q, k.next, k.is_new))
  ];
  no_stray = k.stray ∙ i.no_stray;
}

-- A socket that owns nothing any more keeps the others apart.
distinct-none :
    (p : Ptr) (v w : View)
    → ((q : Ptr) → w.own q ≡ (if q == p then none else v.own q))
    → Inv v
    → (q r : Ptr) → ((q == r) || apart (w.own q) (w.own r)) ≡ true
distinct-none p v w own i q r = elim (Bool-cases (q == p)) [
  | inl e ↦ rw (own q, e) (ground arith)
  | inr e ↦ elim (Bool-cases (r == p)) [
    | inl e' ↦ rw (own q, own r, e, e') (ground (arith, apart-none (v.own q)))
    | inr e' ↦ rw (own q, own r, e, e') (i.distinct q r)
  ]
]

allocated-none :
    (p : Ptr) (v w : View)
    → ((q : Ptr) → w.own q ≡ (if q == p then none else v.own q))
    → v.next ≤ w.next
    → Inv v
    → (q : Ptr) → (ltb q w.next || is_free (w.own q)) ≡ true
allocated-none p v w own n i q = elim (Bool-cases (q == p)) [
  | inl e ↦ rw (own q, e) (ground arith)
  | inr e ↦ rw (own q, e) (ground (arith, i.allocated q))
]

Leaves-Inv : {v w : View} (p : Ptr) → Leaves p v w → Inv v → Inv w
Leaves-Inv {v} {w} p k i = record {
  live = λ q. elim (Bool-cases (q == p)) [
    | inl e ↦ rw (k.own q, e) refl
    | inr e ↦ rw (k.own q, e) (is_live-eq w.open_fd v.open_fd (v.own q) k.open_fd (i.live q))
  ];
  distinct = distinct-none p v w k.own i;
  allocated = allocated-none p v w k.own k.next i;
  no_stray = k.stray ∙ i.no_stray;
}

Closes-Inv : {v w : View} (p : Ptr) (fd : ℤ) → Closes p fd v w → Inv v → Inv w
Closes-Inv {v} {w} p fd k i = record {
  live = λ q. elim (Bool-cases (q == p)) [
    | inl e ↦ rw (k.own q, e) refl
    | inr e ↦
        rw (k.own q, e)
          (is_live-less w.open_fd v.open_fd fd (v.own q) k.open_fd
            (let d = i.distinct p q in
              let o = k.owned in ground (arith, ap (λ a. apart a (v.own q)) k.owned))
            (i.live q))
  ];
  distinct = distinct-none p v w k.own i;
  allocated = allocated-none p v w k.own k.next i;
  no_stray =
      let l : v.open_fd fd ≡ true = ap (is_live v.open_fd) (sym k.owned) ∙ i.live p in
      ground (arith, k.stray, i.no_stray);
}

-- Every move keeps the invariant.
pub Move-Inv : {v w : View} → Move v w → Inv v → Inv w
Move-Inv (keeps k) i = Keeps-Inv k i
Move-Inv (opens p fd k) i = Opens-Inv p fd k i
Move-Inv (leaves p k) i = Leaves-Inv p k i
Move-Inv (closes p fd k) i = Closes-Inv p fd k i

pub Move-os : {v w : View} → Move v w → w.os ≡ v.os
Move-os (keeps k) = k.same_os
Move-os (opens p fd k) = k.same_os
Move-os (leaves p k) = k.same_os
Move-os (closes p fd k) = k.same_os
