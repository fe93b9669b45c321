-- ===== src/Cmsghdrs/Buffer.antt =====
-- Writing into a buffer.
use lua_llsocket.Prelude.{
  ℕ, ◌+◌, ◌≤◌, ◌≡◌, refl, List, ◌++◌, length, take, drop, length-append, length-take, length-drop,
  take-append_more, drop-append_more, append_assoc, ap, ◌∙◌, subst, arith,
}
use lua_llsocket.Cmsghdrs.{overwrite}

-- Both writes of a message, behind `pre` and over `old`.
two_writes :
    (h g b p : ℕ) (pre enc bs X : List ℕ)
    → length enc ≡ h
    → length bs ≡ b
    → overwrite (length pre + (h + g)) bs (pre ++ (enc ++ X))
      ≡ (pre ++ (enc ++ take g X)) ++ (bs ++ drop (g + b) X)
unfolding overwrite
two_writes h g b p pre enc bs X eh eb =
    rw
      (
        take-append_more pre (enc ++ X) (length pre + (h + g)) (h + g) refl,
        take-append_more enc X (h + g) g (omega arith),
        drop-append_more pre (enc ++ X) (length pre + (h + g) + length bs) (h + g + b)
            (omega arith),
        drop-append_more enc X (h + g + b) (g + b) (omega arith),
      )
      refl

-- What the first bytes are then.
front :
    (h g b p : ℕ) (pre enc bs X : List ℕ)
    → length enc ≡ h
    → length bs ≡ b
    → g ≤ length X
    → take (length pre + (h + g + b + p)) ((pre ++ (enc ++ take g X)) ++ (bs ++ drop (g + b) X))
      ≡ pre ++ (enc ++ (take g X ++ (bs ++ take p (drop (g + b) X))))
front h g b p pre enc bs X eh eb l =
    rw
      (
        take-append_more (pre ++ (enc ++ take g X)) (bs ++ drop (g + b) X)
            (length pre + (h + g + b + p)) (b + p)
            (omega (
              arith,
              length-append pre (enc ++ take g X),
              length-append enc (take g X),
              length-take g X l,
            )),
        take-append_more bs (drop (g + b) X) (b + p) p (omega arith),
      )
      (append_assoc pre (enc ++ take g X) (bs ++ take p (drop (g + b) X))
        ∙ ap (λ r. pre ++ r) (append_assoc enc (take g X) (bs ++ take p (drop (g + b) X))))

overwrite-at :
    (D enc : List ℕ) (n h : ℕ)
    → length enc ≡ h
    → overwrite n enc D ≡ take n D ++ (enc ++ drop (n + h) D)
unfolding overwrite
overwrite-at D enc n h eh = rw eh refl

-- The message that is written behind the first `n` bytes of a buffer with room for it.
pub data-written :
    (D enc bs : List ℕ) (n h g b p : ℕ)
    → n + (h + g + b + p) ≤ length D
    → length enc ≡ h
    → length bs ≡ b
    → take (n + (h + g + b + p)) (overwrite (n + (h + g)) bs (overwrite n enc D))
      ≡ take n D
        ++ (enc ++ (take g (drop (n + h) D) ++ (bs ++ take p (drop (g + b) (drop (n + h) D)))))
data-written D enc bs n h g b p room eh eb =
    let X = drop (n + h) D in
    let P = take n D in
    let lp : length P ≡ n = length-take n D (omega arith) in
    let inner : overwrite n enc D ≡ P ++ (enc ++ X) = overwrite-at D enc n h eh in
    subst
      (λ m.
        take (m + (h + g + b + p)) (overwrite (m + (h + g)) bs (overwrite n enc D))
        ≡ P ++ (enc ++ (take g X ++ (bs ++ take p (drop (g + b) X)))))
      lp
      (rw inner (
        ap (take (length P + (h + g + b + p))) (two_writes h g b p P enc bs X eh eb)
        ∙ front h g b p P enc bs X eh eb (omega (arith, length-drop (n + h) D))))

pub length-overwrite :
    (off : ℕ) (new old : List ℕ)
    → off + length new ≤ length old
    → length (overwrite off new old) ≡ length old
unfolding overwrite
length-overwrite off new old h = omega (
  arith,
  length-append (take off old) (new ++ drop (off + length new) old),
  length-append new (drop (off + length new) old),
  length-take off old (omega arith),
  length-drop (off + length new) old,
)
