-- ===== src/Resp/Sweeper/Sorting.antt =====
-- A sweep sorts the entries into those that it keeps, forgets and closes.
use tellstone.Prelude.{
  ℕ, zero, suc, ◌+◌, ◌≤◌, ◌≡◌, refl, ap, ◌∙◌, Bool, Bool-cases, inl, inr, List, [], ◌∷◌, ◌++◌,
  length, if◌then◌else◌, map, arith,
}
use tellstone.Resp.Sweeper.{
  Pending, last_of, init_of, swap_delete, is_early, is_overdue, sweep_loop, sweep,
}

module _ {A : Type 0} where
  -- The sum of a weight over a list. Lists with equal sums for every weight have the same entries,
  -- each as often.
  abbrev pub sum : (A → ℕ) → List A → ℕ
  sum w [] = 0
  sum w (x ∷ xs) = w x + sum w xs

  abbrev pub filter : (A → Bool) → List A → List A
  filter keep [] = []
  filter keep (x ∷ xs) = if keep x then x ∷ filter keep xs else filter keep xs

  sum-append : (w : A → ℕ) (xs ys : List A) → sum w (xs ++ ys) ≡ sum w xs + sum w ys
  sum-append w [] ys = omega arith
  sum-append w (x ∷ xs) ys = omega (arith, sum-append w xs ys)

  abbrev masked : (A → Bool) → (A → ℕ) → A → ℕ
  masked keep w x = if keep x then w x else 0

  sum-filter :
      (keep : A → Bool) (w : A → ℕ) (xs : List A) → sum w (filter keep xs) ≡ sum (masked keep w) xs
  sum-filter keep w [] = refl
  sum-filter keep w (x ∷ xs) = ground (arith, sum-filter keep w xs)

sum-last_of :
    (w : Pending → ℕ) (q : Pending) (ps : List Pending)
    → w (last_of q ps) + sum w (init_of q ps) ≡ w q + sum w ps
sum-last_of w q [] = refl
sum-last_of w q (p ∷ ps) = omega (arith, sum-last_of w p ps)

sum-swap_delete :
    (w : Pending → ℕ) (p : Pending) (ps : List Pending) → sum w (swap_delete (p ∷ ps)) ≡ sum w ps
unfolding swap_delete
sum-swap_delete w p [] = refl
sum-swap_delete w p (q ∷ ps) = sum-last_of w q ps

length-swap_delete : (p : Pending) (ps : List Pending) → length (swap_delete (p ∷ ps)) ≡ length ps
unfolding swap_delete
length-swap_delete p [] = refl
length-swap_delete p (q ∷ ps) = go q ps
  where
    go : (q : Pending) (ps : List Pending) → suc (length (init_of q ps)) ≡ suc (length ps)
    go q [] = refl
    go q (p ∷ ps) = ap suc (go p ps)

module _ (now : ℕ) where
  left_lem :
      (w : Pending → ℕ) (n : ℕ) (front rest : List Pending) (closed : List ℕ)
      → length rest ≤ n
      → sum w (sweep_loop n now front rest closed).0
        ≡ sum w front + sum (masked (is_early now) w) rest
  unfolding sweep_loop
  left_lem w zero front [] closed h = omega (arith, sum-append w front [])
  left_lem w zero front (p ∷ ps) closed h = absurd (omega arith)
  left_lem w (suc n) front [] closed h = omega arith
  left_lem w (suc n) front (p ∷ ps) closed h = elim (Bool-cases (is_early now p)) [
    | inl early ↦
        left_lem w n (if is_early now p then front ++ p ∷ [] else front)
          (if is_early now p then ps else swap_delete (p ∷ ps))
          (if is_overdue now p then closed ++ p.conn ∷ [] else closed) (ground arith)
        ∙ ground (arith, sum-append w front (p ∷ []))
    | inr late ↦
        left_lem w n (if is_early now p then front ++ p ∷ [] else front)
          (if is_early now p then ps else swap_delete (p ∷ ps))
          (if is_overdue now p then closed ++ p.conn ∷ [] else closed)
          (ground (arith, length-swap_delete p ps))
        ∙ ground (arith, sum-swap_delete (masked (is_early now) w) p ps)
  ]

  closed_lem :
      (u : ℕ → ℕ) (n : ℕ) (front rest : List Pending) (closed : List ℕ)
      → length rest ≤ n
      → sum u (sweep_loop n now front rest closed).1
        ≡ sum u closed + sum (masked (is_overdue now) (λ p. u p.conn)) rest
  unfolding sweep_loop
  closed_lem u zero front [] closed h = omega arith
  closed_lem u zero front (p ∷ ps) closed h = absurd (omega arith)
  closed_lem u (suc n) front [] closed h = omega arith
  closed_lem u (suc n) front (p ∷ ps) closed h = elim (Bool-cases (is_early now p)) [
    | inl early ↦
        closed_lem u n (if is_early now p then front ++ p ∷ [] else front)
          (if is_early now p then ps else swap_delete (p ∷ ps))
          (if is_overdue now p then closed ++ p.conn ∷ [] else closed) (ground arith)
        ∙ ground (arith, sum-append u closed (p.conn ∷ []))
    | inr late ↦
        closed_lem u n (if is_early now p then front ++ p ∷ [] else front)
          (if is_early now p then ps else swap_delete (p ∷ ps))
          (if is_overdue now p then closed ++ p.conn ∷ [] else closed)
          (ground (arith, length-swap_delete p ps))
        ∙ ground (
          arith,
          sum-append u closed (p.conn ∷ []),
          sum-swap_delete (masked (is_overdue now) (λ p. u p.conn)) p ps,
        )
  ]

  sum-map : (u : ℕ → ℕ) (ps : List Pending) → sum u (map (λ p. p.conn) ps) ≡ sum (λ p. u p.conn) ps
  sum-map u [] = refl
  sum-map u (p ∷ ps) = omega (arith, sum-map u ps)

  -- A sweep keeps, each as often as it was there and in whatever order, exactly the entries that are
  -- neither finished nor complete and whose deadline is ahead, and closes, each as often, exactly
  -- the connections of those that are neither finished nor complete and whose deadline is not.
  pub sweep-filter :
      (pending : List Pending)
      → ((w : Pending → ℕ) → sum w (sweep now pending).0 ≡ sum w (filter (is_early now) pending))
        × ((u : ℕ → ℕ)
            → sum u (sweep now pending).1
              ≡ sum u (map (λ p. p.conn) (filter (is_overdue now) pending)))
  unfolding sweep
  sweep-filter pending = (
    λ w. omega (
      arith,
      left_lem w (length pending) [] pending [] (omega arith),
      sum-filter (is_early now) w pending,
    ),
    λ u. omega (
      arith,
      closed_lem u (length pending) [] pending [] (omega arith),
      sum-map u (filter (is_overdue now) pending),
      sum-filter (is_overdue now) (λ (p : Pending). u p.conn) pending,
    ),
  )
