-- ===== src/Util/BoundedQueue/History.antt =====
-- internal/util/bounded_queue.go: what a reader sees after any number of pushes.
use omegacrawl.Base.{
  ℕ, zero, suc, ◌+◌, ◌-◌, ◌≤◌, ◌<◌, ◌≡◌, refl, sym, ap, ◌∙◌, List, [], ◌∷◌, ◌++◌, map, none, some,
  ◌==◌, length, get_elem?, drop, arith, ◌%◌, length-append, Bool-cases, inl, inr, length-replicate,
}
use mathlib.Core.List.{append-nil, append_assoc}
use mathlib.Core.Path.{subst}
use omegacrawl.Base.Int.{ℤ, or_default}
use omegacrawl.Util.BoundedQueue.{BoundedQueue, new_bounded_queue, push, read_from, get_all, clear}
use omegacrawl.Util.BoundedQueue.Refines.{
  Holds, pushed, push-Holds, new-Holds, or_default-pos, wrap,
}

module _ {ℓ} {A : Type ℓ} where
  -- The element at an index within a list, and what follows it.
  drop-step :
      (xs : List A) (i : ℕ)
      → i < length xs
      → (x : A) × (get_elem? xs i ≡ some x) × (drop i xs ≡ x ∷ drop (suc i) xs)
  drop-step [] i h = elim h [ ]
  drop-step (x ∷ xs) zero h = (x, refl, refl)
  drop-step (x ∷ xs) (suc i) h = drop-step xs i (omega arith)

  drop-all : (xs : List A) (i : ℕ) → length xs ≤ i → drop i xs ≡ []
  drop-all [] zero h = refl
  drop-all [] (suc i) h = refl
  drop-all (x ∷ xs) zero h = absurd (omega arith)
  drop-all (x ∷ xs) (suc i) h = drop-all xs i (omega arith)

  read_from_lem :
      (q : BoundedQueue A) (xs : List A)
      → Holds q xs
      → (n i : ℕ) → n + i ≡ q.size
      → read_from n i q ≡ some (map some (drop i xs))
  unfolding read_from
  read_from_lem q xs h zero i e = rw (drop-all xs i (omega arith))
  read_from_lem q xs h (suc n) i e =
      let (x, at, step) = drop-step xs i (omega arith) in
      let here : get_elem? q.items ((q.head + i) % q.capacity) ≡ some (some x) =
        ap (get_elem? q.items) (wrap (q.head + i) q.capacity (omega arith)) ∙ h.stored i x at in
      let next : i + 1 ≡ suc i = omega arith in
      let rest : read_from n (i + 1) q ≡ some (map some (drop (suc i) xs)) =
        read_from_lem q xs h n (i + 1) (omega arith) ∙ ap (λ k. some (map some (drop k xs))) next in
      rw (here, read_from, rest, step)

  -- `GetAll` on a queue that holds `xs` never reads out of range, and returns them in order.
  get_all-Holds : (q : BoundedQueue A) (xs : List A) → Holds q xs → get_all q ≡ some (map some xs)
  unfolding get_all
  get_all-Holds q xs h = elim (Bool-cases (q.size == 0)) [
    | inl e ↦ rw e (sym (ap (λ l. some (map some l)) (drop-all xs 0 (ground arith))))
    | inr e ↦ rw e (read_from_lem q xs h q.size 0 (omega arith))
  ]

  -- Pushes of the items in order.
  unfoldable pub push_all : List A → BoundedQueue A → BoundedQueue A
  push_all [] q = q
  push_all (x ∷ xs) q = push_all xs (push x q)

  push-capacity : (x : A) (q : BoundedQueue A) → (push x q).capacity ≡ q.capacity
  unfolding push
  push-capacity x q = ground arith

  drop-append : (n : ℕ) (xs ys : List A) → n ≤ length xs → drop n (xs ++ ys) ≡ drop n xs ++ ys
  drop-append zero xs ys h = refl
  drop-append (suc n) [] ys h = absurd (omega arith)
  drop-append (suc n) (x ∷ xs) ys h = drop-append n xs ys (omega arith)

  length-drop : (n : ℕ) (xs : List A) → length (drop n xs) ≡ length xs - n
  length-drop zero xs = omega arith
  length-drop (suc n) [] = omega arith
  length-drop (suc n) (x ∷ xs) = omega (arith, length-drop n xs)

  drop-drop : (n : ℕ) (xs : List A) → drop 1 (drop n xs) ≡ drop (suc n) xs
  drop-drop zero xs = refl
  drop-drop (suc n) [] = refl
  drop-drop (suc n) (x ∷ xs) = drop-drop n xs

  -- One push moves the window of the last `c` items on by one.
  pushed-window :
      (c : ℕ) (x : A) (xs : List A)
      → 0 < c
      → pushed c x (drop (length xs - c) xs) ≡ drop (length (xs ++ x ∷ []) - c) (xs ++ x ∷ [])
  pushed-window c x xs p = elim (Bool-cases (length (drop (length xs - c) xs) == c)) [
    | inl e ↦
        let l = length-drop (length xs - c) xs in
        let n : length (xs ++ x ∷ []) - c ≡ suc (length xs - c) =
          ground (arith, length-append xs (x ∷ [])) in
        rw (e, n)
          (ap (λ t. t ++ x ∷ []) (drop-drop (length xs - c) xs)
            ∙ sym (drop-append (suc (length xs - c)) xs (x ∷ []) (ground arith)))
    | inr e ↦
        let l = length-drop (length xs - c) xs in
        let n : length (xs ++ x ∷ []) - c ≡ length xs - c =
          ground (arith, length-append xs (x ∷ [])) in
        rw (e, n) (sym (drop-append (length xs - c) xs (x ∷ []) (ground arith)))
  ]

  abbrev window : ℕ → List A → List A
  window c xs = drop (length xs - c) xs

  push_all-Holds :
      (c : ℕ) (ys xs : List A) (q : BoundedQueue A)
      → 0 < c
      → q.capacity ≡ c
      → Holds q (window c xs)
      → Holds (push_all ys q) (window c (xs ++ ys))
  unfolding push_all
  push_all-Holds c [] xs q p e h = rw append-nil h
  push_all-Holds c (y ∷ ys) xs q p e h =
      let step : Holds (push y q) (window c (xs ++ y ∷ [])) =
        subst (Holds (push y q)) (ap (λ k. pushed k y (window c xs)) e ∙ pushed-window c y xs p)
          (push-Holds q y (window c xs) h) in
      rw append_assoc at
        (push_all-Holds c ys (xs ++ y ∷ []) (push y q) p (push-capacity y q ∙ e) step)

  -- After any pushes onto a new queue `GetAll` returns the last of them, as many as the capacity
  -- allows (1000 where the given capacity is not positive), the oldest first.
  pub get_all-push_all :
      (capacity : ℤ) (ys : List A)
      → get_all (push_all ys (new_bounded_queue capacity))
        ≡ some (map some (drop (length ys - or_default capacity 1000) ys))
  unfolding new_bounded_queue
  get_all-push_all capacity ys = get_all-Holds (push_all ys (new_bounded_queue capacity)) _ (
      push_all-Holds (or_default capacity 1000) ys [] (new_bounded_queue capacity)
        (or_default-pos capacity 1000 (omega arith)) refl
        (rw (drop-all [] (0 - or_default capacity 1000) (omega arith)) (new-Holds capacity)))

  -- A cleared queue holds nothing.
  pub clear-Holds : (q : BoundedQueue A) (xs : List A) → Holds q xs → Holds (clear q) []
  unfolding clear
  clear-Holds q xs h = record {
    allocated = length-replicate (length q.items) none ∙ h.allocated;
    head_in = omega (arith, h.head_in);
    fits = omega arith;
    counted = refl;
    tail_at = ground (arith, h.head_in);
    stored = λ i x e. cc;
  }
