-- ===== src/Util/BoundedQueue/Refines.antt =====
-- internal/util/bounded_queue.go: the ring buffer is a queue that keeps the last items pushed.
use native.Mathlib.Nat.{mod-eq_of_lt, mod-eq-sub-mod}
use omegacrawl.Base.{
  ℕ, zero, suc, ◌+◌, ◌-◌, ◌%◌, ◌≤◌, ◌<◌, ◌≡◌, refl, sym, ap, ◌∙◌, true, List, [], ◌∷◌, ◌++◌, none,
  some, ◌==◌, ltb, if◌then◌else◌, length, get_elem?, set, drop, arith, get_elem?-set_self,
  get_elem?-set_ne, length-set, length-replicate, length-append, ◌⊎◌, inl, inr, Bool-cases,
}
use omegacrawl.Base.Int.{ℤ, pos, negsuc, or_default}
use omegacrawl.Util.BoundedQueue.{BoundedQueue, new_bounded_queue, push}

-- An index below twice the capacity wraps at most once.
pub wrap : (a c : ℕ) → a < c + c → a % c ≡ (if ltb a c then a else a - c)
wrap a c h = elim (Bool-cases (ltb a c)) [
  | inl lt ↦ rw lt (mod-eq_of_lt (ground arith))
  | inr ge ↦ rw ge (mod-eq-sub-mod {n = a} {m = c} (ground arith) ∙ mod-eq_of_lt (ground arith))
]

pub or_default-pos : (n : ℤ) (d : ℕ) → 0 < d → 0 < or_default n d
or_default-pos (pos zero) d h = h
or_default-pos (pos (suc n)) d h = omega arith
or_default-pos (negsuc n) d h = h

module _ {ℓ} {A : Type ℓ} where
  -- The slot of the item at distance `i` from the oldest.
  abbrev pub slot : BoundedQueue A → ℕ → ℕ
  slot q i = if ltb (q.head + i) q.capacity then q.head + i else q.head + i - q.capacity

  -- The buffer holds the items `xs`, the oldest first.
  pub record Holds (q : BoundedQueue A) (xs : List A) : Type ℓ where
    pub allocated : length q.items ≡ q.capacity
    pub head_in : q.head < q.capacity
    pub fits : q.size ≤ q.capacity
    pub counted : length xs ≡ q.size
    pub tail_at : q.tail ≡ slot q q.size
    pub stored :
        (i : ℕ) (x : A) → get_elem? xs i ≡ some x → get_elem? q.items (slot q i) ≡ some (some x)

  -- What `Push` promises: the new item last, and the oldest dropped if the queue is full.
  abbrev pub pushed : ℕ → A → List A → List A
  pushed capacity item xs =
      if length xs == capacity then drop 1 xs ++ item ∷ [] else xs ++ item ∷ []

  -- A new queue, of the given capacity or of 1000, holds nothing.
  pub new-Holds : (capacity : ℤ) → Holds (new_bounded_queue capacity) []
  unfolding new_bounded_queue
  new-Holds capacity =
      let c : ℕ = or_default capacity 1000 in
      let p : 0 < c = or_default-pos capacity 1000 (omega arith) in
      record {
        allocated = length-replicate c none;
        head_in = p;
        fits = omega arith;
        counted = refl;
        tail_at = ground arith;
        stored = λ i x h. cc;
      }

  get_elem?-append_left :
      (xs ys : List A) (i : ℕ) → i < length xs → get_elem? (xs ++ ys) i ≡ get_elem? xs i
  get_elem?-append_left [] ys i h = elim h [ ]
  get_elem?-append_left (x ∷ xs) ys zero h = refl
  get_elem?-append_left (x ∷ xs) ys (suc i) h = get_elem?-append_left xs ys i (omega arith)

  -- What stands in a list with one more item at its end.
  get_elem?-snoc :
      (xs : List A) (y : A) (i : ℕ) (x : A)
      → get_elem? (xs ++ y ∷ []) i ≡ some x
      → ((i < length xs) × (get_elem? xs i ≡ some x)) ⊎ ((i ≡ length xs) × (y ≡ x))
  get_elem?-snoc [] y zero x h = inr (refl, ground arith)
  get_elem?-snoc [] y (suc i) x h = cc
  get_elem?-snoc (a ∷ xs) y zero x h = inl (omega arith, h)
  get_elem?-snoc (a ∷ xs) y (suc i) x h = elim (get_elem?-snoc xs y i x h) [
    | inl (lt, e) ↦ inl (omega arith, e)
    | inr (e, p) ↦ inr (ap suc e, p)
  ]

  get_elem?-drop : (xs : List A) (i : ℕ) → get_elem? (drop 1 xs) i ≡ get_elem? xs (suc i)
  get_elem?-drop [] i = refl
  get_elem?-drop (x ∷ xs) i = refl

  length-drop_one : (xs : List A) → length (drop 1 xs) ≡ length xs - 1
  length-drop_one [] = omega arith
  length-drop_one (x ∷ xs) = omega arith

  module _ (q : BoundedQueue A) (item : A) (xs : List A) (h : Holds q xs) where
    grow-stored :
        q.size < q.capacity
        → (i : ℕ) (x : A) → get_elem? (xs ++ item ∷ []) i ≡ some x
        → get_elem? (set q.items q.tail (some item)) (slot q i) ≡ some (some x)
    grow-stored lt i x e = elim (get_elem?-snoc xs item i x e) [
      | inl (k, p) ↦
          get_elem?-set_ne q.items q.tail (slot q i) (some item) (ground arith) ∙ h.stored i x p
      | inr (k, p) ↦
          let at : slot q i ≡ q.tail = ground arith in
          rw at (get_elem?-set_self q.items q.tail (some item) (ground arith)) ∙ ap some (ap some p)
    ]

    push-grow : q.size < q.capacity → Holds (push item q) (xs ++ item ∷ [])
    unfolding push
    push-grow lt = elim (Bool-cases (q.size == q.capacity)) [
      | inl e ↦ absurd (ground arith)
      | inr e ↦
          rw (push, e)
            (record {
              allocated = omega (arith, length-set q.items q.tail (some item), h.allocated);
              head_in = h.head_in;
              fits = omega arith;
              counted = omega (arith, length-append xs (item ∷ []), h.counted);
              tail_at = ground (arith, wrap (q.tail + 1) q.capacity);
              stored = grow-stored lt;
            })
    ]

    turn-stored :
        q.size ≡ q.capacity
        → (i : ℕ) (x : A) → get_elem? (drop 1 xs ++ item ∷ []) i ≡ some x
        → get_elem?
            (set q.items q.head (some item))
            (slot (record q { head = if ltb (q.head + 1) q.capacity then q.head + 1 else 0 }) i)
          ≡ some (some x)
    turn-stored full i x e = elim (get_elem?-snoc (drop 1 xs) item i x e) [
      | inl (k, p) ↦
          let l : length (drop 1 xs) ≡ length xs - 1 = length-drop_one xs in
          let at : slot (record q { head = if ltb (q.head + 1) q.capacity then q.head + 1 else 0 })
                i
              ≡ slot q (suc i) =
            ground arith in
          rw at (
            get_elem?-set_ne q.items q.head (slot q (suc i)) (some item) (ground arith)
            ∙ h.stored (suc i) x (sym (get_elem?-drop xs i) ∙ p))
      | inr (k, p) ↦
          let l : length (drop 1 xs) ≡ length xs - 1 = length-drop_one xs in
          let at : slot (record q { head = if ltb (q.head + 1) q.capacity then q.head + 1 else 0 })
                i
              ≡ q.head =
            ground arith in
          rw at (get_elem?-set_self q.items q.head (some item) (ground arith)) ∙ ap some (ap some p)
    ]

    push-turn : q.size ≡ q.capacity → Holds (push item q) (drop 1 xs ++ item ∷ [])
    unfolding push
    push-turn full =
        let test : (q.size == q.capacity) ≡ true = ground arith in
        let l : length (drop 1 xs) ≡ length xs - 1 = length-drop_one xs in
        let turn : (q.head + 1) % q.capacity
            ≡ (if ltb (q.head + 1) q.capacity then q.head + 1 else 0) =
          ground (arith, wrap (q.head + 1) q.capacity) in
        rw (push, test, turn)
          (record {
            allocated = omega (arith, length-set q.items q.head (some item), h.allocated);
            head_in = ground arith;
            fits = h.fits;
            counted = omega (arith, length-append (drop 1 xs) (item ∷ []), h.counted);
            tail_at = ground (arith, wrap (q.tail + 1) q.capacity);
            stored = turn-stored full;
          })

  -- Pushing onto a queue that holds `xs` gives one that holds `xs` and the new item, without the
  -- oldest item if the queue was full.
  pub push-Holds :
      (q : BoundedQueue A) (item : A) (xs : List A)
      → Holds q xs
      → Holds (push item q) (pushed q.capacity item xs)
  push-Holds q item xs h = elim (Bool-cases (length xs == q.capacity)) [
    | inl e ↦ rw e (push-turn q item xs h (ground arith))
    | inr e ↦ rw e (push-grow q item xs h (ground arith))
  ]
