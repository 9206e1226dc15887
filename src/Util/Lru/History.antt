-- ===== src/Util/Lru/History.antt =====
-- internal/util/lru_cache.go and lru_set.go: every sequence of calls on a new cache answers as the
-- bounded list of entries does.
use mathlib.Core.Path.{subst, fun_ext}
use omegacrawl.Base.{
  ℕ, zero, suc, ◌<◌, ◌≤◌, ◌≡◌, ◌≢◌, refl, sym, ap, ◌∙◌, false, List, [], ◌∷◌, none, some, String,
  arith, length, inl, inr, Option-cases,
}
use omegacrawl.Base.Dict
use omegacrawl.Base.Int.{ℤ, pos, negsuc, or_default}
use omegacrawl.Util.Lru.{
  Lru, write, new_lru, move_to_head, get, put, put_if_absent, add_if_absent, contains, len, clear,
}
use omegacrawl.Util.Lru.Links.{write_self}
use omegacrawl.Util.Lru.Ring.{InUse, All-drop}
use omegacrawl.Util.Lru.Entries.{keyed, lookup-vals, delete_absent}
use omegacrawl.Util.Lru.Holds.{moved}
use omegacrawl.Util.Lru.Insert.{new_lru-Holds}
use omegacrawl.Util.Lru.Spec.{
  Call, gets, puts, puts_if_absent, adds_if_absent, asks, counts, clears, Answer, found, told, call,
  calls, promote, spec, specs,
}
use omegacrawl.Util.Lru.Refines.{IsCacheOf, promoted-IsCacheOf, inserted, length-entries, take_all}

module _ {V : Type 0} (limit : ℕ) where
  -- The call answers as the specification does, and never meets a nil pointer.
  abbrev pub Agrees : Call V → Lru V → List (String × V) → Type 0
  Agrees x c r =
      (d : Lru V) × (call x c ≡ some (d, (spec limit x r).1)) × IsCacheOf limit d (spec limit x r).0

  module _ (c : Lru V) (r : List (String × V)) (h : IsCacheOf limit c r) where
    -- A key that has a node has that node's value, and a key that has none is not an entry.
    lookup_of_node :
        (k : String) (a : ℕ)
        → Dict.lookup k c.items ≡ some a
        → Dict.lookup k r ≡ some (c.value_of a)
    lookup_of_node k a e =
        ap (Dict.lookup k) (sym h.view)
        ∙ lookup-vals c.value_of k (keyed c.key_of h.nodes)
        ∙ rw (sym (h.holds.index k) ∙ e) refl

    lookup_of_no_node : (k : String) → Dict.lookup k c.items ≡ none → Dict.lookup k r ≡ none
    lookup_of_no_node k e =
        ap (Dict.lookup k) (sym h.view)
        ∙ lookup-vals c.value_of k (keyed c.key_of h.nodes)
        ∙ rw (sym (h.holds.index k) ∙ e) refl

    small : {d : Lru V} {l : List (String × V)} → IsCacheOf limit d l → length l ≤ limit
    small {d} {l} j =
        let e : length j.nodes ≡ length l =
          sym (length-entries d.value_of d.key_of j.nodes) ∙ ap length j.view in
        omega (arith, e, j.room)

    -- A cache that a call leaves as it is.
    as_is :
        (x : Call V) (a : Answer V)
        → call x c ≡ some (c, a)
        → spec limit x r ≡ (r, a)
        → Agrees x c r
    as_is x a e f = rw f (c, e, h)

    -- The node that a key has is moved, and its entry promoted.
    gets_moved :
        (k : String) (a : ℕ)
        → Dict.lookup k c.items ≡ some a
        → (move_to_head a c ≡ some (moved a c))
          × IsCacheOf limit (moved a c) (promote k (c.value_of a) r)
    gets_moved k a e =
        let same : write c.value_of a (c.value_of a) ≡ c.value_of = fun_ext (λ x. ground arith) in
        subst
          (λ f.
            let d = record c { value_of = f } in
            (move_to_head a d ≡ some (moved a d))
            × IsCacheOf limit (moved a d) (promote k (c.value_of a) r))
          same (promoted-IsCacheOf limit c r k a (c.value_of a) h e)

    gets-Agrees : (k : String) → Agrees (gets k) c r
    unfolding call get spec
    gets-Agrees k = elim (Option-cases (Dict.lookup k c.items)) [
      | inl e ↦
          as_is (gets k) (found none) (rw (call, get, e) refl)
            (rw (spec, lookup_of_no_node k e) refl)
      | inr (a, e) ↦
          let (m, j) = gets_moved k a e in
          rw (call, get, e, m, spec, lookup_of_node k a e) (moved a c, refl, j)
    ]

    puts-Agrees : (k : String) (v : V) → Agrees (puts k v) c r
    unfolding call put spec
    puts-Agrees k v = elim (Option-cases (Dict.lookup k c.items)) [
      | inl e ↦
          let (d, m, j) = inserted limit c r k v h e in
          rw (call, put, e, m, spec, promote, delete_absent k r (lookup_of_no_node k e))
            (d, refl, j)
      | inr (a, e) ↦
          let (m, j) = promoted-IsCacheOf limit c r k a v h e in
          rw (call, put, e, m, spec, take_all limit (promote k v r) (small j)) (_, refl, j)
    ]

    puts_if_absent-Agrees : (k : String) (v : V) → Agrees (puts_if_absent k v) c r
    unfolding call put_if_absent spec
    puts_if_absent-Agrees k v = elim (Option-cases (Dict.lookup k c.items)) [
      | inl e ↦
          let (d, m, j) = inserted limit c r k v h e in
          rw (call, put_if_absent, e, m, spec, lookup_of_no_node k e) (d, refl, j)
      | inr (a, e) ↦
          let (m, j) = gets_moved k a e in
          rw (call, put_if_absent, e, m, spec, lookup_of_node k a e) (moved a c, refl, j)
    ]

    adds_if_absent-Agrees : (k : String) (v : V) → Agrees (adds_if_absent k v) c r
    unfolding call add_if_absent spec
    adds_if_absent-Agrees k v = elim (Option-cases (Dict.lookup k c.items)) [
      | inl e ↦
          let (d, m, j) = inserted limit c r k v h e in
          rw (call, add_if_absent, e, m, spec, lookup_of_no_node k e) (d, refl, j)
      | inr (a, e) ↦
          as_is (adds_if_absent k v) (told false) (rw (call, add_if_absent, e) refl)
            (rw (spec, lookup_of_node k a e) refl)
    ]

    asks-Agrees : (k : String) → Agrees (asks k) c r
    unfolding call contains spec
    asks-Agrees k = elim (Option-cases (Dict.lookup k c.items)) [
      | inl e ↦ rw (call, contains, e, spec, lookup_of_no_node k e) (c, refl, h)
      | inr (a, e) ↦ rw (call, contains, e, spec, lookup_of_node k a e) (c, refl, h)
    ]

    counts-Agrees : Agrees counts c r
    unfolding call len spec
    counts-Agrees =
        let e : length c.items ≡ length r =
          h.holds.count ∙ sym (length-entries c.value_of c.key_of h.nodes) ∙ ap length h.view in
        (c, rw e refl, h)

    clears-Agrees : Agrees clears c r
    unfolding call clear spec Dict.lookup
    clears-Agrees =
        let p = h.holds.ring in
        let ne = (All-drop (λ y. c.head ≢ y) h.nodes c.tail [] p.apart.0).0 in
        let used = (All-drop (InUse c) h.nodes c.tail [] p.in_use.1).0 in
        (
          clear c,
          refl,
          record {
            nodes = [];
            holds = record {
              ring = record {
                chain =
                    (write_self c.next_of c.head c.tail, write_self c.prev_of c.tail c.head, tt);
                apart = ((ne, tt), (tt, tt));
                in_use = (p.in_use.0, (used, tt));
              };
              index = λ k. refl;
              once = tt;
              dict = tt;
              count = refl;
            };
            room = omega arith;
            some_room = h.some_room;
            capacity = h.capacity;
            view = refl;
          },
        )

    pub agreement : (x : Call V) → Agrees x c r
    agreement (gets k) = gets-Agrees k
    agreement (puts k v) = puts-Agrees k v
    agreement (puts_if_absent k v) = puts_if_absent-Agrees k v
    agreement (adds_if_absent k v) = adds_if_absent-Agrees k v
    agreement (asks k) = asks-Agrees k
    agreement counts = counts-Agrees
    agreement clears = clears-Agrees

  pub calls_agree :
      (xs : List (Call V)) (c : Lru V) (r : List (String × V))
      → IsCacheOf limit c r
      → (d : Lru V) × (calls xs c ≡ some (d, (specs limit xs r).1))
        × IsCacheOf limit d (specs limit xs r).0
  unfolding calls specs
  calls_agree [] c r h = (c, refl, h)
  calls_agree (x ∷ xs) c r h =
      let (d, p, j) = agreement c r h x in
      let (e, q, k) = calls_agree xs d (spec limit x r).0 j in (e, rw (calls, p, q) refl, k)

or_default-pos : (capacity : ℤ) → 0 < or_default capacity 1000
or_default-pos (pos zero) = omega arith
or_default-pos (pos (suc n)) = omega arith
or_default-pos (negsuc n) = omega arith

module _ {V : Type 0} where
  pub new_lru-IsCacheOf :
      (zero_value : V) (capacity : ℤ)
      → IsCacheOf (or_default capacity 1000) (new_lru zero_value capacity) []
  unfolding new_lru
  new_lru-IsCacheOf zero_value capacity = record {
    nodes = [];
    holds = new_lru-Holds zero_value capacity;
    room = omega arith;
    some_room = or_default-pos capacity;
    capacity = refl;
    view = refl;
  }

  -- Any sequence of calls on a new LRU cache or set runs without a nil pointer and answers as the
  -- list of entries does that is kept in the order of use and cut at the capacity (1000 where the
  -- given capacity is not positive); and the cache then holds no more entries than that.
  pub calls-specs :
      (zero_value : V) (capacity : ℤ) (xs : List (Call V))
      → let limit = or_default capacity 1000 in
        (c : Lru V) × (calls xs (new_lru zero_value capacity) ≡ some (c, (specs limit xs []).1))
        × (len c ≤ limit)
  unfolding len
  calls-specs zero_value capacity xs =
      let (c, p, h) =
        calls_agree (or_default capacity 1000) xs (new_lru zero_value capacity) []
          (new_lru-IsCacheOf zero_value capacity) in
      (c, p, omega (arith, h.holds.count, h.room))
