-- ===== src/Util/Lru/Insert.antt =====
-- internal/util/lru_cache.go: a new node in front of the others, and what a new cache holds.
use mathlib.Core.Path.{subst}
use mathlib.Core.List.{append-nil}
use omegacrawl.Base.{
  ℕ, ◌+◌, ◌<◌, ◌≡◌, ◌≢◌, refl, sym, ◌∙◌, List, [], ◌∷◌, ◌++◌, none, some, String, All, arith,
}
use omegacrawl.Base.Dict
use omegacrawl.Base.Int.{ℤ}
use omegacrawl.Sync.Entries.{Distinct-insert}
use omegacrawl.Util.Lru.{Lru, write, new_lru, add_to_head}
use omegacrawl.Util.Lru.Links.{Chain-frame, writes-ne, write-ne, write_self}
use omegacrawl.Util.Lru.Ring.{Ring, InUse, All-drop, with_front, add_to_head-lem, with_front-Ring}
use omegacrawl.Util.Lru.Entries.{keyed, keyed-write}
use omegacrawl.Util.Lru.Holds.{Holds, cons_view}

still_used :
    (n : ℕ) (l : List ℕ) → All (λ y. (0 < y) × (y < n)) l → All (λ y. (0 < y) × (y < n + 1)) l
still_used n [] h = tt
still_used n (x ∷ l) ((p, q), h) = ((p, omega (arith, q)), still_used n l h)

module _ {V : Type 0} where
  -- A new node, stored under its key, before it is put into the list.
  abbrev pub allocated : String → V → Lru V → Lru V
  allocated key value c = record c {
    items = Dict.insert key c.fresh c.items;
    key_of = write c.key_of c.fresh key;
    value_of = write c.value_of c.fresh value;
    next_of = write c.next_of c.fresh 0;
    prev_of = write c.prev_of c.fresh 0;
    fresh = c.fresh + 1;
  }

  -- An address in use is not the next one.
  pub not_fresh : (c : Lru V) (l : List ℕ) → All (InUse c) l → All (λ y. c.fresh ≢ y) l
  not_fresh c [] h = tt
  not_fresh c (x ∷ l) (p, h) = ((λ e. omega (arith, e, p)), not_fresh c l h)

  allocated-Ring :
      (key : String) (value : V) (c : Lru V) (l : List ℕ)
      → Ring c l
      → Ring (allocated key value c) l
  allocated-Ring key value c l h =
      let ne : All (λ y. c.fresh ≢ y) (c.head ∷ l) = not_fresh c (c.head ∷ l) h.in_use in
      record {
        chain =
            Chain-frame c.next_of c.prev_of (write c.next_of c.fresh 0) (write c.prev_of c.fresh 0)
              c.head l (write-ne c.next_of c.fresh 0 c.head ne.0)
              (writes-ne c.next_of c.fresh 0 l ne.1) (writes-ne c.prev_of c.fresh 0 l ne.1) h.chain;
        apart = h.apart;
        in_use = still_used c.fresh (c.head ∷ l) h.in_use;
      }

  -- A new key comes first among those in the cache.
  pub allocated-Holds :
      (key : String) (value : V) (c : Lru V) (ns : List ℕ)
      → Holds c ns
      → Dict.lookup key c.items ≡ none
      → let d = allocated key value c in
        (add_to_head c.fresh d ≡ some (with_front c.fresh d))
        × Holds (with_front c.fresh d) (c.fresh ∷ ns)
  unfolding Dict.lookup
  allocated-Holds key value c ns h absent =
      let d = allocated key value c in
      let (w, ws, e) = cons_view ns c.tail [] in
      let ne : All (λ y. c.fresh ≢ y) (c.head ∷ ns ++ c.tail ∷ []) =
        not_fresh c (c.head ∷ ns ++ c.tail ∷ []) h.ring.in_use in
      let r : Ring d (ns ++ c.tail ∷ []) = allocated-Ring key value c (ns ++ c.tail ∷ []) h.ring in
      let apart_ns : All (λ y. c.fresh ≢ y) ns =
        subst (All (λ y. c.fresh ≢ y)) (append-nil ns)
          (All-drop (λ y. c.fresh ≢ y) ns c.tail [] ne.1).1 in
      let same : keyed d.key_of ns ≡ keyed c.key_of ns =
        keyed-write c.key_of c.fresh key ns apart_ns in
      let here : d.key_of c.fresh ≡ key = write_self c.key_of c.fresh key in
      let gone : Dict.lookup key (keyed c.key_of ns) ≡ none = sym (h.index key) ∙ absent in
      let first : Ring d (w ∷ ws) = subst (Ring d) e r in
      let used : InUse d c.fresh =
        (omega (arith, h.ring.in_use.0.0, h.ring.in_use.0.1), omega arith) in
      (
        add_to_head-lem d c.fresh w ws first,
        record {
          ring =
              subst (λ m. Ring (with_front c.fresh d) (c.fresh ∷ m)) (sym e)
                (with_front-Ring d c.fresh w ws first
                  (subst (λ m. All (λ y. c.fresh ≢ y) (c.head ∷ m)) e ne) used);
          index = λ k. rw (Dict.lookup-insert key k c.fresh c.items, h.index k, same, here) refl;
          once = (rw (same, here) gone, rw same h.once);
          dict = Distinct-insert key c.fresh c.items h.dict;
          count = ground (arith, Dict.length-insert key c.fresh c.items, h.count);
        },
      )

  -- A new cache holds nothing.
  pub new_lru-Holds : (zero_value : V) (capacity : ℤ) → Holds (new_lru zero_value capacity) []
  unfolding new_lru Dict.lookup
  new_lru-Holds zero_value capacity = record {
    ring = record {
      chain = (refl, refl, tt);
      apart = ((λ e. omega (arith, e), tt), (tt, tt));
      in_use = ((omega arith, omega arith), ((omega arith, omega arith), tt));
    };
    index = λ k. refl;
    once = tt;
    dict = tt;
    count = refl;
  }
