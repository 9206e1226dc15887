-- ===== src/Localize/Dedup/Groups.antt =====
-- internal/localize/dedup.go: what the groups hold after the pages seen so far.
use mathlib.Core.Path.{subst}
use mathlib.Core.List.{Memᴰ}
use text.Mathlib.Text.{◌==◌}
use text.Mathlib.TextEquality.{eq_iff}
use omegacrawl.Base.{
  ◌≡◌, refl, sym, true, false, List, [], ◌∷◌, Option, none, some, String, arith, ◌⊎◌, inl, inr,
  Bool-cases, Option-cases, if◌then◌else◌,
}
use omegacrawl.Base.Dict
use omegacrawl.Localize.Dedup.{
  Pages, Group, DedupReport, is_lighter, join_group, add_page, group_pages,
}
use omegacrawl.Localize.Dedup.Order.{weight, beats, beats_irrefl, beats_trans}

module _ (pages : Pages) where
  -- The file is a page that counts, and its document has the key `k`.
  pub record Shows (k p : String) : Type 0 where
    pub html : pages.is_html_page_path p ≡ true
    pub content : pages.is_noise_path (pages.url_from_local_path p) ≡ false
    pub key : pages.canonical_key (pages.url_from_local_path p) ≡ k

  -- `p` shows the document `k`, and no file of `seen` that shows it is preferred.
  pub record Winner (seen : String → Type 0) (k p : String) : Type 0 where
    pub shows : Shows k p
    pub member : seen p
    pub unbeaten : (q : String) → seen q → Shows k q → beats pages q p ≡ false

  -- The group of a key among the files seen.
  abbrev pub At : (String → Type 0) → String → Option Group → Type 0
  At seen k none = (q : String) → seen q → Shows k q → ⊥
  At seen k (some g) = Winner seen k g.rep_file × (g.rep_weight ≡ weight pages g.rep_file)

  abbrev pub Grouped : (String → Type 0) → DedupReport → Type 0
  Grouped seen rep = (k : String) → At seen k (Dict.lookup k rep.groups)

  abbrev pub With : String → (String → Type 0) → String → Type 0
  With p seen q = (q ≡ p) ⊎ seen q

  -- The same files, differently given.
  At-same :
      (seen also : String → Type 0) (k : String) (o : Option Group)
      → ((q : String) → seen q → also q)
      → ((q : String) → also q → seen q)
      → At seen k o
      → At also k o
  At-same seen also k none f g h = λ q m s. h q (g q m) s
  At-same seen also k (some x) f g (w, e) = (
    record {
      shows = w.shows;
      member = f x.rep_file w.member;
      unbeaten = λ q m s. w.unbeaten q (g q m) s;
    },
    e,
  )

  -- A file that does not show the document changes nothing of its group.
  At-skip :
      (seen : String → Type 0) (p k : String) (o : Option Group)
      → (Shows k p → ⊥)
      → At seen k o
      → At (With p seen) k o
  At-skip seen p k none other h =
      λ q m s. elim m [ inl e ↦ other (subst (Shows k) e s) | inr m ↦ h q m s ]
  At-skip seen p k (some g) other (w, e) = (
    record {
      shows = w.shows;
      member = inr w.member;
      unbeaten = λ q m s. elim m [
        | inl e ↦ absurd (other (subst (Shows k) e s))
        | inr m ↦ w.unbeaten q m s
      ];
    },
    e,
  )

  -- A new group's first page.
  At-first :
      (seen : String → Type 0) (p k : String)
      → Shows k p
      → At seen k none
      → At
          (With p seen)
          k
          (some (record { rep_file = p; rep_weight = weight pages p; collapsed = [] }))
  At-first seen p k s h = (
    record {
      shows = s;
      member = inl refl;
      unbeaten = λ q m t. elim m [
        | inl e ↦ subst (λ x. beats pages x p ≡ false) (sym e) (beats_irrefl pages p)
        | inr m ↦ absurd (h q m t)
      ];
    },
    refl,
  )

  -- A further page of a group.
  At-join :
      (seen : String → Type 0) (p k : String) (g : Group)
      → Shows k p
      → At seen k (some g)
      → At (With p seen) k (some (join_group pages (weight pages p) p g))
  unfolding join_group is_lighter beats
  At-join seen p k g s (w, e) =
      let same : is_lighter pages (weight pages p) p g ≡ beats pages p g.rep_file =
        rw (is_lighter, beats, e) refl in
      elim (Bool-cases (beats pages p g.rep_file)) [
        | inl b ↦
            rw (join_group, same, b)
              (
                record {
                  shows = s;
                  member = inl refl;
                  unbeaten = λ q m t. elim m [
                    | inl e ↦ subst (λ x. beats pages x p ≡ false) (sym e) (beats_irrefl pages p)
                    | inr m ↦ beats_trans pages p g.rep_file q b (w.unbeaten q m t)
                  ];
                },
                refl,
              )
        | inr b ↦
            rw (join_group, same, b)
              (
                record {
                  shows = w.shows;
                  member = inr w.member;
                  unbeaten = λ q m t. elim m [
                    | inl e ↦ subst (λ x. beats pages x g.rep_file ≡ false) (sym e) b
                    | inr m ↦ w.unbeaten q m t
                  ];
                },
                e,
              )
      ]

  -- The group of the page's key is written, and the other groups are left.
  At-insert :
      (seen : String → Type 0) (p : String) (g : Group) (rep : DedupReport)
      → let key = pages.canonical_key (pages.url_from_local_path p) in
        At (With p seen) key (some g)
        → Grouped seen rep
        → (k : String) → At (With p seen) k (Dict.lookup k (Dict.insert key g rep.groups))
  At-insert seen p g rep here h k =
      let key = pages.canonical_key (pages.url_from_local_path p) in
      rw (Dict.lookup-insert key k g rep.groups) (elim (Bool-cases (key == k)) [
        | inl e ↦
            rw e (subst (λ x. At (With p seen) x (some g)) (ground (arith, eq_iff key k)) here)
        | inr e ↦ rw e (
            At-skip seen p k (Dict.lookup k rep.groups) (λ s. ground (arith, s.key, eq_iff key k))
              (h k))
      ])

  add_page-Grouped :
      (seen : String → Type 0) (p : String) (rep : DedupReport)
      → pages.is_html_page_path p ≡ true
      → Grouped seen rep
      → Grouped (With p seen) (add_page pages p rep)
  unfolding add_page
  add_page-Grouped seen p rep html h k =
      let u = pages.url_from_local_path p in
      let key = pages.canonical_key u in
      elim (Bool-cases (pages.is_noise_path u)) [
        | inl n ↦
            rw (add_page, n)
              (At-skip seen p k (Dict.lookup k rep.groups) (λ s. ground (arith, s.content, n))
                (h k))
        | inr n ↦
            let s : Shows key p = record { html = html; content = n; key = refl } in
            elim (Option-cases (Dict.lookup key rep.groups)) [
              | inl e ↦
                  rw (add_page, n, e)
                    (At-insert seen p _ rep (At-first seen p key s (subst (At seen key) e (h key)))
                      h k)
              | inr (g, e) ↦
                  rw (add_page, n, e)
                    (At-insert seen p _ rep (At-join seen p key g s (subst (At seen key) e (h key)))
                      h k)
            ]
      ]

  -- The groups after the loop.
  pub group_pages-Grouped :
      (seen : String → Type 0) (files : List String) (rep : DedupReport)
      → Grouped seen rep
      → Grouped (λ q. seen q ⊎ Memᴰ q files) (group_pages pages files rep)
  unfolding group_pages
  group_pages-Grouped seen [] rep h k =
      At-same seen (λ q. seen q ⊎ Memᴰ q []) k (Dict.lookup k rep.groups) (λ q m. inl m)
        (λ q m. elim m [ inl m ↦ m | inr m ↦ elim m [ ] ]) (h k)
  group_pages-Grouped seen (p ∷ files) rep h k =
      let next = if pages.is_html_page_path p then add_page pages p rep else rep in
      let one : Grouped (With p seen) next = elim (Bool-cases (pages.is_html_page_path p)) [
        | inl e ↦ rw e (add_page-Grouped seen p rep e h)
        | inr e ↦ rw e (λ j.
            At-skip seen p j (Dict.lookup j rep.groups) (λ s. ground (arith, s.html, e)) (h j))
      ] in
      At-same (λ q. With p seen q ⊎ Memᴰ q files) (λ q. seen q ⊎ Memᴰ q (p ∷ files)) k
        (Dict.lookup k (group_pages pages files next).groups)
        (λ q m. elim m [
          | inl (inl e) ↦ inr (Memᴰ.head e)
          | inl (inr m) ↦ inl m
          | inr m ↦ inr (Memᴰ.tail m)
        ])
        (λ q m. elim m [
          | inl m ↦ inl (inr m)
          | inr (Memᴰ.head e) ↦ inl (inl e)
          | inr (Memᴰ.tail m) ↦ inr m
        ])
        (group_pages-Grouped (With p seen) files next one k)
