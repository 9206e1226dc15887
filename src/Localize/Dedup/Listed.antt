-- ===== src/Localize/Dedup/Listed.antt =====
-- internal/localize/dedup.go: the pages that the manifest lists as collapsed into the one that is copied.
use mathlib.Core.Path.{subst}
use mathlib.Core.List.{Memᴰ, Permᴰ}
use mathlib.Core.List.Permᴰ as PermLaws
use omegacrawl.Base.{
  ◌≡◌, ◌≢◌, refl, sym, ap, ◌∙◌, List, [], ◌∷◌, ◌++◌, map, none, some, String, arith, ◌⊎◌, inl, inr,
  Bool-cases, ℕ,
}
use mathlib.Core.List.{append-nil}
use omegacrawl.Base.Perms.{perm_middle, perm_after}
use omegacrawl.Base.Dict
use omegacrawl.Base.Bytes.{lookup, insert, lookup-insert, bytes_equal_refl}
use omegacrawl.Errors.Contains.{bytes_equal_iff}
use omegacrawl.Localize.Dedup.{Pages, Group, bytes_less, group_pages, no_pages}
use omegacrawl.Localize.Dedup.Manifest.{
  move_left, sort_onto, reversed, sort_strings, build_manifest, dedup,
}
use omegacrawl.Localize.Dedup.Collapsed.{collapsed_of, showing, after_pages, group_pages-collapsed}
use omegacrawl.Localize.Dedup.Best.{group_pages-Distinct, preferred_group, group_shows}
use omegacrawl.Localize.Dedup.Groups.{Winner}
use omegacrawl.Sync.Keyed.{Has}
use omegacrawl.Sync.Laws.{Distinct}
use omegacrawl.Sync.Entries.{lookup_of_Has, Has-of_lookup}

move_left-Perm : (s : List ℕ) (l : List (List ℕ)) → Permᴰ (s ∷ l) (move_left s l)
unfolding move_left
move_left-Perm s [] = PermLaws.refl (s ∷ [])
move_left-Perm s (t ∷ l) = elim (Bool-cases (bytes_less s t)) [
  | inl e ↦
      rw (move_left, e) (Permᴰ.trans (Permᴰ.swap refl refl) (Permᴰ.cons refl (move_left-Perm s l)))
  | inr e ↦ rw (move_left, e) (PermLaws.refl (s ∷ t ∷ l))
]

sort_onto-Perm : (sorted l : List (List ℕ)) → Permᴰ (l ++ sorted) (sort_onto sorted l)
unfolding sort_onto
sort_onto-Perm sorted [] = PermLaws.refl sorted
sort_onto-Perm sorted (s ∷ l) =
    Permᴰ.trans (perm_middle l sorted s)
      (Permᴰ.trans (perm_after l (move_left-Perm s sorted)) (sort_onto-Perm (move_left s sorted) l))

reversed-Perm : (after l : List (List ℕ)) → Permᴰ (l ++ after) (reversed after l)
reversed-Perm after [] = PermLaws.refl after
reversed-Perm after (s ∷ l) = Permᴰ.trans (perm_middle l after s) (reversed-Perm (s ∷ after) l)

pub sort_strings-Perm : (l : List (List ℕ)) → Permᴰ l (sort_strings l)
unfolding sort_strings
sort_strings-Perm l =
    Permᴰ.trans (subst (λ k. Permᴰ k (sort_onto [] l)) (append-nil l) (sort_onto-Perm [] l)) (
      subst (λ k. Permᴰ k (reversed [] (sort_onto [] l))) (append-nil (sort_onto [] l))
        (reversed-Perm [] (sort_onto [] l)))

List-cases {ℓ} : {A : Type ℓ} (l : List A) → (l ≡ []) ⊎ ((x : A) × (xs : List A) × (l ≡ x ∷ xs))
List-cases [] = inl refl
List-cases (x ∷ xs) = inr (x, xs, refl)

module _ (pages : Pages) where
  -- The entry that a group adds.
  abbrev add_entry : Group → List (List ℕ × List (List ℕ)) → List (List ℕ × List (List ℕ))
  add_entry g m = elim g.collapsed [
    | [] ↦ m
    | c ∷ l ↦ insert (pages.rel_within g.rep_file) (sort_strings (c ∷ l)) m
  ]

  add_entry-other :
      (r : List ℕ) (g : Group) (m : List (List ℕ × List (List ℕ)))
      → pages.rel_within g.rep_file ≢ r
      → lookup r (add_entry g m) ≡ lookup r m
  add_entry-other r g m n = elim (List-cases g.collapsed) [
    | inl e ↦ rw e refl
    | inr (c, l, e) ↦
        rw (e, lookup-insert (pages.rel_within g.rep_file) r (sort_strings (c ∷ l)) m)
          (ground (arith, bytes_equal_iff (pages.rel_within g.rep_file) r))
  ]

  -- Entries for other pages leave a page's entry of the manifest.
  build_manifest-other :
      (r : List ℕ) (groups : List (String × Group)) (m : List (List ℕ × List (List ℕ)))
      → ((k : String) (g : Group) → Has (k, g) groups → pages.rel_within g.rep_file ≢ r)
      → lookup r (build_manifest pages groups m) ≡ lookup r m
  unfolding build_manifest
  build_manifest-other r [] m n = refl
  build_manifest-other r ((k, g) ∷ groups) m n =
      build_manifest-other r groups (add_entry g m) (λ j h a. n j h (inr a))
      ∙ add_entry-other r g m (n k g (inl refl))

  lookup-build_manifest :
      (k : String) (g : Group) (c : List ℕ) (l : List (List ℕ)) (groups : List (String × Group))
      → (m : List (List ℕ × List (List ℕ))) → Distinct groups
      → Has (k, g) groups
      → g.collapsed ≡ c ∷ l
      → ((j : String) (h : Group)
          → Has (j, h) groups
          → pages.rel_within h.rep_file ≡ pages.rel_within g.rep_file
          → j ≡ k)
      → lookup (pages.rel_within g.rep_file) (build_manifest pages groups m)
        ≡ some (sort_strings (c ∷ l))
  unfolding build_manifest
  lookup-build_manifest k g c l [] m d h e inj = absurd h
  lookup-build_manifest k g c l ((j, w) ∷ groups) m (f, d) (inr h) e inj =
      lookup-build_manifest k g c l groups (add_entry w m) d h e (λ i v a q. inj i v (inr a) q)
  lookup-build_manifest k g c l ((j, w) ∷ groups) m (f, d) (inl h) e inj =
      let r = pages.rel_within g.rep_file in
      let same : w ≡ g = ap (λ x. x.1) h in
      let key : j ≡ k = ap (λ x. x.0) h in
      let others : (i : String) (v : Group) → Has (i, v) groups → pages.rel_within v.rep_file ≢ r =
        λ i v a q.
          let found = lookup_of_Has i v groups d a in
          absurd (
            ground (
              arith,
              f,
              found,
              key,
              subst (λ x. Dict.lookup x groups ≡ some v) (inj i v (inr a) q) found,
            )) in
      let here : lookup r (add_entry g m) ≡ some (sort_strings (c ∷ l)) =
        rw (e, lookup-insert r r (sort_strings (c ∷ l)) m, bytes_equal_refl r) refl in
      build_manifest-other r groups (add_entry w m) others
      ∙ ap (λ x. lookup r (add_entry x m)) same
      ∙ here

  -- Where no two of the files have the same path below the root, the manifest of the report lists under
  -- the page that is preferred for a document (less noisy, or as noisy and first in the order of paths)
  -- all pages of the document that are met after the first one, sorted, where there are such. So where
  -- the first page is not the preferred one, the manifest lists the page that is copied, and not the
  -- first one.
  pub dedup-manifest :
      (files : List String) (k p first second : String) (others : List String)
      → ((a b : String)
          → Memᴰ a files
          → Memᴰ b files
          → pages.rel_within a ≡ pages.rel_within b
          → a ≡ b)
      → Winner pages (λ q. Memᴰ q files) k p
      → showing pages k files ≡ first ∷ second ∷ others
      → (listed : List (List ℕ)) × (lookup (pages.rel_within p) (dedup pages files).manifest
          ≡ some listed)
        × (listed ≡ sort_strings (map pages.rel_within (second ∷ others)))
        × Permᴰ (map pages.rel_within (second ∷ others)) listed
  unfolding dedup collapsed_of after_pages Dict.lookup
  dedup-manifest files k p first second others inj w s =
      let groups = (group_pages pages files no_pages).groups in
      let d : Distinct groups = group_pages-Distinct pages files no_pages tt in
      let met = group_pages-collapsed pages k files no_pages ∙ ap (after_pages pages none) s in
      let (g, e, same) = preferred_group pages files k p inj w in
      let c : g.collapsed ≡ map pages.rel_within (second ∷ others) = ground (arith, met, e) in
      let l = sort_strings (map pages.rel_within (second ∷ others)) in
      let has = Has-of_lookup k g groups e in
      let unique : (j : String) (h : Group)
          → Has (j, h) groups
          → pages.rel_within h.rep_file ≡ pages.rel_within g.rep_file
          → j ≡ k =
        λ j h a q.
          let (m, v) = group_shows pages files j h a in
          let (n, u) = group_shows pages files k g has in
          sym v.key
          ∙ ap (λ x. pages.canonical_key (pages.url_from_local_path x))
              (inj h.rep_file g.rep_file m n q)
          ∙ u.key in
      let at =
        lookup-build_manifest k g (pages.rel_within second) (map pages.rel_within others) groups []
          d has c unique in
      (
        l,
        (subst (λ x. lookup (pages.rel_within x) (build_manifest pages groups []) ≡ some l) same
            at),
        refl,
        sort_strings-Perm (map pages.rel_within (second ∷ others)),
      )
