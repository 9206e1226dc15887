-- ===== src/Localize/Dedup/Examples.antt =====
-- Test data for the slimmed copy, and the theorems applied to it.
use mathlib.Core.List.{Memᴰ, Permᴰ}
use omegacrawl.Base.{
  ℕ, ◌≡◌, ◌↔◌, refl, sym, ap, ◌∙◌, true, false, List, [], ◌∷◌, some, String, arith,
}
use omegacrawl.Base.Dict
use omegacrawl.Base.Bytes.{lookup}
use omegacrawl.Errors.Classify.{codes}
use omegacrawl.Errors.Contains.{bytes_equal}
use omegacrawl.Robots.Match.{has_prefix}
use omegacrawl.Localize.Dedup.{Pages, bytes_less, group_pages, no_pages}
use omegacrawl.Localize.Dedup.Copy.{lies_inside, copied}
use omegacrawl.Localize.Dedup.Order.{beats}
use omegacrawl.Localize.Dedup.Groups.{Shows, Winner}
use omegacrawl.Localize.Dedup.Best.{copied-Winner}
use omegacrawl.Localize.Dedup.Manifest.{sort_strings, dedup}
use omegacrawl.Localize.Dedup.Collapsed.{showing}
use omegacrawl.Localize.Dedup.Listed.{dedup-manifest}

-- Every file shows the one document, as clean as the others.
abbrev one_document : Pages
one_document = record {
  is_html_page_path = λ p. true;
  url_from_local_path = λ p. p;
  is_noise_path = λ u. false;
  canonical_key = λ u. "doc";
  clean_weight = λ u. 0;
  rel = λ p. some (codes p);
  rel_within = codes;
}

abbrev two_files : List String
two_files = "b.html" ∷ "a.html" ∷ []

doc-Shows : (p : String) → Shows one_document "doc" p
doc-Shows p = record { html = refl; content = refl; key = refl }

two_paths : (a b : String) → Memᴰ a two_files → Memᴰ b two_files → codes a ≡ codes b → a ≡ b
two_paths a b (Memᴰ.head p) (Memᴰ.head q) e = p ∙ sym q
two_paths a b (Memᴰ.head p) (Memᴰ.tail (Memᴰ.head q)) e =
    absurd (ground (arith, sym (ap codes p) ∙ e ∙ ap codes q))
two_paths a b (Memᴰ.head p) (Memᴰ.tail (Memᴰ.tail n)) e = elim n [ ]
two_paths a b (Memᴰ.tail (Memᴰ.tail m)) n e = elim m [ ]
two_paths a b (Memᴰ.tail (Memᴰ.head p)) (Memᴰ.tail (Memᴰ.tail n)) e = elim n [ ]
two_paths a b (Memᴰ.tail (Memᴰ.head p)) (Memᴰ.head q) e =
    absurd (ground (arith, sym (ap codes p) ∙ e ∙ ap codes q))
two_paths a b (Memᴰ.tail (Memᴰ.head p)) (Memᴰ.tail (Memᴰ.head q)) e = p ∙ sym q

-- A page whose name begins with two dots is kept, and yet not copied.
dots_test :
    copied one_document
      ("..x.html" ∷ [])
      (group_pages one_document ("..x.html" ∷ []) no_pages).groups
    ≡ []
unfolding copied lies_inside group_pages has_prefix bytes_equal Dict.lookup Dict.insert
dots_test = refl

copied-Winner_example :
    Memᴰ "a.html"
      (copied one_document two_files (group_pages one_document two_files no_pages).groups)
    ↔ (Winner one_document (λ q. Memᴰ q two_files) "doc" "a.html"
        × (lies_inside one_document "a.html" ≡ true))
copied-Winner_example =
    copied-Winner one_document two_files "doc" "a.html" two_paths (doc-Shows "a.html")

a-Winner : Winner one_document (λ q. Memᴰ q two_files) "doc" "a.html"
unfolding beats bytes_less
a-Winner = record {
  shows = doc-Shows "a.html";
  member = Memᴰ.tail (Memᴰ.head refl);
  unbeaten = λ q m s. elim m [
    | Memᴰ.head e ↦ rw e refl
    | Memᴰ.tail (Memᴰ.head e) ↦ rw e refl
    | Memᴰ.tail (Memᴰ.tail n) ↦ elim n [ ]
  ];
}

-- The first of the two files is not the one that is copied, and is not listed.
dedup-manifest_example :
    (listed : List (List ℕ)) × (lookup (codes "a.html") (dedup one_document two_files).manifest
      ≡ some listed)
    × (listed ≡ sort_strings (codes "a.html" ∷ []))
    × Permᴰ (codes "a.html" ∷ []) listed
unfolding showing
dedup-manifest_example =
    dedup-manifest one_document two_files "doc" "a.html" "b.html" "a.html" [] two_paths a-Winner
      refl

sort_strings_test :
    sort_strings (codes "b" ∷ codes "c" ∷ codes "a" ∷ []) ≡ codes "a" ∷ codes "b" ∷ codes "c" ∷ []
unfolding sort_strings bytes_less
sort_strings_test = refl
