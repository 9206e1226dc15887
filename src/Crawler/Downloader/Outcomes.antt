-- ===== src/Crawler/Downloader/Outcomes.antt =====
-- internal/crawler/asset_downloader.go: which requests the results belong to.
use mathlib.Core.Path.{subst, subst₂}
use mathlib.Core.List.{Permᴰ, append_assoc, append-nil}
use mathlib.Core.List.Permᴰ as PermLaws
use omegacrawl.Base.{ℕ, ◌+◌, ◌≡◌, length, arith, refl, sym, ap, List, [], ◌∷◌, ◌++◌, map}
use omegacrawl.Base.Perms.{perm_middle, perm_after}
use omegacrawl.Crawler.Downloader.{
  AssetDownloadRequest, AssetDownloadResult, Fetched, download_asset, Batch, started, Step, submits,
  takes, downloads, sends, collects, Reaches, stays, goes,
}

module _ {A : Type 0} where
  -- An element goes from the middle of one list to the head of the next.
  perm_hop : (b a z : List A) (x : A) → Permᴰ ((b ++ x ∷ a) ++ z) ((b ++ a) ++ x ∷ z)
  perm_hop [] a z x = perm_middle a z x
  perm_hop (y ∷ b) a z x = Permᴰ.cons refl (perm_hop b a z x)

  -- An element goes from the head of one list to the end of the next.
  perm_last : (a c z : List A) (x : A) → Permᴰ (x ∷ a ++ (c ++ z)) (a ++ ((c ++ x ∷ []) ++ z))
  perm_last a c z x =
      subst (λ l. Permᴰ (x ∷ a ++ (c ++ z)) (a ++ l)) (sym (append_assoc c (x ∷ []) z))
        (Permᴰ.trans (perm_middle a (c ++ z) x) (perm_after a (perm_middle c z x)))

module _ (fetch : AssetDownloadRequest → Fetched × ℕ) (workers : ℕ) where
  abbrev results_of : List AssetDownloadRequest → List AssetDownloadResult
  results_of l = map (download_asset fetch) l

  -- The results of a batch: those to come, and those that are there.
  abbrev outcomes : Batch → List AssetDownloadResult
  outcomes s =
      results_of s.pending
      ++ (results_of s.queue
          ++ (results_of s.downloading ++ (s.sending ++ (s.results ++ s.received))))

  results_of-append :
      (k l : List AssetDownloadRequest) → results_of (k ++ l) ≡ results_of k ++ results_of l
  results_of-append [] l = refl
  results_of-append (r ∷ k) l = ap (λ t. download_asset fetch r ∷ t) (results_of-append k l)

  Step-Perm : {s t : Batch} → Step fetch workers s t → Permᴰ (outcomes s) (outcomes t)
  Step-Perm {s} (submits r rest p b e) =
      let x = download_asset fetch r in
      let z = results_of s.downloading ++ (s.sending ++ (s.results ++ s.received)) in
      let moved = perm_last (results_of rest) (results_of s.queue) z x in
      let joined : Permᴰ (x ∷ results_of rest ++ (results_of s.queue ++ z))
          (results_of rest ++ (results_of (s.queue ++ r ∷ []) ++ z)) =
        subst
          (λ l.
            Permᴰ (x ∷ results_of rest ++ (results_of s.queue ++ z)) (results_of rest ++ (l ++ z)))
          (sym (results_of-append s.queue (r ∷ []))) moved in
      rw e (
        subst
          (λ l.
            Permᴰ (results_of l ++ (results_of s.queue ++ z))
              (results_of rest ++ (results_of (s.queue ++ r ∷ []) ++ z)))
          (sym p) joined)
  Step-Perm {s} (takes r rest p b e) =
      let x = download_asset fetch r in
      let z = s.sending ++ (s.results ++ s.received) in
      let after = results_of rest ++ (x ∷ results_of s.downloading ++ z) in
      let moved : Permᴰ (x ∷ results_of rest ++ (results_of s.downloading ++ z)) after =
        perm_middle (results_of rest) (results_of s.downloading ++ z) x in
      rw e (
        perm_after (results_of s.pending) (
          subst (λ l. Permᴰ (results_of l ++ (results_of s.downloading ++ z)) after) (sym p) moved))
  Step-Perm {s} (downloads before after r p e) =
      let x = download_asset fetch r in
      let z = s.sending ++ (s.results ++ s.received) in
      let moved = perm_hop (results_of before) (results_of after) z x in
      let joined : Permᴰ (results_of (before ++ r ∷ after) ++ z)
          (results_of (before ++ after) ++ x ∷ z) =
        subst₂ (λ k l. Permᴰ (k ++ z) (l ++ x ∷ z)) (sym (results_of-append before (r ∷ after)))
          (sym (results_of-append before after)) moved in
      rw e (
        perm_after (results_of s.pending) (
          perm_after (results_of s.queue) (
            subst (λ l. Permᴰ (results_of l ++ z) (results_of (before ++ after) ++ x ∷ z)) (sym p)
              joined)))
  Step-Perm {s} (sends before after r p b e) =
      let later = (before ++ after) ++ ((s.results ++ r ∷ []) ++ s.received) in
      let assoc = append_assoc s.results (r ∷ []) s.received in
      let moved : Permᴰ ((before ++ r ∷ after) ++ (s.results ++ s.received)) later =
        subst
          (λ l. Permᴰ ((before ++ r ∷ after) ++ (s.results ++ s.received)) ((before ++ after) ++ l))
          (sym assoc)
          (Permᴰ.trans (perm_hop before after (s.results ++ s.received) r)
            (perm_after (before ++ after) (perm_middle s.results s.received r))) in
      rw e (
        perm_after (results_of s.pending) (
          perm_after (results_of s.queue) (
            perm_after (results_of s.downloading)
              (subst (λ l. Permᴰ (l ++ (s.results ++ s.received)) later) (sym p) moved))))
  Step-Perm {s} (collects r rest p q e) =
      let later = rest ++ r ∷ s.received in
      rw e (
        perm_after (results_of s.pending) (
          perm_after (results_of s.queue) (
            perm_after (results_of s.downloading) (
              perm_after s.sending (
                subst (λ l. Permᴰ (l ++ s.received) later) (sym q)
                  (perm_middle rest s.received r))))))

  Reaches-Perm : {s t : Batch} → Reaches fetch workers s t → Permᴰ (outcomes s) (outcomes t)
  Reaches-Perm {s} stays = PermLaws.refl (outcomes s)
  Reaches-Perm (goes step run) = Permᴰ.trans (Step-Perm step) (Reaches-Perm run)

  left_out :
      (p q d : List AssetDownloadRequest) (k l c : List AssetDownloadResult)
      → length p + length q + length d + length k + length l ≡ 0
      → results_of p ++ (results_of q ++ (results_of d ++ (k ++ (l ++ c)))) ≡ c
  left_out [] [] [] [] [] c h = refl
  left_out (x ∷ p) q d k l c h = absurd (omega arith)
  left_out [] (x ∷ q) d k l c h = absurd (omega arith)
  left_out [] [] (x ∷ d) k l c h = absurd (omega arith)
  left_out [] [] [] (x ∷ k) l c h = absurd (omega arith)
  left_out [] [] [] [] (x ∷ l) c h = absurd (omega arith)

  -- Where all results are collected, they are those of the requests.
  pub received-Perm :
      (requests : List AssetDownloadRequest) (s : Batch)
      → Reaches fetch workers (started requests) s
      → length s.pending
          + length s.queue
          + length s.downloading
          + length s.sending
          + length s.results
        ≡ 0
      → Permᴰ (map (download_asset fetch) requests) s.received
  received-Perm requests s run h =
      subst₂ (λ k l. Permᴰ k l) (append-nil (results_of requests))
        (left_out s.pending s.queue s.downloading s.sending s.results s.received h)
        (Reaches-Perm run)
