-- ===== src/Crawler/Downloader/Collected.antt =====
-- internal/crawler/asset_downloader.go: the map of results by URL.
use omegacrawl.Base.{ℕ, ◌≡◌, refl, ap, arith, List, [], ◌∷◌, Option, none, some, if◌then◌else◌}
use omegacrawl.Base.Bytes.{lookup, insert, lookup-insert}
use omegacrawl.Errors.Contains.{bytes_equal}
use omegacrawl.Crawler.Downloader.{
  AssetDownloadRequest, AssetDownloadResult, Fetched, Batch, Step, submits, takes, downloads, sends,
  collects, Reaches, stays, goes,
}

-- The last result received of the URL.
unfoldable pub latest : List ℕ → List AssetDownloadResult → Option AssetDownloadResult
latest url [] = none
latest url (r ∷ received) =
    let earlier = latest url received in if bytes_equal r.request.url url then some r else earlier

unfoldable pub results_map : List AssetDownloadResult → List (List ℕ × AssetDownloadResult)
results_map [] = []
results_map (r ∷ received) = insert r.request.url r (results_map received)

pub lookup-results_map :
    (url : List ℕ) (received : List AssetDownloadResult)
    → lookup url (results_map received) ≡ latest url received
unfolding results_map latest lookup
lookup-results_map url [] = refl
lookup-results_map url (r ∷ received) = ground (
  arith,
  lookup-insert r.request.url url r (results_map received),
  lookup-results_map url received,
)

module _ (fetch : AssetDownloadRequest → Fetched × ℕ) (workers : ℕ) where
  Step-collected :
      {s t : Batch}
      → Step fetch workers s t
      → s.collected ≡ results_map s.received
      → t.collected ≡ results_map t.received
  unfolding results_map
  Step-collected (submits r rest p b e) h = rw e h
  Step-collected (takes r rest p b e) h = rw e h
  Step-collected (downloads before after r p e) h = rw e h
  Step-collected (sends before after r p b e) h = rw e h
  Step-collected (collects r rest p q e) h = rw e (ap (insert r.request.url r) h)

  pub Reaches-collected :
      {s t : Batch}
      → Reaches fetch workers s t
      → s.collected ≡ results_map s.received
      → t.collected ≡ results_map t.received
  Reaches-collected stays h = h
  Reaches-collected (goes step run) h = Reaches-collected run (Step-collected step h)
