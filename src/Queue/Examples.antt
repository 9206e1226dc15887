-- ===== src/Queue/Examples.antt =====
-- Test data for the queue, and the theorems applied to it.
use omegacrawl.Base.{ℕ, ◌+◌, ◌≤◌, List, [], ◌∷◌, if◌then◌else◌, arith}
use omegacrawl.Base.Int.{pos}
use omegacrawl.Base.Dict.{member}
use omegacrawl.Queue.Item.{UrlItem, count_by}
use omegacrawl.Queue.Sorted.{sorted_list}
use omegacrawl.Queue.Priority.{PriorityQueue, push_url}
use omegacrawl.Errors.Classify.{codes}
use omegacrawl.Queue.Once.{Reached, start, pushed, queued, handed, popped_once}

abbrev home : UrlItem
home = record { url = "https://a.org/"; depth = 0; index = pos 0 }

abbrev about_page : UrlItem
about_page = record { url = "https://a.org/about"; depth = 1; index = pos 1 }

abbrev two_items : PriorityQueue
two_items = record {
  items = home ∷ about_page ∷ [];
  seen = "https://a.org/" ∷ "https://a.org/about" ∷ [];
  max_size = pos 10;
}

abbrev no_items : PriorityQueue
no_items = record { items = []; seen = []; max_size = pos 10 }

abbrev home_queued : PriorityQueue
home_queued = (push_url sorted_list "https://a.org/" 0 no_items).0

home_pushed : Reached sorted_list home_queued []
unfolding count_by
home_pushed =
    pushed (start {q = no_items} tt (λ u. omega arith) (λ u h. absurd (omega arith)))
      "https://a.org/" 0

popped_once_example :
    queued "https://a.org/" home_queued.items + handed "https://a.org/" []
    ≤ (if member "https://a.org/" home_queued.seen then 1 else 0)
popped_once_example = popped_once sorted_list home_pushed "https://a.org/"

abbrev two_params : List (List ℕ × ℕ)
two_params = (codes "Fbclid", 1) ∷ (codes "page", 2) ∷ []
