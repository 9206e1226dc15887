-- ===== src/Crawler/Aggregate.antt =====
-- internal/crawler/do_crawl.go: `writeSiteAggregate`, whole calls one after the other, and the steps of
-- calls that run side by side.
use omegacrawl.Base.{
  ℕ, ◌≡◌, Bool, true, false, List, [], ◌∷◌, ◌++◌, Option, none, some, if◌then◌else◌,
}
use omegacrawl.Errors.Contains.{bytes_equal}
pub mod Seed
mod Examples

-- What `os.WriteFile` did: it wrote the contents, or it failed and left a file or none.
pub data Written : Type 0 where
  wrote : Written
  failed : Option (List ℕ) → Written

-- A call for a page: whether it is a seed page, its host, its document, and what its write does.
pub record Call : Type 0 where
  pub is_seed : Bool
  pub host : List ℕ
  pub contents : List ℕ
  pub outcome : Written

-- The flag, one for all hosts, and the file of each host on the disk.
pub record Aggregate : Type 0 where
  pub written : Bool
  pub files : List ℕ → Option (List ℕ)

abbrev pub no_aggregate : Aggregate
no_aggregate = record { written = false; files = λ host. none }

-- The files with another one of the host.
abbrev pub with_file :
    List ℕ → Option (List ℕ) → (List ℕ → Option (List ℕ)) → List ℕ → Option (List ℕ)
with_file host file files other = if bytes_equal host other then file else files other

-- The write, and for a seed page the flag set after its success.
unfoldable pub write_file : Aggregate → Call → Aggregate
write_file a c = elim c.outcome [
  | wrote ↦ record {
    written = if c.is_seed then true else a.written;
    files = with_file c.host (some c.contents) a.files;
  }
  | failed left ↦ record { written = a.written; files = with_file c.host left a.files }
]

-- Whether the call goes on to its write, and the flag as it leaves it: `CompareAndSwap(false, true)`.
unfoldable pub may_write : Aggregate → Call → Bool
may_write a c = if c.is_seed then true else if a.written then false else true

unfoldable pub claim : Aggregate → Call → Aggregate
claim a c = record { written = if c.is_seed then a.written else true; files = a.files }

-- `writeSiteAggregate`, with no other call at the same time.
unfoldable pub write_site_aggregate : Aggregate → Call → Aggregate
unfolding write_file may_write claim
write_site_aggregate a c = if may_write a c then write_file (claim a c) c else a

unfoldable pub write_all : Aggregate → List Call → Aggregate
unfolding write_site_aggregate
write_all a [] = a
write_all a (c ∷ cs) = write_all (write_site_aggregate a c) cs

-- Calls side by side: the aggregate, and the calls that have yet to write.
pub record Site : Type 0 where
  pub aggregate : Aggregate
  pub writing : List Call

pub data Step : Site → Site → Type 0 where
  -- A call passes its guard.
  begins :
      {s t : Site} (c : Call)
      → may_write s.aggregate c ≡ true
      → t ≡ record { aggregate = claim s.aggregate c; writing = c ∷ s.writing }
      → Step s t
  -- One of the calls that passed it writes.
  writes :
      {s t : Site} (before after : List Call) (c : Call)
      → s.writing ≡ before ++ c ∷ after
      → t ≡ record { aggregate = write_file s.aggregate c; writing = before ++ after }
      → Step s t

pub data Reaches : Site → Site → Type 0 where
  stays : {s : Site} → Reaches s s
  goes : {s t u : Site} → Step s t → Reaches t u → Reaches s u
