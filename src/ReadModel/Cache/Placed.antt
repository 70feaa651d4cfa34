-- ===== src/ReadModel/Cache/Placed.antt =====
-- Where the scan of `RefreshTasks` puts a page that it has read.
use prism_plan.Shared.{
  ℕ, suc, ◌*◌, ◌≤◌, ◌<◌, ◌≡◌, sym, ap, ◌∙◌, ◌⊎◌, inl, inr, List, [], ◌∷◌, ◌++◌, map, some, true,
  false, Str, is_empty, arith, length, get_elem?, take, drop, length-append, length-map,
  drop-append_left,
}
use prism_plan.Tokens.{Keys}
use prism_plan.Storage.Pages.{or_else}
use prism_plan.ReadModel.Cache.{CacheUpdater, ListedPage, Scan, cached_task, token_of, scan_page}
use prism_plan.ReadModel.Cache.Scans.{
  take-drop-append, take-all, get_elem?-append, get_elem?-length, get_elem?-beyond, Extends,
}
use prism_plan.ReadModel.Cache.Listing.{ListingLaws}

-- `n` full pages have been read.
pub record Aligned (per_page n : ℕ) (s : Scan) : Type 0 where
  pub entries : length s.entries ≡ n * per_page
  pub tokens : length s.page_tokens ≡ n

-- The scan holds the page at its place, with the token that follows it.
pub record Holds (per_page i : ℕ) (p : ListedPage) (s : Scan) : Type 0 where
  pub tasks : take per_page (drop (i * per_page) s.entries) ≡ map cached_task p.tasks
  pub token : or_else (get_elem? s.page_tokens i) s.next_token ≡ token_of p
  pub inside : i * per_page < length s.entries

module _ (u : CacheUpdater) (user_id id : Str) (laws : ListingLaws u user_id) where
  abbrev size : ℕ
  size = u.limits.per_page

  entries_here :
      (n : ℕ) (p : ListedPage) (s : Scan)
      → Aligned size n s
      → length p.tasks ≤ size
      → take size (drop (n * size) (s.entries ++ map cached_task p.tasks)) ≡ map cached_task p.tasks
  entries_here n p s al fit =
      ap (λ k. take size (drop k (s.entries ++ map cached_task p.tasks))) (sym al.entries)
      ∙ ap (take size) (drop-append_left s.entries (map cached_task p.tasks))
      ∙ take-all size (map cached_task p.tasks) (omega (arith, length-map cached_task p.tasks))

  tokens_kept :
      (n : ℕ) (p : ListedPage) (s : Scan)
      → ((length p.tasks < size) ⊎ (is_empty (token_of p) ≡ true)) ⊎ (u.limits.pages ≤ suc n)
      → (scan_page u id n p s).page_tokens ≡ s.page_tokens
  unfolding scan_page
  tokens_kept n p s (inl (inl short)) = ground arith
  tokens_kept n p s (inl (inr no_token)) = ground arith
  tokens_kept n p s (inr last) = ground arith

  tokens_added :
      (n : ℕ) (p : ListedPage) (s : Scan)
      → length p.tasks ≡ size
      → is_empty (token_of p) ≡ false
      → suc n < u.limits.pages
      → (scan_page u id n p s).page_tokens ≡ s.page_tokens ++ (token_of p ∷ [])
  unfolding scan_page
  tokens_added n p s full token more = ground arith

  -- The token of the page is the one to come where no token has been added for it.
  last_token :
      (n : ℕ) (p : ListedPage) (tokens : List Str) (s : Scan)
      → Aligned size n s
      → tokens ≡ s.page_tokens
      → or_else (get_elem? tokens n) (token_of p) ≡ token_of p
  last_token n p tokens s al e =
      ap (λ ts. or_else (get_elem? ts n) (token_of p)) e
      ∙ ap (λ k. or_else (get_elem? s.page_tokens k) (token_of p)) (sym al.tokens)
      ∙ ap (λ o. or_else o (token_of p)) (get_elem?-beyond s.page_tokens)

  inside_here :
      (n : ℕ) (p : ListedPage) (s : Scan)
      → Aligned size n s
      → 1 ≤ length p.tasks
      → n * size < length (s.entries ++ map cached_task p.tasks)
  inside_here n p s al some_task = omega (
    arith,
    al.entries,
    length-append s.entries (map cached_task p.tasks),
    length-map cached_task p.tasks,
  )

  -- The page that a round has just read, where the loop ends with it.
  pub last-Holds :
      (n : ℕ) (p : ListedPage) (s : Scan)
      → Aligned size n s
      → length p.tasks ≤ size
      → 1 ≤ length p.tasks
      → ((length p.tasks < size) ⊎ (is_empty (token_of p) ≡ true)) ⊎ (u.limits.pages ≤ suc n)
      → Holds size n p (scan_page u id n p s)
  unfolding scan_page
  last-Holds n p s al fit some_task stop = record {
    tasks = entries_here n p s al fit;
    token = last_token n p _ s al (tokens_kept n p s stop);
    inside = inside_here n p s al some_task;
  }

  -- A full page that the loop has gone on from.
  pub next-Holds :
      (n : ℕ) (p : ListedPage) (s t : Scan)
      → Aligned size n s
      → length p.tasks ≡ size
      → is_empty (token_of p) ≡ false
      → suc n < u.limits.pages
      → Extends (scan_page u id n p s) t
      → Holds size n p t
  unfolding scan_page
  next-Holds n p s t al full token more ext =
      let tok : t.page_tokens ≡ (s.page_tokens ++ (token_of p ∷ [])) ++ ext.more_tokens =
        ext.tokens ∙ ap (λ ts. ts ++ ext.more_tokens) (tokens_added n p s full token more) in
      record {
        tasks =
            ap (λ xs. take size (drop (n * size) xs)) ext.entries
            ∙ take-drop-append (n * size) size (s.entries ++ map cached_task p.tasks)
                ext.more_entries
                (omega (
                  arith,
                  al.entries,
                  length-append s.entries (map cached_task p.tasks),
                  length-map cached_task p.tasks,
                ))
            ∙ entries_here n p s al (omega arith);
        token =
            ap (λ ts. or_else (get_elem? ts n) t.next_token) tok
            ∙ ap (λ o. or_else o t.next_token)
                (get_elem?-append n (s.page_tokens ++ (token_of p ∷ [])) ext.more_tokens
                  (omega (arith, al.tokens, length-append s.page_tokens (token_of p ∷ []))))
            ∙ ap (λ k. or_else (get_elem? (s.page_tokens ++ (token_of p ∷ [])) k) t.next_token)
                (sym al.tokens)
            ∙ ap (λ o. or_else o t.next_token) (get_elem?-length s.page_tokens (token_of p));
        inside = omega (
          arith,
          inside_here n p s al (omega (arith, laws.some_limit)),
          ap (λ xs. length xs) ext.entries,
          length-append (s.entries ++ map cached_task p.tasks) ext.more_entries,
        );
      }

  pub next-Aligned :
      (n : ℕ) (p : ListedPage) (s : Scan) (k : Keys)
      → Aligned size n s
      → length p.tasks ≡ size
      → is_empty (token_of p) ≡ false
      → suc n < u.limits.pages
      → Aligned size (suc n) (record (scan_page u id n p s) { next_keys = some k })
  unfolding scan_page
  next-Aligned n p s k al full token more = record {
    entries = omega (
      arith,
      al.entries,
      length-append s.entries (map cached_task p.tasks),
      length-map cached_task p.tasks,
    );
    tokens =
        ap (λ ts. length ts) (tokens_added n p s full token more)
        ∙ omega (arith, al.tokens, length-append s.page_tokens (token_of p ∷ []));
  }
