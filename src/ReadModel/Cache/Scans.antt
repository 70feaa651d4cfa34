-- ===== src/ReadModel/Cache/Scans.antt =====
-- What the loop of `RefreshTasks` has read at each page.
use prism_plan.Shared.{
  ℕ, zero, suc, ◌+◌, ◌≤◌, ◌<◌, ◌≡◌, refl, sym, ap, ◌∙◌, subst, ◌⊎◌, inl, inr, List, [], ◌∷◌, ◌++◌,
  map, Option, none, some, Bool, not, ◌&&◌, Str, is_empty, Result, ok, err, arith, ltb, ◌==◌,
  if_cases, length, get_elem?, take, drop,
}
use prism_plan.Tokens.{Keys}
use prism_plan.Storage.{Task}
use prism_plan.Storage.Pages.{or_else}
use mathlib.Core.Option.{some-injective}
use prism_plan.ReadModel.Cache.{
  CacheUpdater, ListedPage, Scan, cached_task, token_of, keys_of, scan_page, go_on, after_list,
  scan,
}

module _ {ℓ} {A : Type ℓ} where
  pub take-drop-append :
      (n k : ℕ) (xs ys : List A)
      → n + k ≤ length xs
      → take k (drop n (xs ++ ys)) ≡ take k (drop n xs)
  take-drop-append zero zero xs ys h = refl
  take-drop-append zero (suc k) [] ys h = absurd (omega arith)
  take-drop-append zero (suc k) (x ∷ xs) ys h =
      ap (◌∷◌ x) (take-drop-append zero k xs ys (omega arith))
  take-drop-append (suc n) k [] ys h = absurd (omega arith)
  take-drop-append (suc n) k (x ∷ xs) ys h = take-drop-append n k xs ys (omega arith)

  pub take-all : (k : ℕ) (xs : List A) → length xs ≤ k → take k xs ≡ xs
  take-all zero [] h = refl
  take-all zero (x ∷ xs) h = absurd (omega arith)
  take-all (suc k) [] h = refl
  take-all (suc k) (x ∷ xs) h = ap (◌∷◌ x) (take-all k xs (omega arith))

  pub get_elem?-append :
      (i : ℕ) (xs ys : List A) → i < length xs → get_elem? (xs ++ ys) i ≡ get_elem? xs i
  get_elem?-append i [] ys h = absurd (omega arith)
  get_elem?-append zero (x ∷ xs) ys h = refl
  get_elem?-append (suc i) (x ∷ xs) ys h = get_elem?-append i xs ys (omega arith)

  pub get_elem?-length : (xs : List A) (y : A) → get_elem? (xs ++ (y ∷ [])) (length xs) ≡ some y
  get_elem?-length [] y = refl
  get_elem?-length (x ∷ xs) y = get_elem?-length xs y

  pub get_elem?-beyond : (xs : List A) → get_elem? xs (length xs) ≡ none
  get_elem?-beyond [] = refl
  get_elem?-beyond (x ∷ xs) = get_elem?-beyond xs

  append-nil : (xs : List A) → xs ++ [] ≡ xs
  append-nil [] = refl
  append-nil (x ∷ xs) = ap (◌∷◌ x) (append-nil xs)

  append_assoc : (xs ys zs : List A) → (xs ++ ys) ++ zs ≡ xs ++ (ys ++ zs)
  append_assoc [] ys zs = refl
  append_assoc (x ∷ xs) ys zs = ap (◌∷◌ x) (append_assoc xs ys zs)

-- The scan has gone on from `s`: nothing that was there is lost.
pub record Extends (s t : Scan) : Type 0 where
  pub more_entries : List Task
  pub more_tokens : List Str
  pub entries : t.entries ≡ s.entries ++ more_entries
  pub tokens : t.page_tokens ≡ s.page_tokens ++ more_tokens

abbrev Same : Scan → Scan → Type 0
Same s t = (t.entries ≡ s.entries) × (t.page_tokens ≡ s.page_tokens)

Same-Extends : (s t : Scan) → Same s t → Extends s t
Same-Extends s t h = record {
  more_entries = [];
  more_tokens = [];
  entries = h.0 ∙ sym (append-nil s.entries);
  tokens = h.1 ∙ sym (append-nil s.page_tokens);
}

Extends-trans : (r s t : Scan) → Extends r s → Extends s t → Extends r t
Extends-trans r s t a b = record {
  more_entries = a.more_entries ++ b.more_entries;
  more_tokens = a.more_tokens ++ b.more_tokens;
  entries =
      b.entries
      ∙ ap (λ xs. xs ++ b.more_entries) a.entries
      ∙ append_assoc r.entries a.more_entries b.more_entries;
  tokens =
      b.tokens
      ∙ ap (λ xs. xs ++ b.more_tokens) a.tokens
      ∙ append_assoc r.page_tokens a.more_tokens b.more_tokens;
}

scan_page-Extends :
    (u : CacheUpdater) (id : Str) (page : ℕ) (p : ListedPage) (s : Scan)
    → Extends s (scan_page u id page p s)
unfolding scan_page
scan_page-Extends u id page p s =
    if_cases (λ ts. Extends s (record (scan_page u id page p s) { page_tokens = ts })) more _ _
      (λ _. record {
        more_entries = map cached_task p.tasks;
        more_tokens = token_of p ∷ [];
        entries = refl;
        tokens = refl;
      })
      λ _. record {
        more_entries = map cached_task p.tasks;
        more_tokens = [];
        entries = refl;
        tokens = sym (append-nil s.page_tokens);
      }
  where
    more : Bool
    more =
        ltb (suc page) u.limits.pages
        && (not (is_empty (token_of p)) && length p.tasks == u.limits.per_page)

-- How a round ends: on an empty page, on the last page, or with the next round.
pub data Round (rest : Scan → Option Scan) (u : CacheUpdater) (id : Str) (page : ℕ) (s : Scan)
    (p : ListedPage) (t : Scan) : Type 0 where
  nothing_listed : length p.tasks ≡ 0 → Same s t → Round rest u id page s p t
  last_page :
      1 ≤ length p.tasks
      → (length p.tasks < u.limits.per_page) ⊎ (keys_of p.next_partition_key p.next_row_key ≡ none)
      → t ≡ scan_page u id page p s
      → Round rest u id page s p t
  next_page :
      (k : Keys)
      → u.limits.per_page ≤ length p.tasks
      → 1 ≤ length p.tasks
      → keys_of p.next_partition_key p.next_row_key ≡ some k
      → rest (record (scan_page u id page p s) { next_keys = some k }) ≡ some t
      → Round rest u id page s p t

module _ (rest : Scan → Option Scan) (u : CacheUpdater) (id : Str) (page : ℕ) (s : Scan)
    (p : ListedPage) where
  go_on-Round :
      (t : Scan) (keys : Option Keys)
      → keys_of p.next_partition_key p.next_row_key ≡ keys
      → u.limits.per_page ≤ length p.tasks
      → 1 ≤ length p.tasks
      → go_on rest keys (scan_page u id page p s) ≡ some t
      → Round rest u id page s p t
  go_on-Round t none ek full some_task e =
      last_page some_task (inr ek) (sym (some-injective (scan_page u id page p s) t e))
  go_on-Round t (some k) ek full some_task e = next_page k full some_task ek e

  after_list-Round :
      (t : Scan) → after_list rest u id page s (ok p) ≡ some t → Round rest u id page s p t
  after_list-Round t =
      if_cases P (length p.tasks == 0) _ _
        (λ h e. nothing_listed (ground arith) (
          ap (λ (o : Option Scan). (or_else o s).entries) (sym e),
          ap (λ (o : Option Scan). (or_else o s).page_tokens) (sym e),
        ))
        λ h.
          if_cases P (ltb (length p.tasks) u.limits.per_page) _ _
            (λ short e.
              last_page (ground arith) (inl (ground arith))
                (sym (some-injective (scan_page u id page p s) t e)))
            λ full e. go_on-Round t _ refl (ground arith) (ground arith) e
    where
      P : Option Scan → Type 0
      P o = o ≡ some t → Round rest u id page s p t

pub scan-Round :
    (u : CacheUpdater) (user_id id : Str) (left page : ℕ) (s t : Scan) (p : ListedPage)
    → u.list_tasks_page page user_id u.limits.per_page s.next_keys ≡ ok p
    → scan u user_id id (suc left) page s ≡ some t
    → Round (scan u user_id id left (suc page)) u id page s p t
unfolding scan
scan-Round u user_id id left page s t p el e =
    after_list-Round (scan u user_id id left (suc page)) u id page s p t
      (ap (after_list (scan u user_id id left (suc page)) u id page s) (sym el) ∙ e)

pub Result-cases :
    (r : Result Str ListedPage) → ((e : Str) × (r ≡ err e)) ⊎ ((p : ListedPage) × (r ≡ ok p))
Result-cases (err e) = inl (e, refl)
Result-cases (ok p) = inr (p, refl)

pub scan-Extends :
    (u : CacheUpdater) (user_id id : Str) (left page : ℕ) (s t : Scan)
    → scan u user_id id left page s ≡ some t
    → Extends s t
unfolding scan
scan-Extends u user_id id zero page s t e =
    subst (Extends s) (some-injective s t e) (Same-Extends s s (refl, refl))
scan-Extends u user_id id (suc left) page s t e =
    elim (Result-cases (u.list_tasks_page page user_id u.limits.per_page s.next_keys)) [
      | inl (x, el) ↦
          cc (ap (after_list (scan u user_id id left (suc page)) u id page s) (sym el) ∙ e)
      | inr (p, el) ↦
          round (λ on. scan-Extends u user_id id left (suc page) on t) p
            (scan-Round u user_id id left page s t p el e)
    ]
  where
    round :
        ((on : Scan) → scan u user_id id left (suc page) on ≡ some t → Extends on t)
        → (p : ListedPage) → Round (scan u user_id id left (suc page)) u id page s p t
        → Extends s t
    round later p (nothing_listed h same) = Same-Extends s t same
    round later p (last_page h stop et) =
        subst (Extends s) (sym et) (scan_page-Extends u id page p s)
    round later p (next_page k full h ek er) =
        let on : Scan = record (scan_page u id page p s) { next_keys = some k } in
        let here = scan_page-Extends u id page p s in
        Extends-trans s on t
          (record {
            more_entries = here.more_entries;
            more_tokens = here.more_tokens;
            entries = here.entries;
            tokens = here.tokens;
          })
          (later on er)
