-- ===== src/Gitlab/Pagination/Bounds.antt =====
-- pagination.py: what a listing that is returned holds, and how much was read for it.
use dev_skills.Base.{
  ℕ, zero, suc, ◌+◌, ◌≤◌, true, false, Option, none, some, String, List, [], ◌∷◌, ◌++◌, length, mem,
  distinct, distinct-snoc, ℤ, ok, err, Fallible-cases, ◌≡◌, refl, sym, ap, subst, ◌∙◌, arith, inl,
  inr, Option-cases,
}
use dev_skills.Gitlab.Pagination.{
  Result, Response, Listing, next_page, read_page, read_pages, paginate, clamp,
}

length_append {ℓ} : {A : Type ℓ} (l m : List A) → length (l ++ m) ≡ length l + length m
length_append [] m = ground arith
length_append (x ∷ l) m = ground (arith, length_append l m)

append_assoc {ℓ} : {A : Type ℓ} (a b c : List A) → (a ++ b) ++ c ≡ a ++ (b ++ c)
append_assoc [] b c = refl
append_assoc (x ∷ a) b c = ap (λ (l : List _). x ∷ l) (append_assoc a b c)

append-nil {ℓ} : {A : Type ℓ} (l : List A) → l ++ [] ≡ l
append-nil [] = refl
append-nil (x ∷ l) = ap (λ (m : List _). x ∷ m) (append-nil l)

abbrev pub items_of : {Item : Type 0} → Result (Response Item) → List Item
items_of (err error) = []
items_of (ok response) = elim response.items [ none ↦ [] | some items ↦ items ]

-- The items of the URLs, each by one request, the first of which has the given number.
abbrev pub collected :
    {Item : Type 0} → (ℕ → String → Result (Response Item)) → ℕ → List String → List Item
collected request number [] = []
collected request number (url ∷ urls) =
    items_of (request number url) ++ collected request (number + 1) urls

collected-snoc :
    {Item : Type 0} (request : ℕ → String → Result (Response Item)) (number : ℕ)
    (urls : List String) (url : String)
    → collected request number (urls ++ url ∷ [])
      ≡ collected request number urls ++ items_of (request (number + length urls) url)
collected-snoc request number [] url =
    append-nil (items_of (request number url))
    ∙ ap (λ (n : ℕ). items_of (request n url)) (omega arith)
collected-snoc request number (first ∷ urls) url =
    ap (λ (l : List _). items_of (request number first) ++ l)
      (collected-snoc request (number + 1) urls url)
    ∙ ap
        (λ (n : ℕ).
          items_of (request number first)
          ++ (collected request (number + 1) urls ++ items_of (request n url)))
        (omega arith)
    ∙ sym (
        append_assoc (items_of (request number first)) (collected request (number + 1) urls)
          (items_of (request (number + suc (length urls)) url)))

module _ {Item : Type 0} (build_url : Option String → Result String)
    (request : ℕ → String → Result (Response Item)) (size_of : List Item → ℕ)
    (replace_page : String → String → String) where
  -- What was read so far: within the bounds, each URL once, and the items of all of them.
  pub record IsRead (max_items max_bytes : ℕ) (listing : Listing Item) : Type 0 where
    pub few : length listing.values ≤ max_items
    pub small : listing.total_bytes ≤ max_bytes
    pub once : distinct listing.visited ≡ true
    pub whole : listing.values ≡ collected request 1 listing.visited

  page_parts :
      (max_items max_bytes page_number : ℕ) (listing after : Listing Item)
      (next following : Option String)
      → read_page build_url request size_of replace_page max_items max_bytes listing next
          page_number
        ≡ ok (after, following)
      → (url : String) × (response : Response Item) × (items : List Item) × (mem url listing.visited
          ≡ false)
        × (request page_number url ≡ ok response)
        × (response.items ≡ some items)
        × (length listing.values + length items ≤ max_items)
        × (listing.total_bytes + size_of items ≤ max_bytes)
        × (following ≡ next_page build_url request size_of replace_page response.headers url)
        × (after ≡ record {
          values = listing.values ++ items;
          visited = listing.visited ++ url ∷ [];
          total_bytes = listing.total_bytes + size_of items;
        })
  unfolding read_page
  page_parts max_items max_bytes page_number listing after next following h =
      elim (Fallible-cases (build_url next)) [
        | inr (error, e) ↦ absurd (ground arith)
        | inl (url, e) ↦ elim (Fallible-cases (request page_number url)) [
          | inr (error, f) ↦ absurd (ground arith)
          | inl (response, f) ↦ elim (Option-cases response.items) [
            | inl g ↦ absurd (ground arith)
            | inr (items, g) ↦ (
              url,
              response,
              items,
              ground arith,
              f,
              g,
              ground arith,
              ground arith,
              ground arith,
              ground arith,
            )
          ]
        ]
      ]

  page-IsRead :
      (max_items max_bytes page_number : ℕ) (listing after : Listing Item)
      (next following : Option String)
      → page_number ≡ length listing.visited + 1
      → IsRead max_items max_bytes listing
      → read_page build_url request size_of replace_page max_items max_bytes listing next
          page_number
        ≡ ok (after, following)
      → IsRead max_items max_bytes after × (length after.visited ≡ length listing.visited + 1)
  page-IsRead max_items max_bytes page_number listing after next following n s h =
      let (url, response, items, new, asked, given, few, small, later, result) =
        page_parts max_items max_bytes page_number listing after next following h in
      let made : Listing Item = record {
        values = listing.values ++ items;
        visited = listing.visited ++ url ∷ [];
        total_bytes = listing.total_bytes + size_of items;
      } in
      let got : items_of (request page_number url) ≡ items = ground arith in
      subst
        (λ (l : Listing Item).
          IsRead max_items max_bytes l × (length l.visited ≡ length listing.visited + 1))
        (sym result)
        (
          record {
            few = omega (arith, length_append listing.values items, few);
            small = small;
            once = distinct-snoc listing.visited url s.once new;
            whole =
                ap (λ (l : List Item). l ++ items) s.whole
                ∙ ap (λ (l : List Item). collected request 1 listing.visited ++ l) (sym got)
                ∙ ap (λ (k : ℕ). collected request 1 listing.visited ++ items_of (request k url))
                    (omega (arith, n))
                ∙ sym (collected-snoc request 1 listing.visited url);
          },
          omega (arith, length_append listing.visited (url ∷ [])),
        )

  pages-IsRead :
      (max_items max_bytes left page_number : ℕ) (listing last : Listing Item)
      (next : Option String)
      → page_number ≡ length listing.visited + 1
      → IsRead max_items max_bytes listing
      → read_pages build_url request size_of replace_page max_items max_bytes left listing next
          page_number
        ≡ ok last
      → IsRead max_items max_bytes last × (length last.visited ≤ length listing.visited + left)
  unfolding read_pages
  pages-IsRead max_items max_bytes zero page_number listing last next n s h =
      let same : listing ≡ last = ground arith in
      subst
        (λ (l : Listing Item).
          IsRead max_items max_bytes l × (length l.visited ≤ length listing.visited + 0))
        same (s, omega arith)
  pages-IsRead max_items max_bytes (suc zero) page_number listing last next n s h =
      elim (Fallible-cases (
        read_page build_url request size_of replace_page max_items max_bytes listing next
          page_number)) [
            | inr (error, e) ↦ absurd (ground arith)
            | inl ((after, following), e) ↦
                let (read, more) =
                  page-IsRead max_items max_bytes page_number listing after next following n s e in
                elim (Option-cases following) [
                  | inr (url, f) ↦ absurd (ground arith)
                  | inl f ↦
                      let same : after ≡ last = ground arith in
                      subst
                        (λ (l : Listing Item).
                          IsRead max_items max_bytes l
                          × (length l.visited ≤ length listing.visited + 1))
                        same (read, omega (arith, more))
                ]
          ]
  pages-IsRead max_items max_bytes (suc (suc left)) page_number listing last next n s h =
      elim (Fallible-cases (
        read_page build_url request size_of replace_page max_items max_bytes listing next
          page_number)) [
            | inr (error, e) ↦ absurd (ground arith)
            | inl ((after, following), e) ↦
                let (read, more) =
                  page-IsRead max_items max_bytes page_number listing after next following n s e in
                elim (Option-cases following) [
                  | inr (url, f) ↦
                      let (done, fewer) =
                        pages-IsRead max_items max_bytes (suc left) (page_number + 1) after last
                          (some url) (omega (arith, n, more)) read (ground arith) in
                      (done, omega (arith, fewer, more))
                  | inl f ↦
                      let same : after ≡ last = ground arith in
                      subst
                        (λ (l : Listing Item).
                          IsRead max_items max_bytes l
                          × (length l.visited ≤ length listing.visited + suc (suc left)))
                        same (read, omega (arith, more))
                ]
          ]

  -- A listing that is returned stays within the three bounds, each brought into the range of the
  -- source; no URL was requested twice; and the values are those of the requested pages, in order.
  pub paginate-IsRead :
      (max_pages max_items max_bytes : ℤ) (listing : Listing Item)
      → paginate build_url request size_of replace_page max_pages max_items max_bytes ≡ ok listing
      → (length listing.values ≤ clamp max_items 10_000)
        × (listing.total_bytes ≤ clamp max_bytes 20_971_520)
        × (length listing.visited ≤ clamp max_pages 100)
        × (distinct listing.visited ≡ true)
        × (listing.values ≡ collected request 1 listing.visited)
  unfolding paginate distinct
  paginate-IsRead max_pages max_items max_bytes listing h =
      let empty : Listing Item = record { values = []; visited = []; total_bytes = 0 } in
      let start : IsRead (clamp max_items 10_000) (clamp max_bytes 20_971_520) empty = record {
        few = omega arith;
        small = omega arith;
        once = refl;
        whole = refl;
      } in
      let (read, pages) =
        pages-IsRead (clamp max_items 10_000) (clamp max_bytes 20_971_520) (clamp max_pages 100) 1
          empty listing none (ground arith) start h in
      (read.few, read.small, omega (arith, pages), read.once, read.whole)
