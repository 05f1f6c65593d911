-- ===== src/Gitlab/Pagination.antt =====
-- skills/gitlab-pat-ops/scripts/gitlab_ops/pagination.py: `paginate` and the next page that the
-- headers name. The client is an argument, in two functions: the URL of the first page or of a next
-- one, and the response to the n-th request. The size of a page as JSON text and the URL with another
-- page number are arguments too. An error is its class.
pub mod Bounds
use Prim.Native.Char.{code}
use dev_skills.Base.{
  ℕ, zero, suc, ◌+◌, Bool, true, false, not, ◌&&◌, ◌||◌, Option, none, some, String, List, [], ◌∷◌,
  ◌++◌, ◌==◌, nat_eq, leb, if◌then◌else◌, length, mem, ℤ, pos, negsuc, Fallible, ok, err, ◌>>=◌,
  ◌>>◌, require, require_some,
}

pub data Error : Type 0 where
  network_error response_limit_error client_error : Error

abbrev pub Result {ℓ} : Type ℓ → Type ℓ
Result A = Fallible Error A

-- `headers.get`
abbrev pub Headers : Type 0
Headers = String → Option String

-- `_header`, with the lower-case name written out
unfoldable pub header : Headers → String → String → Option String
header headers name lower = elim (headers name) [
  | some value ↦ if value == "" then none else some value
  | none ↦ elim (headers lower) [
    | some value ↦ if value == "" then none else some value
    | none ↦ none
  ]
]

-- `s.startswith(p)` and `p in s`
abbrev is_prefix : String → String → Bool
is_prefix String.[] s = true
is_prefix (String.◌∷◌ c p) String.[] = false
is_prefix (String.◌∷◌ c p) (String.◌∷◌ d s) = nat_eq (code c) (code d) && is_prefix p s

abbrev pub contains : String → String → Bool
contains p String.[] = is_prefix p String.[]
contains p (String.◌∷◌ c s) = is_prefix p (String.◌∷◌ c s) || contains p s

-- the text up to the first `>`, if there is one
abbrev pub up_to_end : String → Option String
up_to_end String.[] = none
up_to_end (String.◌∷◌ c s) =
    let rest = up_to_end s in
    if nat_eq (code c) b'>'
    then some String.[]
    else (elim rest [ none ↦ none | some t ↦ some (String.◌∷◌ c t) ])

-- `part[part.find("<") + 1 : part.find(">")]`, where the first `>` stands behind the first `<`
unfoldable pub bracketed : String → Option String
bracketed String.[] = none
bracketed (String.◌∷◌ c s) =
    let rest = bracketed s in
    if nat_eq (code c) b'<' then up_to_end s else (if nat_eq (code c) b'>' then none else rest)

abbrev pub add_first : String → List String → List String
add_first s [] = s ∷ []
add_first s (t ∷ l) = s ∷ l

-- `s.split(",")`, with what was read of the first part
unfoldable pub parts : String → List String
parts String.[] = String.[] ∷ []
parts (String.◌∷◌ c s) =
    let rest = parts s in
    if nat_eq (code c) b','
    then String.[] ∷ rest
    else (elim rest [ [] ↦ [] | t ∷ l ↦ String.◌∷◌ c t ∷ l ])

-- the loop over the parts of the header
unfoldable pub next_of_parts : List String → Option String
next_of_parts [] = none
next_of_parts (part ∷ l) =
    let rest = next_of_parts l in
    if contains "rel=\"next\"" part || contains "rel=next" part
    then (elim (bracketed part) [ some url ↦ some url | none ↦ rest ])
    else rest

unfoldable pub next_url_from_headers : Headers → Option String
next_url_from_headers headers = elim (header headers "Link" "link") [
  | none ↦ none
  | some link ↦ next_of_parts (parts link)
]

-- `min(max(1, n), hard)`
abbrev pub clamp : ℤ → ℕ → ℕ
clamp (negsuc n) hard = if leb 1 hard then 1 else hard
clamp (pos n) hard = let low = if leb 1 n then n else 1 in if leb low hard then low else hard

pub record Response (Item : Type 0) : Type 0 where
  -- `none` for a value that is no JSON array
  pub items : Option (List Item)
  pub headers : Headers

pub record Listing (Item : Type 0) : Type 0 where
  pub values : List Item
  pub visited : List String
  pub total_bytes : ℕ

module _ {Item : Type 0} (build_url : Option String → Result String)
    (request : ℕ → String → Result (Response Item)) (size_of : List Item → ℕ)
    (replace_page : String → String → String) where
  -- the next page: of the link, or of the page number
  unfoldable pub next_page : Headers → String → Option String
  next_page headers current_url =
      let numbered : Option String = elim (header headers "X-Next-Page" "x-next-page") [
        | none ↦ none
        | some page ↦
            (let url = replace_page current_url page in if url == "" then none else some url)
      ] in
      elim (next_url_from_headers headers) [
        | some url ↦ if url == "" then numbered else some url
        | none ↦ numbered
      ]

  -- one round of the loop: the listing with the page, and the next page
  unfoldable pub read_page :
      ℕ → ℕ → Listing Item → Option String → ℕ → Result (Listing Item × Option String)
  read_page max_items max_bytes listing next page_number = do
    current_url ← build_url next
    require (not (mem current_url listing.visited)) response_limit_error
    response ← request page_number current_url
    items ← require_some response.items network_error
    require (leb (length listing.values + length items) max_items) response_limit_error
    require (leb (listing.total_bytes + size_of items) max_bytes) response_limit_error
    ok (
      record {
        values = listing.values ++ items;
        visited = listing.visited ++ current_url ∷ [];
        total_bytes = listing.total_bytes + size_of items;
      },
      next_page response.headers current_url,
    )

  -- the loop, with the number of rounds that are left
  unfoldable pub read_pages : ℕ → ℕ → ℕ → Listing Item → Option String → ℕ → Result (Listing Item)
  read_pages max_items max_bytes zero listing next page_number = ok listing
  read_pages max_items max_bytes (suc left) listing next page_number =
      read_page max_items max_bytes listing next page_number >>= λ step. elim step.1 [
        | none ↦ ok step.0
        | some url ↦ elim left [
          | zero ↦ err response_limit_error
          | suc more ↦ read_pages max_items max_bytes left step.0 (some url) (page_number + 1)
        ]
      ]

  -- the bounds of the caller, each brought into the range of the source
  unfoldable pub paginate : ℤ → ℤ → ℤ → Result (Listing Item)
  paginate max_pages max_items max_bytes =
      read_pages (clamp max_items 10_000) (clamp max_bytes 20_971_520) (clamp max_pages 100)
        (record { values = []; visited = []; total_bytes = 0 }) none 1
