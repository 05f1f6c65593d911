-- ===== src/Gitlab/Tests.antt =====
-- A list of two pages.
use dev_skills.Base.{
  ℕ, ◌≤◌, Option, none, some, String, List, [], ◌∷◌, ◌==◌, if◌then◌else◌, length, distinct, mem, ok,
  pos, ◌≡◌, true, refl,
}
use dev_skills.Gitlab.Pagination.{
  Result, Response, Headers, Listing, header, bracketed, parts, next_of_parts,
  next_url_from_headers, next_page, read_page, read_pages, paginate, clamp,
}
use dev_skills.Gitlab.Pagination.Bounds.{collected, paginate-IsRead}

abbrev linked : Headers
linked name =
    if name == "link"
    then some "<https://g/a?page=1>; rel=\"first\", <https://g/a?page=2>; rel=\"next\""
    else none

next_link : next_url_from_headers linked ≡ some "https://g/a?page=2"
unfolding next_url_from_headers header parts next_of_parts bracketed
next_link = refl

abbrev build_url : Option String → Result String
build_url none = ok "https://g/a?page=1"
build_url (some url) = ok url

abbrev request : ℕ → String → Result (Response ℕ)
request number url =
    if url == "https://g/a?page=1"
    then ok (record { items = some (1 ∷ 2 ∷ []); headers = linked })
    else ok (record { items = some (3 ∷ []); headers = λ name. none })

abbrev size_of : List ℕ → ℕ
size_of l = length l

abbrev replace_page : String → String → String
replace_page url page = url

abbrev two_pages : Listing ℕ
two_pages = record {
  values = 1 ∷ 2 ∷ 3 ∷ [];
  visited = "https://g/a?page=1" ∷ "https://g/a?page=2" ∷ [];
  total_bytes = 3;
}

two_pages_read :
    paginate build_url request size_of replace_page (pos 20) (pos 2_000) (pos 5_242_880)
    ≡ ok two_pages
unfolding paginate read_pages read_page mem next_page next_url_from_headers header next_of_parts
    parts bracketed
two_pages_read = refl

paginate-IsRead_example :
    (length two_pages.values ≤ clamp (pos 2_000) 10_000)
    × (two_pages.total_bytes ≤ clamp (pos 5_242_880) 20_971_520)
    × (length two_pages.visited ≤ clamp (pos 20) 100)
    × (distinct two_pages.visited ≡ true)
    × (two_pages.values ≡ collected request 1 two_pages.visited)
paginate-IsRead_example =
    paginate-IsRead build_url request size_of replace_page (pos 20) (pos 2_000) (pos 5_242_880)
      two_pages two_pages_read
