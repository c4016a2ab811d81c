-- ===== src/Web/Index.antt =====
-- The index page with its version.
use zdash.Prelude.{
  ◌≡◌, ◌≢◌, ◌⊎◌, inl, inr, refl, [], ◌∷◌, ◌++◌, Option, none, some, Bytes, codes, Option-cases,
}
use zdash.Text.{cut, cut_prefix}
use zdash.Text.Search.{cut-found, cut-none}
use zdash.Web.{html_response, http_error, handle_index}

abbrev pub placeholder : Bytes
placeholder = codes "__ZDASH_VERSION__"

index_page-cases :
    (page version : Bytes)
    → page ≢ []
    → ((before after : Bytes) × (page ≡ before ++ (placeholder ++ after))
        × (handle_index (some page) version ≡ html_response (before ++ (version ++ after))))
      ⊎ (((p q : Bytes) → page ≢ p ++ (placeholder ++ q))
          × (handle_index (some page) version ≡ html_response page))
unfolding handle_index
index_page-cases [] version n = absurd (n refl)
index_page-cases (b ∷ rest) version n =
    let page = b ∷ rest in
    elim (Option-cases (cut page placeholder)) [
      | inl e ↦ inr (cut-none page placeholder e, rw e refl)
      | inr ((before, after), e) ↦ inl (before, after, cut-found page placeholder e, rw e refl)
    ]

empty_page :
    (version : Bytes)
    → handle_index (some []) version
      ≡ http_error "Internal Server Error: missing embedded resources" 500
unfolding handle_index cut cut_prefix
empty_page version = refl

-- With no embedded page, or an empty one, the answer is a 500. Otherwise the page is sent with status 200 as HTML:
-- with one occurrence of the placeholder replaced by the version and all else as it is, or
-- unchanged, if the placeholder stands nowhere in it.
pub handle_index_cases :
    (file : Option Bytes) (version : Bytes)
    → (((file ≡ none) ⊎ (file ≡ some []))
        × (handle_index file version
            ≡ http_error "Internal Server Error: missing embedded resources" 500))
      ⊎ ((page : Bytes) × (file ≡ some page)
          × (page ≢ [])
          × (((before after : Bytes) × (page ≡ before ++ (placeholder ++ after))
                × (handle_index file version ≡ html_response (before ++ (version ++ after))))
              ⊎ (((p q : Bytes) → page ≢ p ++ (placeholder ++ q))
                  × (handle_index file version ≡ html_response page))))
unfolding handle_index
handle_index_cases none version = inl (inl refl, refl)
handle_index_cases (some []) version = inl (inr refl, empty_page version)
handle_index_cases (some (b ∷ rest)) version =
    let filled : b ∷ rest ≢ [] = λ e. cc in
    inr (b ∷ rest, refl, filled, index_page-cases (b ∷ rest) version filled)
