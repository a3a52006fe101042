-- ===== src/Client/Metadata.antt =====
-- The metadata and duration messages.
use lightning_cast_endpoint.Base.{
  ℕ, ◌+◌, ◌-◌, ◌≡◌, List, ◌++◌, some, arith, length, take, drop, take-append_ge, drop-append_ge,
  done, codes, same_text_iff, replace, IsAbsent, IsAbsentBefore, find_absent, find_first,
}
use lightning_cast_endpoint.Json.{JsonCpp}
use lightning_cast_endpoint.Client.State.{Client}
use lightning_cast_endpoint.Client.Handlers.{localise, keep_metadata, do_set_metadata}

abbrev pub localhost_url : List ℕ
localhost_url = codes "http://localhost"

take_past :
    (before rest : List ℕ) (n : ℕ)
    → take (length before + n) (before ++ rest) ≡ before ++ take n rest
take_past before rest n =
    let e : length before + n - length before ≡ n = omega arith in
    rw (take-append_ge (length before + n) before rest (omega arith), e)

drop_past : (before rest : List ℕ) (n : ℕ) → drop (length before + n) (before ++ rest) ≡ drop n rest
drop_past before rest n =
    let e : length before + n - length before ≡ n = omega arith in
    rw (drop-append_ge (length before + n) before rest (omega arith), e)

localise_split :
    (server_ip before after : List ℕ)
    → IsAbsentBefore (length before) localhost_url (before ++ (localhost_url ++ after))
    → localise server_ip (before ++ (localhost_url ++ after))
      ≡ before ++ codes "http://" ++ (server_ip ++ after)
unfolding localise replace
localise_split server_ip before after h =
    let e : length before + 7 + 9 ≡ length before + 16 = omega arith in
    rw (
      find_first localhost_url before after h,
      localise,
      e,
      take_past before (localhost_url ++ after) 7,
      drop_past before (localhost_url ++ after) 16,
    )

-- The URL of a cover in which "http://localhost" stands nowhere is kept.
pub localise_absent :
    (server_ip url : List ℕ) → IsAbsent localhost_url url → localise server_ip url ≡ url
unfolding localise
localise_absent server_ip url h = rw (find_absent localhost_url url h, localise)

-- At the first "http://localhost" of the URL of a cover, and only there, "localhost" gives way to the
-- address of the phone.
pub localise_first :
    (server_ip url before after : List ℕ)
    → IsAbsentBefore (length before) localhost_url url
    → url ≡ before ++ (localhost_url ++ after)
    → localise server_ip url ≡ before ++ codes "http://" ++ (server_ip ++ after)
localise_first server_ip url before after h e =
    rw e (localise_split server_ip before after (rw e at h))

-- The four texts are kept as they came, and nothing else changes.
keep_metadata_lem :
    (title album artist cover_url : List ℕ) (c : Client)
    → keep_metadata title album artist cover_url c
      ≡ record c { title = title; album = album; artist = artist; cover_url = cover_url }
unfolding keep_metadata
keep_metadata_lem title album artist cover_url c = ground (
  arith,
  same_text_iff title c.title,
  same_text_iff album c.album,
  same_text_iff artist c.artist,
  same_text_iff cover_url c.cover_url,
)

module _ (json : JsonCpp) where
  open json use {Value, string_at}

  -- A metadata message with its four texts is taken as it is, but for the phone's address in the URL, and
  -- nothing but the four texts changes: the test for unchanged metadata saves work and is not seen.
  pub do_set_metadata_lem :
      (root : Value) (c : Client) (title album artist url : List ℕ)
      → string_at root "Title" ≡ some title
      → string_at root "Album" ≡ some album
      → string_at root "Artist" ≡ some artist
      → string_at root "CoverUrl" ≡ some url
      → do_set_metadata json root c
        ≡ done (
          tt,
          record c {
            title = title;
            album = album;
            artist = artist;
            cover_url = localise c.server_ip url;
          },
        )
  unfolding do_set_metadata
  do_set_metadata_lem root c title album artist url a b d e =
      ground (arith, keep_metadata_lem title album artist (localise c.server_ip url) c)
