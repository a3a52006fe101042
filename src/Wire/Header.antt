-- ===== src/Wire/Header.antt =====
-- struct lightningCast_header of LightningCastCommon.h, and its bytes on the wire.
use lightning_cast_endpoint.Base.{
  ℕ, ◌+◌, ◌*◌, ◌/◌, ◌%◌, ◌^◌, ◌<◌, ◌≡◌, refl, List, [], ◌∷◌, ◌++◌, arith, length, drop,
}

pub record Header : Type 0 where
  pub key : ℕ  -- uint32_t
  pub data_size : ℕ  -- uint32_t

-- The constructor and `clear` write the same fields.
abbrev pub clear : Header → Header
clear h = record h { key = 0; data_size = 0 }

abbrev pub cast_port : ℕ
cast_port = 7700

-- LIGHTNINGCAST_COMM_HEADER_KEY
abbrev pub header_key : ℕ
header_key = 0x9876

-- sizeof(lightningCast_header)
abbrev pub header_size : ℕ
header_size = 8

-- `htonl` of a uint32_t, stored: the byte of the highest weight comes first.
unfoldable pub htonl : ℕ → List ℕ
htonl x = x / 2 ^ 24 % 256 ∷ x / 2 ^ 16 % 256 ∷ x / 2 ^ 8 % 256 ∷ x % 256 ∷ []

-- `ntohl` of a loaded uint32_t.
unfoldable pub ntohl : ℕ → ℕ → ℕ → ℕ → ℕ
ntohl a b c d = a * 2 ^ 24 + b * 2 ^ 16 + c * 2 ^ 8 + d

-- The header at the front of a buffer, by memcpy; `clear`ed where the buffer is shorter.
unfoldable pub load_header : List ℕ → Header
unfolding ntohl
load_header (a ∷ b ∷ c ∷ d ∷ e ∷ f ∷ g ∷ h ∷ rest) = record {
  key = ntohl a b c d;
  data_size = ntohl e f g h;
}
load_header _ = record { key = 0; data_size = 0 }

-- What `processSend` puts into `hi`, as bytes: the key, then the size of the text (cast to uint32_t).
unfoldable pub store_header : ℕ → List ℕ
unfolding htonl
store_header size = htonl header_key ++ htonl (size % 2 ^ 32)

-- The buffer that `processSend` builds: the header, then the text.
unfoldable pub frame : List ℕ → List ℕ
frame text = store_header (length text) ++ text

pub length-store_header : (size : ℕ) → length (store_header size) ≡ header_size
unfolding store_header
length-store_header size = refl

pub load_header-store_header :
    (size : ℕ)
    → size < 2 ^ 32
    → load_header (store_header size) ≡ record { key = header_key; data_size = size }
unfolding load_header store_header
load_header-store_header size h = ground arith

pub load_header-frame :
    (text : List ℕ)
    → length text < 2 ^ 32
    → load_header (frame text) ≡ record { key = header_key; data_size = length text }
unfolding load_header frame store_header
load_header-frame text h = ground arith

pub length-frame : (text : List ℕ) → length (frame text) ≡ header_size + length text
unfolding frame store_header
length-frame text = omega arith

pub drop-frame : (text : List ℕ) → drop header_size (frame text) ≡ text
unfolding frame store_header
drop-frame text = refl
