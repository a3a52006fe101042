-- ===== src/Client/MusicInfo.antt =====
-- The classes Metadata, AudioDataFormat and MusicInfo of LightningCastClient.h, with their constructors and
-- assignment operators, over a store of objects.
use lightning_cast_endpoint.Base.{ℕ, ◌≡◌, ◌≢◌, List, [], arith, ◌==◌, if◌then◌else◌, ℤ, pos}

record Metadata : Type 0 where
  title : List ℕ
  album : List ℕ
  artist : List ℕ
  cover_url : List ℕ

record AudioDataFormat : Type 0 where
  sample_rate : ℤ
  format : ℤ
  channels : ℤ

record MusicInfo : Type 0 where
  metadata : Metadata
  audio_format : AudioDataFormat
  duration : ℤ
  position : ℤ
  play_status : ℤ

-- The constructors without arguments.
abbrev no_metadata : Metadata
no_metadata = record { title = []; album = []; artist = []; cover_url = [] }

abbrev no_format : AudioDataFormat
no_format = record { sample_rate = pos 0; format = pos 0; channels = pos 0 }

abbrev no_music : MusicInfo
no_music = record {
  metadata = no_metadata;
  audio_format = no_format;
  duration = pos 0;
  position = pos 0;
  play_status = pos 0;
}

-- Objects by their addresses, and a write to one.
abbrev Store : Type 0 → Type 0
Store A = ℕ → A

abbrev update : {A : Type 0} → ℕ → (A → A) → Store A → Store A
update i f store j = if i == j then f (store j) else store j

-- `operator=` of the object at `this` from that at `other`, which can be the same: member by member.
assign_metadata : ℕ → ℕ → Store Metadata → Store Metadata
assign_metadata this other s0 =
    let s1 = update this (λ m. record m { title = (s0 other).title }) s0 in
    let s2 = update this (λ m. record m { album = (s1 other).album }) s1 in
    let s3 = update this (λ m. record m { artist = (s2 other).artist }) s2 in
    update this (λ m. record m { cover_url = (s3 other).cover_url }) s3

assign_format : ℕ → ℕ → Store AudioDataFormat → Store AudioDataFormat
assign_format this other s0 =
    let s1 = update this (λ a. record a { sample_rate = (s0 other).sample_rate }) s0 in
    let s2 = update this (λ a. record a { format = (s1 other).format }) s1 in
    update this (λ a. record a { channels = (s2 other).channels }) s2

-- An assignment, of an object to itself too, leaves a copy of the other object and changes no third one.
assign_metadata_lem :
    (this other i : ℕ) (s : Store Metadata)
    → (assign_metadata this other s this ≡ s other)
      × (i ≢ this → assign_metadata this other s i ≡ s i)
unfolding assign_metadata
assign_metadata_lem this other i s = ground arith

assign_format_lem :
    (this other i : ℕ) (s : Store AudioDataFormat)
    → (assign_format this other s this ≡ s other) × (i ≢ this → assign_format this other s i ≡ s i)
unfolding assign_format
assign_format_lem this other i s = ground arith
