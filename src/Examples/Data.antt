-- ===== src/Examples/Data.antt =====
-- A small stand-in for the JSON library, and states for the tests: a text is its own value, its first
-- byte is the number under every key, the bytes behind it are the text under every key.
use Prim.Native.String.{String}
use lightning_cast_endpoint.Base.{ℕ, List, [], ◌∷◌, ◌++◌, Option, none, some, ℤ, pos, negsuc, codes}
use lightning_cast_endpoint.Json.{JsonCpp, Scalar, number, text}
use lightning_cast_endpoint.Wire.Send.{wrote, again}
use lightning_cast_endpoint.Util.EventFd.{EventFd}
use lightning_cast_endpoint.Client.State.{Client, World, new}
use lightning_cast_endpoint.Snapcast.State.{Snap}
use lightning_cast_endpoint.Snapcast.State

abbrev first : List ℕ → Option ℤ
first [] = some (pos 0)
first (a ∷ rest) = some (pos a)

abbrev others : List ℕ → Option (List ℕ)
others [] = some []
others (a ∷ rest) = some rest

abbrev whole : List ℕ → Option (List ℕ)
whole [] = none
whole (a ∷ rest) = some (a ∷ rest)

abbrev write_all : List (String × Scalar) → List ℕ
write_all [] = []
write_all ((key, number (pos n)) ∷ fields) = n ∷ write_all fields
write_all ((key, number (negsuc n)) ∷ fields) = 0 ∷ write_all fields
write_all ((key, text t) ∷ fields) = t ++ write_all fields

abbrev pub plain_json : JsonCpp
plain_json = record {
  Value = List ℕ;
  parse = whole;
  int_at = λ v key. first v;
  string_at = λ v key. others v;
  write = write_all;
}

abbrev pub wake : EventFd
wake = record { fd = 3; counter = 0 }

abbrev pub idle_snap : Snap
idle_snap = State.new wake

-- A client with a connection on descriptor 7 to "10.0.0.2", last heard of at 100 seconds.
abbrev pub open_client : Client
open_client = record (new wake) {
  server_fd = some 7;
  server_ip = codes "10.0.0.2";
  alive_time = record { tv_sec = 100; tv_nsec = 900_000_000 };
}

abbrev pub world : World Snap
world = record {
  client = open_client;
  snap = idle_snap;
  out = [];
  writes = wrote 9 ∷ wrote 4 ∷ again ∷ wrote 5 ∷ [];
  incoming = [];
  now = record { tv_sec = 101; tv_nsec = 0 };
}
