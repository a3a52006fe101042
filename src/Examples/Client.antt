-- ===== src/Examples/Client.antt =====
-- The client's messages, at concrete inputs.
use lightning_cast_endpoint.Base.{
  ◌≡◌, ◌↔◌, refl, true, none, thrown, [], ◌∷◌, ◌++◌, arith, pos, done, codes, find, replace,
}
use lightning_cast_endpoint.Wire.Header.{frame, store_header, load_header, ntohl}
use lightning_cast_endpoint.Wire.Send.{wrote, again, write_loop}
use lightning_cast_endpoint.Json.{JsonCpp}
use lightning_cast_endpoint.Client.Commands.{code, command}
use lightning_cast_endpoint.Client.State.{Version, World}
use lightning_cast_endpoint.Client.Handlers.{localise, do_set_metadata, do_set_volume}
use lightning_cast_endpoint.Client.Unconvertible.{do_read_throws}
use lightning_cast_endpoint.Client.Send.{send_alive, process_send, alive_fields}
use lightning_cast_endpoint.Client.Dispatch.{dispatch, do_parse, do_read}
use lightning_cast_endpoint.Client.Footprint.{Footprint, accepted, do_parse-Footprint}
use lightning_cast_endpoint.Client.Replies.{Converts, do_read_returns}
use lightning_cast_endpoint.Wire.Receive.{arrived, read_frame, read_full}
use lightning_cast_endpoint.Snapcast.State.{Snap}
use lightning_cast_endpoint.Snapcast.Calls.{snap_port}
use lightning_cast_endpoint.Examples.Data.{plain_json, open_client, world}

abbrev two : Version
two = record { major = pos 2; minor = pos 0; patch = pos 0 }

-- A volume message is kept and answered with a heartbeat.
abbrev after_volume : World Snap
after_volume = record world {
  client = record open_client { current_volume = pos 11 };
  out = frame (103 ∷ []);
  writes = wrote 4 ∷ again ∷ wrote 5 ∷ [];
}

volume_message :
    do_parse plain_json (snap_port plain_json 5) (11 ∷ 42 ∷ []) world ≡ done (true, after_volume)
unfolding do_parse dispatch command send_alive process_send do_set_volume write_loop frame
    store_header code
volume_message = refl

do_parse-Footprint_example :
    Footprint (command (pos 11)) world after_volume × (true ≡ accepted (command (pos 11)))
do_parse-Footprint_example =
    do_parse-Footprint plain_json (snap_port plain_json 5) (11 ∷ 42 ∷ []) (11 ∷ 42 ∷ []) (pos 11)
      world after_volume true refl refl volume_message

localised :
    localise (codes "10.0.0.2") (codes "http://localhost:80/a") ≡ codes "http://10.0.0.2:80/a"
unfolding localise find replace
localised = refl

-- A volume message in two pieces, with the first byte of the next message behind it.
abbrev hearing : World Snap
hearing = record world {
  writes = wrote 100 ∷ [];
  incoming = arrived 0 (0 ∷ 152 ∷ 118 ∷ 0 ∷ 0 ∷ 0 ∷ 2 ∷ []) ∷ arrived 11 (42 ∷ 0 ∷ []) ∷ [];
}

do_read_returns_example :
    (w' : World Snap) × (do_read plain_json (snap_port plain_json 5) hearing ≡ done (true, w'))
    × (w'.out ≡ [] ++ frame (plain_json.write alive_fields))
unfolding frame store_header command write_loop code
do_read_returns_example =
    do_read_returns plain_json (snap_port plain_json 5) (11 ∷ 42 ∷ []) (0 ∷ []) (11 ∷ 42 ∷ [])
      (pos 11) hearing 7 (omega arith) refl refl refl (pos 11, refl) refl tt refl

-- A metadata message whose texts are arrays.
abbrev array_texts : JsonCpp
array_texts = record plain_json { string_at = λ v key. none }

abbrev misshapen : World Snap
misshapen = record hearing {
  incoming = arrived 0 (0 ∷ 152 ∷ 118 ∷ 0 ∷ 0 ∷ 0 ∷ 1 ∷ 3 ∷ 0 ∷ []) ∷ [];
}

do_read_throws_example :
    (do_read array_texts (snap_port array_texts 5) misshapen ≡ thrown)
    ↔ (¬ Converts array_texts (snap_port array_texts 5) (command (pos 3)) (3 ∷ []))
unfolding frame store_header command
do_read_throws_example =
    do_read_throws array_texts (snap_port array_texts 5) (3 ∷ []) (0 ∷ []) (3 ∷ []) (pos 3)
      misshapen 7 (omega arith) refl refl refl refl tt refl

ends_the_process : do_read array_texts (snap_port array_texts 5) misshapen ≡ thrown
unfolding do_read do_parse dispatch command send_alive process_send do_set_metadata write_loop frame
    store_header code read_frame read_full load_header ntohl
ends_the_process = refl
