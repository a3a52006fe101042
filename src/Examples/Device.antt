-- ===== src/Examples/Device.antt =====
-- The keys and the publisher, at concrete inputs.
use mathlib.Core.List.{map}
use lightning_cast_endpoint.Base.{
  ℕ, ◌≡◌, refl, true, false, List, [], ◌∷◌, ◌++◌, some, codes, pos, ◌-ℤ◌, arith, ◌+ℤ◌, add_int,
  done,
}
use lightning_cast_endpoint.Client.Commands.{notify_volume}
use lightning_cast_endpoint.Device.Keys.{send, action}
use lightning_cast_endpoint.Client.State.{World}
use lightning_cast_endpoint.Device.Keys.{Input, silence, key, key_loop}
use lightning_cast_endpoint.Device.Meaning.{Fits}
use lightning_cast_endpoint.Device.Typing.{texts, key_loop_sends}
use lightning_cast_endpoint.Wire.Header.{frame, store_header}
use lightning_cast_endpoint.Wire.Send.{WriteResult, wrote, write_loop}
use lightning_cast_endpoint.Wire.RoundTrip.{frames}
use lightning_cast_endpoint.Client.Send.{remote_fields}
use lightning_cast_endpoint.Snapcast.State.{Snap}
use lightning_cast_endpoint.Publisher.Register.{
  Interface, set_hostname, add_rr, register_svc, service_type, txt_records, mdns_register,
}
use lightning_cast_endpoint.Publisher.Lifecycle.{Publisher, null, ended, joined}
use lightning_cast_endpoint.Publisher.Published.{our_hostname, mdns_register_published}
use lightning_cast_endpoint.Examples.Data.{plain_json, open_client, world}

louder_key : action b'r' open_client ≡ send notify_volume (pos 55)
unfolding action ◌+ℤ◌ add_int
louder_key = refl

-- The loopback, an IPv6 address, and two IPv4 addresses.
abbrev loopback_interface : Interface
loopback_interface = record { loopback = true; address = some (record { family = 2; ip = 127 }) }

abbrev six : Interface
six = record { loopback = false; address = some (record { family = 10; ip = 0 }) }

abbrev wired : Interface
wired = record { loopback = false; address = some (record { family = 2; ip = 192 }) }

abbrev wireless : Interface
wireless = record { loopback = false; address = some (record { family = 2; ip = 193 }) }

mdns_register_published_example :
    mdns_register (codes "a") 7700 true (some (loopback_interface ∷ wired ∷ six ∷ wireless ∷ []))
    ≡ done (
      pos 0,
      set_hostname our_hostname 192
          ∷ (map (add_rr our_hostname) (193 ∷ [])
              ++ register_svc (codes "a") service_type 7700 txt_records ∷ []),
    )
mdns_register_published_example =
    mdns_register_published (codes "a") 7700 (loopback_interface ∷ wired ∷ six ∷ wireless ∷ []) 192
      (193 ∷ []) ((λ e. cc), ((λ e. cc), ((λ e. cc), ((λ e. cc), tt)))) refl

-- Nothing, "k", an unknown key, "r", then "q"; the socket takes 100 bytes at a time.
abbrev typed : List Input
typed = silence ∷ key b'k' ∷ key b'x' ∷ key b'r' ∷ []

abbrev typing : World Snap
typing = record world { writes = wrote 100 ∷ wrote 100 ∷ [] }

Fits-all : (ch : ℕ) → Fits ch (pos 50) (pos 0)
unfolding ◌+ℤ◌ ◌-ℤ◌
Fits-all ch = ((λ e. refl), (λ e. refl), (λ e. refl), λ e. refl)

key_loop_sends_example :
    (writes : List WriteResult) × (key_loop plain_json (typed ++ key 113 ∷ []) typing
      ≡ done (
        tt,
        record typing { out = [] ++ frames (texts plain_json open_client typed); writes = writes },
      ))
unfolding remote_fields frame store_header write_loop ◌+ℤ◌ add_int
key_loop_sends_example =
    key_loop_sends plain_json typed [] typing 7 refl
      (
        (λ e. absurd (omega arith)),
        Fits-all 107,
        (
          (λ e. absurd (omega arith)),
          Fits-all 120,
          ((λ e. absurd (omega arith)), Fits-all 114, tt),
        ),
      )
      (tt, (tt, tt))

-- The service is registered, main unregisters it and waits for the thread.
abbrev finished : Publisher
finished = record {
  svr = null;
  stop_thread = true;
  thread = ended;
  main = joined;
  starts = true;
  stops = 1;
  early = false;
}
