-- ===== src/Client/State.antt =====
-- The members of class LightningCastClient, and the world in which its thread runs.
use lightning_cast_endpoint.Base.{
  ℕ, Bool, false, ◌&&◌, ◌||◌, List, [], Option, none, ℤ, pos, ltb_ℤ, ◌==ℤ◌, Run, done, thrown,
  undefined, stuck,
}
use lightning_cast_endpoint.Wire.Send.{WriteResult}
use lightning_cast_endpoint.Wire.Receive.{ReadEvent}
use lightning_cast_endpoint.Util.Time.{TimeSpec}
use lightning_cast_endpoint.Util.EventFd.{EventFd}
use lightning_cast_endpoint.Client.Commands.{ClientCmd}

-- class LightningcastVersion
pub record Version : Type 0 where
  pub major : ℤ
  pub minor : ℤ
  pub patch : ℤ

-- The lexicographic `<` of std::tie.
unfoldable pub version_less : Version → Version → Bool
version_less a b =
    ltb_ℤ a.major b.major
    || (a.major ==ℤ b.major
        && (ltb_ℤ a.minor b.minor || (a.minor ==ℤ b.minor && ltb_ℤ a.patch b.patch)))

-- The members that messages and commands use. `server_fd` is `none` for -1.
pub record Client : Type 0 where
  pub version : Version
  pub cmd : ClientCmd
  pub ready : Bool
  pub ready_sync : Bool
  pub is_open : Bool
  pub server_fd : Option ℕ
  pub server_ip : List ℕ
  pub wake_fd : EventFd
  pub sample_rate : ℤ
  pub format : ℤ
  pub channels : ℤ
  pub duration : ℤ
  pub position : ℤ
  pub play_status : ℤ
  pub current_volume : ℤ
  pub alive_time : TimeSpec
  pub title : List ℕ
  pub album : List ℕ
  pub artist : List ℕ
  pub cover_url : List ℕ

-- The constructor.
abbrev pub new : EventFd → Client
new wake_fd = record {
  version = record { major = pos 1; minor = pos 0; patch = pos 0 };
  cmd = ClientCmd.idle;
  ready = false;
  ready_sync = false;
  is_open = false;
  server_fd = none;
  server_ip = [];
  wake_fd = wake_fd;
  sample_rate = pos 0;
  format = pos 0;
  channels = pos 0;
  duration = pos 0;
  position = pos 0;
  play_status = pos 0;
  current_volume = pos 50;
  alive_time = record { tv_sec = 0; tv_nsec = 0 };
  title = [];
  album = [];
  artist = [];
  cover_url = [];
}

-- The operations of SnapcastComm that the client calls, over the state `S` of that component.
pub record SnapPort (S : Type 0) : Type 0 where
  pub snap_open : Run S (Unit {0})
  pub snap_close : Run S (Unit {0})
  pub send_start : List ℕ → ℤ → ℤ → ℤ → Run S Bool
  pub send_pause : Run S Bool
  pub send_stop : Run S Bool

-- The client, the component behind `snapcastComm`, what the peer has got and will send on the
-- socket, what later writes will return, and the reading of the monotonic clock.
pub record World (S : Type 0) : Type 0 where
  pub client : Client
  pub open client use *
  pub snap : S
  pub out : List ℕ
  pub writes : List WriteResult
  pub incoming : List ReadEvent
  pub now : TimeSpec

-- `getIsOpen` and `setIsOpen`; the lock makes each one step.
abbrev pub get_is_open : Client → Bool
get_is_open c = c.is_open

abbrev pub set_is_open : Bool → Client → Client
set_is_open b c = record c { is_open = b }

-- A method that reads and writes the client's members only.
abbrev pub on_client {ℓ} : {S : Type 0} {A : Type ℓ} → Run Client A → Run (World S) A
on_client m w = elim (m w.client) [
  | done (a, c) ↦ done (a, record w { client = c })
  | thrown ↦ thrown
  | undefined ↦ undefined
  | stuck ↦ stuck
]

-- A call of `snapcastComm`.
abbrev pub on_snap {ℓ} : {S : Type 0} {A : Type ℓ} → Run S A → Run (World S) A
on_snap m w = elim (m w.snap) [
  | done (a, s) ↦ done (a, record w { snap = s })
  | thrown ↦ thrown
  | undefined ↦ undefined
  | stuck ↦ stuck
]
